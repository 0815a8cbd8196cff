-- ===== src/Archive/Bytes.antt =====
-- internal/sink/archive/jsonl.go: the bytes of a file, its lines, and the search for its last newline, which reads the
-- file backwards in chunks.
pub mod Chunks
use antwatcher.Prelude.{
  ℕ, zero, suc, ◌+◌, ◌-◌, ◌≤◌, ◌<◌, ◌≡◌, refl, ap, sym, ◌∙◌, Bool, true, false, Option, none, some,
  List, [], ◌∷◌, ◌++◌, append_assoc, append-nil, arith, ltb, ◌==◌, if◌then◌else◌, length, take, All,
  ==_iff, Bool-cases, inl, inr, ◌⊎◌,
}

-- '\n'
abbrev pub newline : ℕ
newline = 10

abbrev pub drop {ℓ} : {A : Type ℓ} → ℕ → List A → List A
drop zero xs = xs
drop (suc n) [] = []
drop (suc n) (x ∷ xs) = drop n xs

-- The byte at an index, 0 past the end.
abbrev pub byte_at : List ℕ → ℕ → ℕ
byte_at [] i = 0
byte_at (b ∷ bs) zero = b
byte_at (b ∷ bs) (suc i) = byte_at bs i

-- The complete lines that a reader finds, each with its newline, and the bytes after the last newline;
-- `line` is the part of the current line that is already read.
unfoldable pub lines_after : List ℕ → List ℕ → List (List ℕ)
lines_after line [] = []
lines_after line (b ∷ bs) =
    let whole = lines_after [] bs in
    let rest = lines_after (line ++ b ∷ []) bs in
    if b == newline then (line ++ b ∷ []) ∷ whole else rest

unfoldable pub tail_after : List ℕ → List ℕ → List ℕ
tail_after line [] = line
tail_after line (b ∷ bs) =
    let whole = tail_after [] bs in
    let rest = tail_after (line ++ b ∷ []) bs in if b == newline then whole else rest

abbrev pub lines_of : List ℕ → List (List ℕ)
lines_of bs = lines_after [] bs

abbrev pub tail_of : List ℕ → List ℕ
tail_of bs = tail_after [] bs

-- The offset just after the last newline of a byte and what follows it, by the offset in what follows.
abbrev pub end_after : ℕ → ℕ → ℕ
end_after b zero = if b == newline then 1 else 0
end_after b (suc rest) = suc (suc rest)

-- The offset just after the last newline, or 0, in one pass.
unfoldable pub last_end : List ℕ → ℕ
last_end [] = 0
last_end (b ∷ bs) = end_after b (last_end bs)

-- `for i := n - 1; i >= 0; i--`: the offset after the last newline among the first `n` bytes of the buffer.
unfoldable pub scan_back : List ℕ → ℕ → Option ℕ
scan_back buf zero = none
scan_back buf (suc i) =
    let rest = scan_back buf i in if byte_at buf i == newline then some (i + 1) else rest

-- What lastNewline gives after a chunk at `pos`.
abbrev found_at : ℕ → ℕ → Option ℕ → ℕ
found_at pos rest (some i) = pos + i
found_at pos rest none = rest

-- The loop of lastNewline from `pos` on, which each chunk moves down: `fuel` is a bound of `pos`.
unfoldable pub newline_before : ℕ → List ℕ → ℕ → ℕ → ℕ
unfolding scan_back
newline_before chunk bs zero pos = 0
newline_before chunk bs (suc fuel) pos =
    let n = if ltb pos chunk then pos else chunk in
    let rest = newline_before chunk bs fuel (pos - n) in
    if pos == 0 then 0 else found_at (pos - n) rest (scan_back (take n (drop (pos - n) bs)) n)

-- 64 * 1024
unfoldable pub chunk_size : ℕ
chunk_size = 65536

-- lastNewline
unfoldable pub last_newline : List ℕ → ℕ
unfolding newline_before chunk_size
last_newline bs = newline_before chunk_size bs (length bs) (length bs)

pub no_lines : lines_of [] ≡ []
unfolding lines_after
no_lines = refl

pub no_tail : tail_of [] ≡ []
unfolding tail_after
no_tail = refl

pub lines_after-append :
    (line cs bs : List ℕ)
    → lines_after line (cs ++ bs) ≡ lines_after line cs ++ lines_after (tail_after line cs) bs
unfolding lines_after tail_after
lines_after-append line [] bs = refl
lines_after-append line (a ∷ cs) bs =
    ground (arith, lines_after-append [] cs bs, lines_after-append (line ++ a ∷ []) cs bs)

pub tail_after-append :
    (line cs bs : List ℕ) → tail_after line (cs ++ bs) ≡ tail_after (tail_after line cs) bs
unfolding tail_after
tail_after-append line [] bs = refl
tail_after-append line (a ∷ cs) bs =
    ground (arith, tail_after-append [] cs bs, tail_after-append (line ++ a ∷ []) cs bs)

-- A byte within a line.
abbrev pub IsInner : ℕ → Type 0
IsInner b = (b == newline) ≡ false

-- A line: bytes within, and the newline.
pub record IsLine (line : List ℕ) : Type 0 where
  pub inner : List ℕ
  pub all_inner : All IsInner inner
  pub ended : line ≡ inner ++ newline ∷ []

pub inner_lines : (line bs : List ℕ) → All IsInner bs → lines_after line bs ≡ []
unfolding lines_after
inner_lines line [] h = refl
inner_lines line (b ∷ bs) (e, h) = rw e (inner_lines (line ++ b ∷ []) bs h)

pub inner_tail : (line bs : List ℕ) → All IsInner bs → tail_after line bs ≡ line ++ bs
unfolding tail_after
inner_tail line [] h = sym (append-nil line)
inner_tail line (b ∷ bs) (e, h) =
    rw e (inner_tail (line ++ b ∷ []) bs h ∙ append_assoc line (b ∷ []) bs)

cut_lines :
    (line bs : List ℕ) (b rest : ℕ)
    → lines_after [] (take rest bs) ≡ lines_after [] bs
    → lines_after (line ++ b ∷ []) (take rest bs) ≡ lines_after (line ++ b ∷ []) bs
    → lines_after line (take (end_after b rest) (b ∷ bs)) ≡ lines_after line (b ∷ bs)
unfolding lines_after
cut_lines line bs b zero h k = ground arith
cut_lines line bs b (suc rest) h k = ground arith

-- Cutting a file after its last newline keeps its lines.
pub lines-take-last_end :
    (line bs : List ℕ) → lines_after line (take (last_end bs) bs) ≡ lines_after line bs
unfolding lines_after last_end
lines-take-last_end line [] = refl
lines-take-last_end line (b ∷ bs) =
    cut_lines line bs b (last_end bs) (lines-take-last_end [] bs)
      (lines-take-last_end (line ++ b ∷ []) bs)

cut_tail :
    (line bs : List ℕ) (b rest : ℕ)
    → (0 < rest → tail_after [] (take rest bs) ≡ [])
    → (0 < rest → tail_after (line ++ b ∷ []) (take rest bs) ≡ [])
    → 0 < end_after b rest
    → tail_after line (take (end_after b rest) (b ∷ bs)) ≡ []
unfolding tail_after
cut_tail line bs b zero h k some_line = ground arith
cut_tail line bs b (suc rest) h k some_line =
    let whole = h (omega arith) in let inner = k (omega arith) in ground arith

pub tail-take-last_end :
    (line bs : List ℕ) → (0 < last_end bs) → tail_after line (take (last_end bs) bs) ≡ []
unfolding tail_after last_end
tail-take-last_end line [] h = absurd (omega arith)
tail-take-last_end line (b ∷ bs) h =
    cut_tail line bs b (last_end bs) (tail-take-last_end [] bs)
      (tail-take-last_end (line ++ b ∷ []) bs) h

pub whole_line : (line : List ℕ) → IsLine line → (lines_of line ≡ line ∷ []) × (tail_of line ≡ [])
unfolding lines_after tail_after
whole_line line h =
    let inner = h.inner in
    let lines = lines_after-append [] inner (newline ∷ []) in
    let rest = tail_after-append [] inner (newline ∷ []) in
    rw h.ended
      (lines ∙ rw (inner_lines [] inner h.all_inner, inner_tail [] inner h.all_inner) refl, rest)

part_line :
    (before inner : List ℕ) (n : ℕ)
    → All IsInner inner
    → (lines_after before (take n (inner ++ newline ∷ [])) ≡ [])
      ⊎ (lines_after before (take n (inner ++ newline ∷ []))
          ≡ (before ++ (inner ++ newline ∷ [])) ∷ [])
unfolding lines_after
part_line before inner zero h = inl refl
part_line before [] (suc n) h =
    inr (ap (λ l. (before ++ newline ∷ []) ∷ lines_after [] l) (take_none n))
  where
    take_none : (n : ℕ) → take {A = ℕ} n [] ≡ []
    take_none zero = refl
    take_none (suc n) = refl
part_line before (b ∷ inner) (suc n) (e, h) =
    rw (e, sym (append_assoc before (b ∷ []) (inner ++ newline ∷ [])))
      (part_line (before ++ b ∷ []) inner n h)

-- A part of a line holds no complete line, or is the whole one.
pub take_line :
    (line : List ℕ) (n : ℕ)
    → IsLine line
    → (lines_of (take n line) ≡ []) ⊎ (lines_of (take n line) ≡ line ∷ [])
take_line line n h = rw h.ended (part_line [] h.inner n h.all_inner)

-- ===== src/Archive/Bytes/Chunks.antt =====
-- The search for the last newline in chunks finds what one pass finds.
use antwatcher.Prelude.{
  ℕ, zero, suc, ◌+◌, ◌-◌, ◌≤◌, ◌<◌, ◌≡◌, refl, ap, sym, ◌∙◌, Bool, true, false, Option, none, some,
  List, [], ◌∷◌, ◌++◌, arith, ltb, ◌==◌, if◌then◌else◌, length, take, Bool-cases, inl, inr,
}
use antwatcher.Archive.Bytes.{
  newline, drop, byte_at, end_after, last_end, scan_back, found_at, newline_before, chunk_size,
  last_newline,
}

module _ {ℓ} {A : Type ℓ} where
  take_add : (k m n : ℕ) (xs : List A) → k ≡ m + n → take k xs ≡ take m xs ++ take n (drop m xs)
  take_add k zero n xs e = ap (λ i. take i xs) (omega (arith, e))
  take_add zero (suc m) n xs e = absurd (omega (arith, e))
  take_add (suc k) (suc m) n [] e = sym (take_nil n)
    where
      take_nil : (n : ℕ) → take {A = A} n [] ≡ []
      take_nil zero = refl
      take_nil (suc n) = refl
  take_add (suc k) (suc m) n (x ∷ xs) e = ap (λ l. x ∷ l) (take_add k m n xs (omega (arith, e)))

  length-drop : (m : ℕ) (xs : List A) → m ≤ length xs → m + length (drop m xs) ≡ length xs
  length-drop zero xs h = omega arith
  length-drop (suc m) [] h = absurd (omega arith)
  length-drop (suc m) (x ∷ xs) h = omega (arith, length-drop m xs (omega arith))

  length-take : (n : ℕ) (xs : List A) → n ≤ length xs → length (take n xs) ≡ n
  length-take zero xs h = refl
  length-take (suc n) [] h = absurd (omega arith)
  length-take (suc n) (x ∷ xs) h = omega (arith, length-take n xs (omega arith))

  pub take_all : (xs : List A) → take (length xs) xs ≡ xs
  take_all [] = refl
  take_all (x ∷ xs) = ap (λ l. x ∷ l) (take_all xs)

-- The offset of a whole file, by that of its second part.
abbrev over : ℕ → ℕ → ℕ → ℕ
over size first zero = first
over size first (suc second) = size + suc second

end_after_lem : (b k : ℕ) → 0 < k → end_after b k ≡ suc k
end_after_lem b zero h = absurd (omega arith)
end_after_lem b (suc k) h = refl

over-end_after :
    (b size first second : ℕ)
    → end_after b (over size first second) ≡ over (suc size) (end_after b first) second
over-end_after b size first zero = refl
over-end_after b size first (suc second) =
    end_after_lem b (size + suc second) (omega arith) ∙ omega arith

last_end-append :
    (xs ys : List ℕ) → last_end (xs ++ ys) ≡ over (length xs) (last_end xs) (last_end ys)
unfolding last_end
last_end-append [] ys = over_zero (last_end ys)
  where
    over_zero : (second : ℕ) → second ≡ over 0 0 second
    over_zero zero = refl
    over_zero (suc second) = omega arith
last_end-append (x ∷ xs) ys =
    ap (end_after x) (last_end-append xs ys)
    ∙ over-end_after x (length xs) (last_end xs) (last_end ys)

take_snoc : (i : ℕ) (bs : List ℕ) → i < length bs → take (suc i) bs ≡ take i bs ++ byte_at bs i ∷ []
take_snoc i [] h = absurd (omega arith)
take_snoc zero (b ∷ bs) h = refl
take_snoc (suc i) (b ∷ bs) h = ap (λ l. b ∷ l) (take_snoc i bs (omega arith))

-- The result of the scan of a buffer, by its last offset.
abbrev position : ℕ → Option ℕ
position zero = none
position (suc k) = some (suc k)

position_pos : (k : ℕ) → 0 < k → some k ≡ position k
position_pos zero h = absurd (omega arith)
position_pos (suc k) h = refl

position_if :
    (test : Bool) (i first : ℕ)
    → (if test then some (i + 1) else position first)
      ≡ position (over i first (if test then 1 else 0))
position_if true i first = position_pos (i + 1) (omega arith)
position_if false i first = refl

scan_back_lem :
    (n : ℕ) (buf : List ℕ) → n ≤ length buf → scan_back buf n ≡ position (last_end (take n buf))
unfolding scan_back last_end
scan_back_lem zero buf h = refl
scan_back_lem (suc i) buf h =
    rw
      (
        scan_back_lem i buf (omega arith),
        take_snoc i buf (omega arith),
        last_end-append (take i buf) (byte_at buf i ∷ []),
        length-take i buf (omega arith),
      )
      (position_if (byte_at buf i == newline) i (last_end (take i buf)))

found_at-position : (pos rest k : ℕ) → found_at pos rest (position k) ≡ over pos rest k
found_at-position pos rest zero = refl
found_at-position pos rest (suc k) = refl

scan_whole : (n : ℕ) (buf : List ℕ) → length buf ≡ n → scan_back buf n ≡ position (last_end buf)
scan_whole n buf e =
    scan_back_lem n buf (omega arith)
    ∙ ap (λ bs. position (last_end bs)) (ap (λ k. take k buf) (sym e) ∙ take_all buf)

not_start : (pos : ℕ) → (suc pos == 0) ≡ false
not_start pos = ground arith

-- One chunk of the loop.
chunk_lem :
    (bs : List ℕ) (n pos rest : ℕ)
    → n ≤ pos
    → pos ≤ length bs
    → rest ≡ last_end (take (pos - n) bs)
    → found_at (pos - n) rest (scan_back (take n (drop (pos - n) bs)) n) ≡ last_end (take pos bs)
chunk_lem bs n pos rest small fits e =
    let before = length-take (pos - n) bs (omega arith) in
    let left = length-drop (pos - n) bs (omega arith) in
    let read = length-take n (drop (pos - n) bs) (omega arith) in
    rw
      (
        e,
        scan_whole n (take n (drop (pos - n) bs)) read,
        take_add pos (pos - n) n bs (omega arith),
        last_end-append (take (pos - n) bs) (take n (drop (pos - n) bs)),
        before,
      )
      (found_at-position (pos - n) (last_end (take (pos - n) bs))
        (last_end (take n (drop (pos - n) bs))))

newline_before_lem :
    (chunk : ℕ) (bs : List ℕ) (fuel pos : ℕ)
    → 0 < chunk
    → pos ≤ fuel
    → pos ≤ length bs
    → newline_before chunk bs fuel pos ≡ last_end (take pos bs)
unfolding newline_before last_end
newline_before_lem chunk bs zero zero c f h = refl
newline_before_lem chunk bs zero (suc pos) c f h = absurd (omega arith)
newline_before_lem chunk bs (suc fuel) zero c f h = refl
newline_before_lem chunk bs (suc fuel) (suc pos) c f h = elim (Bool-cases (ltb (suc pos) chunk)) [
  | inl e ↦
      rw (e, not_start pos)
        (chunk_lem bs (suc pos) (suc pos) (newline_before chunk bs fuel (suc pos - suc pos))
          (omega arith) h
          (newline_before_lem chunk bs fuel (suc pos - suc pos) c (omega arith) (omega arith)))
  | inr e ↦
      let fits : chunk ≤ suc pos = ground arith in
      rw (e, not_start pos)
        (chunk_lem bs chunk (suc pos) (newline_before chunk bs fuel (suc pos - chunk)) fits h
          (newline_before_lem chunk bs fuel (suc pos - chunk) c (omega arith) (omega arith)))
]

-- Reading a file backwards in chunks of 64 KiB, lastNewline finds what one pass over the whole file finds: the offset
-- just after its last newline, and 0 in a file without one.
pub last_newline_lem : (bs : List ℕ) → last_newline bs ≡ last_end bs
unfolding last_newline chunk_size
last_newline_lem bs =
    newline_before_lem chunk_size bs (length bs) (length bs) (omega arith) (omega arith)
      (omega arith)
    ∙ ap last_end (take_all bs)

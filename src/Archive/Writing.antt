-- ===== src/Archive/Writing.antt =====
-- internal/sink/archive/jsonl.go: what a write that fails or succeeds leaves of a file.
use antwatcher.Prelude.{
  if_lem, ℕ, ◌+◌, ◌<◌, ◌≡◌, refl, ap, sym, ◌∙◌, false, Option, none, some, List, [], ◌∷◌, ◌++◌,
  append_assoc, append-nil, arith, ltb, ◌==◌, All, take, length, length-append, inl, inr, ◌⊎◌,
}
use mathlib.Core.Path.{subst}
use antwatcher.Prelude.Errors.{Err}
use antwatcher.Archive.Bytes.{
  lines_of, tail_of, no_tail, lines_after-append, tail_after-append, IsLine, whole_line, take_line,
}
use antwatcher.Archive.Files.{Call, Outside, Options}
use antwatcher.Archive.Store.{
  Opened, Store, Done, then_do, opened, should_rotate, cut_back, with_part, abandon, grown,
  write_line, write_file,
}
use antwatcher.Archive.Log.{finals_log, part_log, log, IsWholeFile, unless_lem}

-- The open file in memory is the one on disk, and where that does not end with a newline the next Append rotates
-- it.
abbrev pub IsOpened : Opened → List ℕ → Type 0
IsOpened o bytes = (o.size ≡ length bytes) × ((tail_of bytes ≡ []) ⊎ (o.opened_at ≡ 0))

abbrev pub IsOpen : Option Opened → Option (List ℕ) → Type 0
IsOpen none part = Unit
IsOpen (some o) part = (bytes : List ℕ) × (part ≡ some bytes) × IsOpened o bytes

pub record IsValid (unpack : List ℕ → List ℕ) (s : Store) : Type 0 where
  pub whole : All (IsWholeFile unpack) s.finals
  pub opened : IsOpen s.file s.part

-- A file is open and ends with a newline.
abbrev pub IsClean : Store → Type 0
IsClean s =
    (o : Opened) × (bytes : List ℕ) × (s.file ≡ some o)
    × (s.part ≡ some bytes)
    × (o.size ≡ length bytes)
    × (tail_of bytes ≡ [])

no_bytes : (bytes : List ℕ) → ltb 0 (length bytes) ≡ false → bytes ≡ []
no_bytes [] h = refl
no_bytes (b ∷ bs) h = absurd (ground arith)

pub opened-IsOpened : (out : Outside) (bytes : List ℕ) → IsOpened (opened out bytes) bytes
unfolding opened
opened-IsOpened out bytes =
    if_lem (λ o. IsOpened o bytes) (ltb 0 (length bytes)) _ _ (λ e. (refl, inr refl))
      (λ e. (refl, inl (rw (no_bytes bytes e) no_tail)))

take_front : (xs ys : List ℕ) → take (length xs) (xs ++ ys) ≡ xs
take_front [] ys = refl
take_front (x ∷ xs) ys = ap (λ l. x ∷ l) (take_front xs ys)

-- A file that does not rotate although times rotate it ends with a newline.
pub kept_clean :
    (opts : Options) (n now : ℕ) (o : Opened) (bytes : List ℕ)
    → 0 < opts.rotate_every
    → IsOpened o bytes
    → should_rotate opts n now o ≡ false
    → tail_of bytes ≡ []
unfolding should_rotate
kept_clean opts n now o bytes every (size, inl clean) h = clean
kept_clean opts n now o bytes every (size, inr old) h =
    let empty : ltb 0 (length bytes) ≡ false = ground arith in rw (no_bytes bytes empty) no_tail

module _ (unpack : List ℕ → List ℕ) where
  -- What Append does with a line: one that is acknowledged is the newest record, one that is not is the newest record
  -- or is not there, and all other records stay.
  pub record IsAppended (s : Store) (line : List ℕ) (d : Done) : Type 0 where
    pub acked : d.1 ≡ none → log unpack d.0 ≡ log unpack s ++ line ∷ []
    pub kept : (log unpack d.0 ≡ log unpack s) ⊎ (log unpack d.0 ≡ log unpack s ++ line ∷ [])
    pub valid : IsValid unpack d.0

  -- A step that comes before the write.
  pub record IsStep (s : Store) (d : Done) : Type 0 where
    pub same : log unpack d.0 ≡ log unpack s
    pub valid : IsValid unpack d.0

  pub then_do-IsAppended :
      (s : Store) (line : List ℕ) (d : Done) (mark : Err → Err) (next : Store → Done)
      → IsStep s d
      → (d.1 ≡ none → IsAppended d.0 line (next d.0))
      → IsAppended s line (then_do d mark next)
  then_do-IsAppended s line (s', some e) mark next h k = record {
    acked = λ x. absurd (cc);
    kept = inl h.same;
    valid = h.valid;
  }
  then_do-IsAppended s line (s', none) mark next h k =
      let a = k refl in
      record { acked = λ e. rw⁻¹ h.same (a.acked e); kept = rw⁻¹ h.same a.kept; valid = a.valid }

  -- The lines once these bytes follow a file that ends with a newline.
  added_lines :
      (bytes line landed : List ℕ)
      → tail_of bytes ≡ []
      → (lines_of landed ≡ []) ⊎ (lines_of landed ≡ line ∷ [])
      → (lines_of (bytes ++ landed) ≡ lines_of bytes)
        ⊎ (lines_of (bytes ++ landed) ≡ lines_of bytes ++ line ∷ [])
  added_lines bytes line landed clean (inl h) =
      inl (lines_after-append [] bytes landed ∙ rw (clean, h) (append-nil (lines_of bytes)))
  added_lines bytes line landed clean (inr h) =
      inr (lines_after-append [] bytes landed ∙ rw (clean, h) refl)

  module _ (out : Outside) where
    -- The lines after an abandoned write of a part of a line.
    cut_back_lines :
        (n : ℕ) (size : ℕ) (bytes line landed : List ℕ)
        → size ≡ length bytes
        → tail_of bytes ≡ []
        → (lines_of landed ≡ []) ⊎ (lines_of landed ≡ line ∷ [])
        → (lines_of (cut_back out n size (bytes ++ landed)) ≡ lines_of bytes)
          ⊎ (lines_of (cut_back out n size (bytes ++ landed)) ≡ lines_of bytes ++ line ∷ [])
    unfolding cut_back
    cut_back_lines n size bytes line landed e clean h =
        let P : List ℕ → Type 0 =
          λ xs. (lines_of xs ≡ lines_of bytes) ⊎ (lines_of xs ≡ lines_of bytes ++ line ∷ []) in
        let all : P (bytes ++ landed) = added_lines bytes line landed clean h in
        if_lem P (ltb 0 n) _ _
          (λ x.
            unless_lem P (out.fails 0 Call.truncate_line) _ _ (λ y. all)
              (inl (ap lines_of (rw e (take_front bytes landed)))))
          (λ x. all)

    abandon-IsAppended :
        (s : Store) (o : Opened) (bytes line landed : List ℕ) (n : ℕ) (e : Err)
        → All (IsWholeFile unpack) s.finals
        → s.part ≡ some bytes
        → o.size ≡ length bytes
        → tail_of bytes ≡ []
        → (lines_of landed ≡ []) ⊎ (lines_of landed ≡ line ∷ [])
        → IsAppended s line (abandon out s o n landed, some e)
    unfolding abandon
    abandon-IsAppended s o bytes line landed n e whole part size clean h = record {
      acked = λ x. absurd (cc);
      kept = abandoned_log (cut_back_lines n o.size bytes line landed size clean h);
      valid = record { whole = whole; opened = tt };
    }
      where
        abandoned_log :
            (lines_of (cut_back out n o.size (bytes ++ landed)) ≡ lines_of bytes)
              ⊎ (lines_of (cut_back out n o.size (bytes ++ landed)) ≡ lines_of bytes ++ line ∷ [])
            → (finals_log unpack s.finals
                  ++ part_log (with_part (λ b. cut_back out n o.size (b ++ landed)) s.part)
                ≡ log unpack s)
              ⊎ (finals_log unpack s.finals
                    ++ part_log (with_part (λ b. cut_back out n o.size (b ++ landed)) s.part)
                  ≡ log unpack s ++ line ∷ [])
        abandoned_log (inl x) = inl (rw (part, x) refl)
        abandoned_log (inr x) = inr (
            rw (part, x)
              (sym (append_assoc (finals_log unpack s.finals) (lines_of bytes) (line ∷ []))))

    written-IsAppended :
        (s : Store) (o : Opened) (bytes line : List ℕ) (received : ℕ)
        → All (IsWholeFile unpack) s.finals
        → s.part ≡ some bytes
        → o.size ≡ length bytes
        → tail_of bytes ≡ []
        → IsLine line
        → IsAppended s line (
          record s {
            file = some (grown out.now received (length line) o);
            part = with_part (λ b. b ++ line) s.part;
          },
          none,
        )
    unfolding grown
    written-IsAppended s o bytes line received whole part size clean l =
        let grown_log : finals_log unpack s.finals ++ part_log (with_part (λ b. b ++ line) s.part)
            ≡ log unpack s ++ line ∷ [] =
          rw (part, lines_after-append [] bytes line, clean, (whole_line line l).0)
            (sym (append_assoc (finals_log unpack s.finals) (lines_of bytes) (line ∷ []))) in
        let new_tail : tail_of (bytes ++ line) ≡ [] =
          tail_after-append [] bytes line ∙ rw clean ((whole_line line l).1) in
        let new_size : o.size + length line ≡ length (bytes ++ line) =
          rw (size, length-append bytes line) refl in
        record {
          acked = λ e. grown_log;
          kept = inr grown_log;
          valid = record {
            whole = whole;
            opened = (
              bytes ++ line,
              rw part refl,
              if_lem (λ o'. IsOpened o' (bytes ++ line)) (o.size == 0) _ _
                  (λ e. (new_size, inl new_tail)) (λ e. (new_size, inl new_tail)),
            );
          };
        }

    write_line-IsAppended :
        (s : Store) (o : Opened) (bytes line : List ℕ) (received : ℕ) (w : Option (ℕ × Err))
        → All (IsWholeFile unpack) s.finals
        → s.part ≡ some bytes
        → o.size ≡ length bytes
        → tail_of bytes ≡ []
        → IsLine line
        → IsAppended s line (write_line out s o line received w)
    unfolding write_line
    write_line-IsAppended s o bytes line received (some (n, e)) whole part size clean l =
        abandon-IsAppended s o bytes line (take n line) n _ whole part size clean
          (take_line line n l)
    write_line-IsAppended s o bytes line received none whole part size clean l =
        unless_lem (IsAppended s line) (out.fails 0 Call.sync_line) _ _
          (λ e.
            abandon-IsAppended s o bytes line line (length line) _ whole part size clean
              (inr (whole_line line l).0))
          (written-IsAppended s o bytes line received whole part size clean l)

    pub write_file-IsAppended :
        (s : Store) (line : List ℕ) (received : ℕ)
        → All (IsWholeFile unpack) s.finals
        → IsClean s
        → IsLine line
        → IsAppended s line (write_file out s line received s.file)
    unfolding write_file
    write_file-IsAppended s line received whole (o, bytes, file, part, size, clean) l =
        subst (λ f. IsAppended s line (write_file out s line received f)) (sym file)
          (write_line-IsAppended s o bytes line received out.write whole part size clean l)

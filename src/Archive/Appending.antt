-- ===== src/Archive/Appending.antt =====
-- Appending a record, whichever call fails.
use antwatcher.Prelude.{
  if_lem, ℕ, ◌<◌, ◌≡◌, refl, ap, sym, ◌∙◌, Bool, true, false, Option, none, some, List, [], ◌++◌,
  All, length, inl,
}
use mathlib.Core.Path.{subst}
use antwatcher.Prelude.Errors.{Err, ok}
use antwatcher.Archive.Bytes.{no_lines, no_tail, IsLine}
use antwatcher.Archive.Files.{Call, Outside, Options}
use antwatcher.Archive.Store.{
  Opened, Store, Done, then_do, same_err, in_text, rotate, created, opened, open_part,
  should_rotate, write_file, rotate_if, make_room, ready_file, append_line, append,
}
use antwatcher.Archive.Log.{finals_log, part_log, log, IsWholeFile, unless_lem}
use antwatcher.Archive.Rotation.{IsSettled, rotate-IsSettled}
use antwatcher.Archive.Writing.{
  IsOpened, IsOpen, IsValid, IsClean, opened-IsOpened, kept_clean, IsAppended, IsStep,
  then_do-IsAppended, write_file-IsAppended,
}

module _ (unpack : List ℕ → List ℕ) where
  module _ (out : Outside) where
    -- open, on a store with no file open.
    open_part-IsStep :
        (n : ℕ) (s : Store)
        → s.file ≡ none
        → All (IsWholeFile unpack) s.finals
        → IsStep unpack s (open_part out n s)
    unfolding open_part
    open_part-IsStep n s shut whole =
        let made : log unpack (record s { part = some (created s.part) }) ≡ log unpack s =
          created_log s.part in
        unless_lem (IsStep unpack s) (out.fails n Call.open_file) _ _
          (λ e. record { same = refl; valid = record { whole = whole; opened = rw shut tt } })
          (unless_lem (IsStep unpack s) (out.fails n Call.stat_open) _ _
            (λ e. record { same = made; valid = record { whole = whole; opened = rw shut tt } })
            (record {
              same = made;
              valid = record {
                whole = whole;
                opened = (created s.part, refl, opened-IsOpened out (created s.part));
              };
            }))
      where
        created_log :
            (part : Option (List ℕ))
            → finals_log unpack s.finals ++ part_log (some (created part))
              ≡ finals_log unpack s.finals ++ part_log part
        created_log none = ap (λ l. finals_log unpack s.finals ++ l) no_lines
        created_log (some bytes) = refl

    -- open leaves a file open, unless it fails.
    open_part_lem :
        (n : ℕ) (s : Store)
        → (open_part out n s).1 ≡ none
        → (o : Opened) × ((open_part out n s).0.file ≡ some o)
    unfolding open_part
    open_part_lem n s =
        let P : Done → Type 0 = λ d. d.1 ≡ none → (o : Opened) × (d.0.file ≡ some o) in
        unless_lem P (out.fails n Call.open_file) _ _ (λ e h. absurd (cc))
          (unless_lem P (out.fails n Call.stat_open) _ _ (λ e h. absurd (cc))
            (λ h. (opened out (created s.part), refl)))

    -- open after a rotation starts an empty file.
    open_part-IsClean :
        (n : ℕ) (s : Store)
        → s.part ≡ none
        → (open_part out n s).1 ≡ none
        → IsClean (open_part out n s).0
    unfolding open_part opened
    open_part-IsClean n s gone =
        let P : Done → Type 0 = λ d. d.1 ≡ none → IsClean d.0 in
        unless_lem P (out.fails n Call.open_file) _ _ (λ e h. absurd (cc))
          (unless_lem P (out.fails n Call.stat_open) _ _ (λ e h. absurd (cc))
            (rw gone (λ h. (opened out [], [], refl, refl, refl, no_tail))))

    ready_file-IsStep :
        (s : Store) (f : Option Opened)
        → s.file ≡ f
        → IsValid unpack s
        → IsStep unpack s (ready_file out s f)
    unfolding ready_file
    ready_file-IsStep s none e v = open_part-IsStep 0 s e v.whole
    ready_file-IsStep s (some o) e v = record { same = refl; valid = v }

    ready_file_lem :
        (s : Store) (f : Option Opened)
        → s.file ≡ f
        → (ready_file out s f).1 ≡ none
        → (o : Opened) × ((ready_file out s f).0.file ≡ some o)
    unfolding ready_file
    ready_file_lem s none e h = open_part_lem 0 s h
    ready_file_lem s (some o) e h = (o, e)

    module _ (opts : Options) (law : (bytes : List ℕ) → unpack (out.pack bytes) ≡ bytes) where
      -- The rotation in Append, with the open after it.
      rotated-IsStep :
          (s : Store) (d : Done)
          → IsSettled unpack s d
          → IsStep unpack s (then_do d (in_text "rotate archive: ") (open_part out 1))
      rotated-IsStep s (s', some e) h = record {
        same = h.same;
        valid = record { whole = h.whole; opened = rw h.shut tt };
      }
      rotated-IsStep s (s', none) h =
          let a = open_part-IsStep 1 s' h.shut h.whole in
          record { same = a.same ∙ h.same; valid = a.valid }

      rotated-IsClean :
          (s : Store) (d : Done)
          → IsSettled unpack s d
          → (then_do d (in_text "rotate archive: ") (open_part out 1)).1 ≡ none
          → IsClean (then_do d (in_text "rotate archive: ") (open_part out 1)).0
      rotated-IsClean s (s', some e) h k = absurd (cc)
      rotated-IsClean s (s', none) h k = open_part-IsClean 1 s' (h.gone refl) k

      -- The room for a line: the file that is open, or after a rotation a new one.
      make_room-IsStep :
          (n : ℕ) (s : Store) (o : Opened) (test : Bool)
          → s.file ≡ some o
          → IsValid unpack s
          → IsStep unpack s (rotate_if opts out s test)
      unfolding rotate_if
      make_room-IsStep n s o false e v = record { same = refl; valid = v }
      make_room-IsStep n s o true e v =
          rotated-IsStep s (rotate opts out s) (rotate-IsSettled unpack opts out law s o e v.whole)

      rotate_if-IsClean :
          (n : ℕ) (s : Store) (o : Opened) (bytes : List ℕ) (test : Bool)
          → should_rotate opts n out.now o ≡ test
          → 0 < opts.rotate_every
          → s.file ≡ some o
          → s.part ≡ some bytes
          → IsOpened o bytes
          → All (IsWholeFile unpack) s.finals
          → (rotate_if opts out s test).1 ≡ none
          → IsClean (rotate_if opts out s test).0
      unfolding rotate_if
      rotate_if-IsClean n s o bytes false t every e part v whole h =
          (o, bytes, e, part, v.0, kept_clean opts n out.now o bytes every v t)
      rotate_if-IsClean n s o bytes true t every e part v whole h =
          rotated-IsClean s (rotate opts out s) (rotate-IsSettled unpack opts out law s o e whole) h

      -- Append from an open file on.
      append_open :
          (s : Store) (line : List ℕ) (received : ℕ) (o : Opened)
          → 0 < opts.rotate_every
          → s.file ≡ some o
          → IsValid unpack s
          → IsLine line
          → IsAppended unpack s line (
              then_do
                (make_room opts out (length line) s s.file)
                same_err
                (λ s2. write_file out s2 line received s2.file))
      unfolding make_room
      append_open s line received o every e v l =
          let (bytes, part, is_opened) = subst (λ f. IsOpen f s.part) e v.opened in
          let test = should_rotate opts (length line) out.now o in
          let step = make_room-IsStep (length line) s o test e v in
          subst
            (λ f. IsAppended unpack s line (
              then_do (make_room opts out (length line) s f) same_err
                (λ s2. write_file out s2 line received s2.file)))
            (sym e)
            (then_do-IsAppended unpack s line (rotate_if opts out s test) same_err _ step (λ h.
              write_file-IsAppended unpack out (rotate_if opts out s test).0 line received
                step.valid.whole
                (rotate_if-IsClean (length line) s o bytes test refl every e part is_opened v.whole
                  h)
                l))

      append_line-IsAppended :
          (s : Store) (line : List ℕ) (received : ℕ)
          → 0 < opts.rotate_every
          → IsValid unpack s
          → IsLine line
          → IsAppended unpack s line (append_line opts out s line received)
      unfolding append_line
      append_line-IsAppended s line received every v l =
          if_lem (IsAppended unpack s line) s.closed _ _
            (λ e. record { acked = λ x. absurd (cc); kept = inl refl; valid = v })
            (λ e.
              let step = ready_file-IsStep s s.file refl v in
              then_do-IsAppended unpack s line (ready_file out s s.file) same_err _ step (λ h.
                let (o, open_now) = ready_file_lem s s.file refl h in
                append_open (ready_file out s s.file).0 line received o every open_now step.valid
                  l))

      -- Where the age rotates files (rotate_every is not 0) and gzip can be undone: on a store whose
      -- memory agrees with its files, whatever calls fail, Append keeps every record that was there
      -- and adds at most the new line, at the end; if it returns nil, the line is there, complete and
      -- readable; and the memory agrees with the files again.
      pub append-IsAppended :
          (s : Store) (ctx_err : Option Err) (line : List ℕ) (received : ℕ)
          → 0 < opts.rotate_every
          → IsValid unpack s
          → IsLine line
          → IsAppended unpack s line (append opts out s ctx_err (ok line) received)
      unfolding append
      append-IsAppended s none line received every v l =
          append_line-IsAppended s line received every v l
      append-IsAppended s (some e) line received every v l = record {
        acked = λ x. absurd (cc);
        kept = inl refl;
        valid = v;
      }

-- ===== src/Archive/Rotation.antt =====
-- Finalizing the open file, by rotation and by recovery, loses no record whichever call fails.
use antwatcher.Prelude.{
  if_lem, ℕ, ◌≡◌, refl, ap, sym, ◌∙◌, false, Option, none, some, List, [], ◌∷◌, ◌++◌, append-nil,
  ◌==◌, All, All-append, str_eq, length, ◌/◌,
}
use mathlib.Core.Path.{subst}
use antwatcher.Prelude.Errors.{Err}
use antwatcher.Archive.Bytes.{lines_of, no_lines, last_newline, lines-take-last_end}
use antwatcher.Archive.Bytes.Chunks.{last_newline_lem}
use antwatcher.Archive.Files.{
  Call, Outside, Options, plain, Final, is_taken, top_seq, free_seq, put_final, compress_file,
  cut_partial,
}
use antwatcher.Archive.Store.{
  Opened, Store, Done, then_do, same_err, second, finalized, finalize_at, finalize, settle,
  rotate_part, rotate_file, rotate,
}
use antwatcher.Archive.Log.{
  bytes_of, finals_log, log, IsWholeFile, unless_lem, finals_log-append, compress_file-IsSame,
  free_seq_lem, untaken_put,
}

abbrev IsCut : List ℕ → List ℕ × Option Err → Type 0
IsCut bytes d = lines_of d.0 ≡ lines_of bytes

-- cutPartialLine keeps the lines of a file.
pub cut_partial_lines :
    (out : Outside) (bytes : List ℕ) → lines_of (cut_partial out bytes).0 ≡ lines_of bytes
unfolding cut_partial
cut_partial_lines out [] = refl
cut_partial_lines out (b ∷ bs) =
    let same : (e : Err) → IsCut (b ∷ bs) (b ∷ bs, some e) = λ e. refl in
    unless_lem (IsCut (b ∷ bs)) (out.fails 0 Call.open_cut) _ _ same (
      unless_lem (IsCut (b ∷ bs)) (out.fails 0 Call.read_cut) _ _ same (
        if_lem (IsCut (b ∷ bs)) (last_newline (b ∷ bs) == length (b ∷ bs)) _ _ (λ e. refl)
          (λ e.
            unless_lem (IsCut (b ∷ bs)) (out.fails 0 Call.truncate_cut) _ _ same
              (rw (last_newline_lem (b ∷ bs)) (lines-take-last_end [] (b ∷ bs))))))

module _ (unpack : List ℕ → List ℕ) where
  -- The store `d.0` after its open file was to be finalized: no record is lost, no file is open, and without an
  -- error nothing is left to finalize.
  pub record IsSettled (s : Store) (d : Done) : Type 0 where
    pub same : log unpack d.0 ≡ log unpack s
    pub whole : All (IsWholeFile unpack) d.0.finals
    pub shut : d.0.file ≡ none
    pub gone : d.1 ≡ none → d.0.part ≡ none
    pub still : d.0.closed ≡ s.closed

  module _ (opts : Options) (out : Outside)
      (law : (bytes : List ℕ) → unpack (out.pack bytes) ≡ bytes) where
    -- The store once a file with these bytes is in place.
    placed-IsSettled :
        (s : Store) (bytes : List ℕ) (g : Final) (seq : ℕ)
        → All (IsWholeFile unpack) s.finals
        → s.file ≡ none
        → s.part ≡ some bytes
        → is_taken g.stamp g.seq s.finals ≡ false
        → bytes_of unpack g.form ≡ bytes
        → IsWholeFile unpack g
        → IsSettled s (record s { part = none; finals = put_final g s.finals; seq = seq }, none)
    placed-IsSettled s bytes g seq whole shut part free same w = record {
      same =
          rw
            (
              untaken_put g s.finals free,
              finals_log-append unpack s.finals (g ∷ []),
              same,
              part,
              append-nil (lines_of bytes),
            )
            (append-nil (finals_log unpack s.finals ++ lines_of bytes));
      whole =
          rw (untaken_put g s.finals free)
            (All-append (IsWholeFile unpack) s.finals (g ∷ []) whole (w, tt));
      shut = shut;
      gone = λ e. refl;
      still = refl;
    }

    -- An error that leaves the files as they are.
    failed-IsSettled :
        (s s' : Store) (e : Err)
        → s'.part ≡ s.part
        → s'.finals ≡ s.finals
        → s'.file ≡ none
        → s'.closed ≡ s.closed
        → All (IsWholeFile unpack) s.finals
        → IsSettled s (s', some e)
    failed-IsSettled s s' e part finals shut still whole = record {
      same = rw (part, finals) refl;
      whole = rw finals whole;
      shut = shut;
      gone = λ x. absurd (cc);
      still = still;
    }

    finalized-IsSettled :
        (s : Store) (bytes : List ℕ) (stamp seq : ℕ)
        → All (IsWholeFile unpack) s.finals
        → s.file ≡ none
        → s.part ≡ some bytes
        → is_taken stamp seq s.finals ≡ false
        → IsSettled s (finalized opts out s bytes stamp seq)
    unfolding finalized
    finalized-IsSettled s bytes stamp seq whole shut part free =
        let f : Final = record {
          stamp = stamp;
          seq = seq;
          form = plain bytes;
          temporary = false;
        } in
        let c = compress_file-IsSame unpack out law 0 f tt in
        let P : Final → Type 0 = λ g.
          IsSettled s (record s { part = none; finals = put_final g s.finals; seq = seq }, none) in
        unless_lem (IsSettled s) (out.fails 0 Call.rename_part) _ _
          (λ e. failed-IsSettled s (record s { seq = seq }) e refl refl shut refl whole)
          (if_lem P (str_eq opts.compress "gzip") (compress_file out 0 f).0 f
            (λ e.
              placed-IsSettled s bytes (compress_file out 0 f).0 seq whole shut part
                (rw (c.stamp, c.seq) free) c.bytes c.whole)
            (λ e. placed-IsSettled s bytes f seq whole shut part free refl tt))

    finalize_at-IsSettled :
        (s : Store) (bytes : List ℕ) (first_ts : ℕ)
        → All (IsWholeFile unpack) s.finals
        → s.file ≡ none
        → s.part ≡ some bytes
        → IsSettled s (finalize_at opts out s bytes first_ts)
    unfolding finalize_at
    finalize_at-IsSettled s bytes first_ts whole shut part =
        unless_lem (IsSettled s) (out.fails 0 Call.make_dir) _ _
          (λ e. failed-IsSettled s s e refl refl shut refl whole)
          (finalized-IsSettled s bytes (first_ts / second)
            (free_seq (first_ts / second) s.finals (top_seq s.finals) s.seq) whole shut part
            (free_seq_lem (first_ts / second) s.finals s.seq))

    finalize-IsSettled :
        (s : Store) (bytes : List ℕ) (first_ts : ℕ)
        → All (IsWholeFile unpack) s.finals
        → s.file ≡ none
        → s.part ≡ some bytes
        → IsSettled s (finalize opts out s bytes first_ts)
    unfolding finalize
    finalize-IsSettled s bytes first_ts whole shut part =
        if_lem (IsSettled s) (first_ts == 0) _ _
          (λ e.
            unless_lem (IsSettled s) (out.fails 0 Call.stat_finalize) _ _
              (λ x. failed-IsSettled s s x refl refl shut refl whole)
              (finalize_at-IsSettled s bytes (out.first_time bytes) whole shut part))
          (λ e. finalize_at-IsSettled s bytes first_ts whole shut part)

    -- The error of a step is only given another text.
    marked-IsSettled :
        (s : Store) (mark : Err → Err) (d : Done)
        → IsSettled s d
        → IsSettled s (then_do d mark (λ s'. (s', none)))
    marked-IsSettled s mark (s', none) h = h
    marked-IsSettled s mark (s', some e) h = record {
      same = h.same;
      whole = h.whole;
      shut = h.shut;
      gone = λ x. absurd (cc);
      still = h.still;
    }

    -- The store whose open file has other bytes with the same lines.
    moved-IsSettled :
        (s : Store) (bytes cut : List ℕ) (d : Done)
        → s.part ≡ some bytes
        → lines_of cut ≡ lines_of bytes
        → IsSettled (record s { part = some cut }) d
        → IsSettled s d
    moved-IsSettled s bytes cut d part lines h = record {
      same = h.same ∙ rw (part, lines) refl;
      whole = h.whole;
      shut = h.shut;
      gone = h.gone;
      still = h.still;
    }

    pub settle-IsSettled :
        (s : Store) (bytes : List ℕ) (first_ts : ℕ) (mark : Err → Err) (d : List ℕ × Option Err)
        → All (IsWholeFile unpack) s.finals
        → s.file ≡ none
        → s.part ≡ some bytes
        → lines_of d.0 ≡ lines_of bytes
        → IsSettled s (settle opts out s first_ts mark d)
    unfolding settle
    settle-IsSettled s bytes first_ts mark (cut, some e) whole shut part lines =
        moved-IsSettled s bytes cut _ part lines (
          failed-IsSettled (record s { part = some cut }) (record s { part = some cut }) _ refl refl
            shut refl whole)
    settle-IsSettled s bytes first_ts mark ([], none) whole shut part lines =
        moved-IsSettled s bytes [] _ part lines (
          unless_lem (IsSettled (record s { part = some [] })) (out.fails 0 Call.remove_part) _ _
            (λ e.
              failed-IsSettled (record s { part = some [] }) (record s { part = some [] }) e refl
                refl shut refl whole)
            (record {
              same = ap (λ l. finals_log unpack s.finals ++ l) (sym no_lines);
              whole = whole;
              shut = shut;
              gone = λ e. refl;
              still = refl;
            }))
    settle-IsSettled s bytes first_ts mark (b ∷ bs, none) whole shut part lines =
        moved-IsSettled s bytes (b ∷ bs) _ part lines (
          marked-IsSettled (record s { part = some (b ∷ bs) }) mark
            (finalize opts out (record s { part = some (b ∷ bs) }) (b ∷ bs) first_ts)
            (finalize-IsSettled (record s { part = some (b ∷ bs) }) (b ∷ bs) first_ts whole shut
              refl))

    rotate_part-IsSettled :
        (s : Store) (first_ts : ℕ) (part : Option (List ℕ))
        → All (IsWholeFile unpack) s.finals
        → s.file ≡ none
        → s.part ≡ part
        → IsSettled s (rotate_part opts out s first_ts part)
    unfolding rotate_part
    rotate_part-IsSettled s first_ts none whole shut part =
        failed-IsSettled s s _ refl refl shut refl whole
    rotate_part-IsSettled s first_ts (some bytes) whole shut part =
        settle-IsSettled s bytes first_ts same_err (cut_partial out bytes) whole shut part
          (cut_partial_lines out bytes)

    -- What holds of the store without the open file in memory holds of the store.
    shut-IsSettled : (s : Store) (d : Done) → IsSettled (record s { file = none }) d → IsSettled s d
    shut-IsSettled s d h = record {
      same = h.same;
      whole = h.whole;
      shut = h.shut;
      gone = h.gone;
      still = h.still;
    }

    pub rotate_file-IsSettled :
        (s : Store) (o : Opened)
        → All (IsWholeFile unpack) s.finals
        → IsSettled s (rotate_file opts out s (some o))
    unfolding rotate_file
    rotate_file-IsSettled s o whole =
        let s' : Store = record s { file = none } in
        shut-IsSettled s _ (
          unless_lem (IsSettled s') (out.fails 0 Call.close_file) _ _
            (λ e. failed-IsSettled s' s' _ refl refl refl refl whole)
            (unless_lem (IsSettled s') (out.fails 0 Call.stat_file) _ _
              (λ e. failed-IsSettled s' s' _ refl refl refl refl whole)
              (rotate_part-IsSettled s' o.first_ts s.part whole refl refl)))

    pub rotate-IsSettled :
        (s : Store) (o : Opened)
        → s.file ≡ some o
        → All (IsWholeFile unpack) s.finals
        → IsSettled s (rotate opts out s)
    unfolding rotate
    rotate-IsSettled s o e whole =
        subst (λ f. IsSettled s (rotate_file opts out s f)) (sym e)
          (rotate_file-IsSettled s o whole)

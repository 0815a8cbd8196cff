-- ===== src/Archive/Reopening.antt =====
-- Closing a store, and opening one on the files that a crash left, loses no record.
use antwatcher.Prelude.{
  if_lem, ℕ, ◌+◌, ◌≡◌, refl, ap, ◌∙◌, Bool, true, false, Option, none, some, List, [], ◌∷◌, ◌++◌,
  All, str_eq, if◌then◌else◌,
}
use antwatcher.Prelude.Errors.{Err}
use antwatcher.Archive.Bytes.{lines_of}
use antwatcher.Archive.Files.{Call, Outside, Options, Final, cut_partial}
use antwatcher.Archive.Store.{
  Opened, Store, Done, then_do, same_err, rotate, rotate_file, note_close, close,
  remove_temporaries, compress_all, swept, sweep, recover_part, recover, open_store,
}
use antwatcher.Archive.Log.{
  bytes_of, finals_log, log, IsWholeFile, unless_lem, compress_file-IsSame,
}
use antwatcher.Archive.Rotation.{
  IsSettled, rotate_file-IsSettled, settle-IsSettled, cut_partial_lines,
}
use antwatcher.Archive.Writing.{IsValid}

if_true {ℓ} : {A : Type ℓ} (test : Bool) (x y : A) → test ≡ true → (if test then x else y) ≡ x
if_true true x y e = refl
if_true false x y e = absurd (cc)

module _ (unpack : List ℕ → List ℕ) where
  -- What happens to the records and the files: no record is lost or added, no file is open, and without an error
  -- everything is finalized.
  pub record IsKept (s : Store) (d : Done) : Type 0 where
    pub same : log unpack d.0 ≡ log unpack s
    pub valid : IsValid unpack d.0
    pub shut : d.0.file ≡ none
    pub gone : d.1 ≡ none → d.0.part ≡ none

  settled-IsKept : (s : Store) (d : Done) → IsSettled unpack s d → IsKept s d
  settled-IsKept s d h = record {
    same = h.same;
    valid = record { whole = h.whole; opened = rw h.shut tt };
    shut = h.shut;
    gone = h.gone;
  }

  -- Files that hold the same records, each whole.
  record IsSameFiles (fs gs : List Final) : Type 0 where
    pub same : finals_log unpack gs ≡ finals_log unpack fs
    pub whole : All (IsWholeFile unpack) gs

  module _ (opts : Options) (out : Outside)
      (law : (bytes : List ℕ) → unpack (out.pack bytes) ≡ bytes) where
    same_head :
        (f : Final) (fs gs : List Final)
        → IsWholeFile unpack f
        → IsSameFiles fs gs
        → IsSameFiles (f ∷ fs) (f ∷ gs)
    same_head f fs gs w h = record {
      same = ap (λ l. lines_of (bytes_of unpack f.form) ++ l) h.same;
      whole = (w, h.whole);
    }

    remove_temporaries-IsSameFiles :
        (n : ℕ) (fs : List Final)
        → All (IsWholeFile unpack) fs
        → IsSameFiles fs (remove_temporaries out n fs).0
    unfolding remove_temporaries
    remove_temporaries-IsSameFiles n [] h = record { same = refl; whole = tt }
    remove_temporaries-IsSameFiles n (f ∷ fs) (w, h) =
        let P : List Final × Option Err → Type 0 = λ d. IsSameFiles (f ∷ fs) d.0 in
        let rest =
          same_head f fs (remove_temporaries out (n + 1) fs).0 w
            (remove_temporaries-IsSameFiles (n + 1) fs h) in
        if_lem P f.temporary _ _
          (λ e.
            unless_lem P (out.fails n Call.remove_interrupted) _ _
              (λ x. record { same = refl; whole = (w, h) })
              (record { same = rest.same; whole = rest.whole }))
          (λ e. rest)

    compress_all-IsSameFiles :
        (n : ℕ) (fs : List Final)
        → All (IsWholeFile unpack) fs
        → IsSameFiles fs (compress_all out n fs)
    unfolding compress_all
    compress_all-IsSameFiles n [] h = record { same = refl; whole = tt }
    compress_all-IsSameFiles n (f ∷ fs) (w, h) =
        let c = compress_file-IsSame unpack out law n f w in
        let rest = compress_all-IsSameFiles (n + 1) fs h in
        record { same = rw (c.bytes, rest.same) refl; whole = (c.whole, rest.whole) }

    swept-IsKept :
        (s : Store) (d : List Final × Option Err)
        → s.file ≡ none
        → s.part ≡ none
        → IsSameFiles s.finals d.0
        → IsKept s (swept opts out s d)
    unfolding swept
    swept-IsKept s (fs, some e) shut gone h = record {
      same = rw h.same refl;
      valid = record { whole = h.whole; opened = rw shut tt };
      shut = shut;
      gone = λ x. gone;
    }
    swept-IsKept s (fs, none) shut gone h =
        let P : List Final → Type 0 = λ gs. IsKept s (record s { finals = gs }, none) in
        let c = compress_all-IsSameFiles 1 fs h.whole in
        if_lem P (str_eq opts.compress "gzip") (compress_all out 1 fs) fs
          (λ e. record {
            same = rw (c.same, h.same) refl;
            valid = record { whole = c.whole; opened = rw shut tt };
            shut = shut;
            gone = λ x. gone;
          })
          (λ e. record {
            same = rw h.same refl;
            valid = record { whole = h.whole; opened = rw shut tt };
            shut = shut;
            gone = λ x. gone;
          })

    sweep-IsKept :
        (s : Store)
        → s.file ≡ none
        → s.part ≡ none
        → All (IsWholeFile unpack) s.finals
        → IsKept s (sweep opts out s)
    unfolding sweep
    sweep-IsKept s shut gone whole =
        unless_lem (IsKept s) (out.fails 0 Call.walk_root) _ _
          (λ e. record {
            same = refl;
            valid = record { whole = whole; opened = rw shut tt };
            shut = shut;
            gone = λ x. gone;
          })
          (swept-IsKept s (remove_temporaries out 0 s.finals) shut gone
            (remove_temporaries-IsSameFiles 0 s.finals whole))

    recover_part-IsKept :
        (s : Store) (part : Option (List ℕ))
        → s.file ≡ none
        → s.part ≡ part
        → All (IsWholeFile unpack) s.finals
        → IsKept s (recover_part opts out s part)
    unfolding recover_part
    recover_part-IsKept s none shut part whole = record {
      same = refl;
      valid = record { whole = whole; opened = rw shut tt };
      shut = shut;
      gone = λ x. part;
    }
    recover_part-IsKept s (some bytes) shut part whole = settled-IsKept s _ (
        settle-IsSettled unpack opts out law s bytes 0 _ (cut_partial out bytes) whole shut part
          (cut_partial_lines out bytes))

    -- The sweep follows where the open file is gone.
    then_sweep-IsKept :
        (s : Store) (d : Done) → IsKept s d → IsKept s (then_do d same_err (sweep opts out))
    then_sweep-IsKept s (s', some e) h = record {
      same = h.same;
      valid = h.valid;
      shut = h.shut;
      gone = λ x. absurd (cc);
    }
    then_sweep-IsKept s (s', none) h =
        let k = sweep-IsKept s' h.shut (h.gone refl) h.valid.whole in
        record { same = k.same ∙ h.same; valid = k.valid; shut = k.shut; gone = k.gone }

    recover-IsKept :
        (s : Store)
        → s.file ≡ none
        → All (IsWholeFile unpack) s.finals
        → IsKept s (recover opts out s)
    unfolding recover
    recover-IsKept s shut whole =
        unless_lem (IsKept s) (out.fails 0 Call.stat_file) _ _
          (λ e. record {
            same = refl;
            valid = record { whole = whole; opened = rw shut tt };
            shut = shut;
            gone = λ x. absurd (cc);
          })
          (then_sweep-IsKept s (recover_part opts out s s.part)
            (recover_part-IsKept s s.part shut refl whole))

    named-IsKept :
        (s : Store) (mark : Err → Err) (d : Done)
        → IsKept s d
        → IsKept s (then_do d mark (λ s'. (s', none)))
    named-IsKept s mark (s', some e) h = record {
      same = h.same;
      valid = h.valid;
      shut = h.shut;
      gone = λ x. absurd (cc);
    }
    named-IsKept s mark (s', none) h = h

    -- The files of a previous run.
    abbrev pub left : Option (List ℕ) → List Final → Store
    left part finals = record {
      file = none;
      part = part;
      finals = finals;
      seq = 0;
      closed = false;
      close_err = none;
    }

    -- Whatever a crash left in the open file, a partial line included, and whichever calls fail,
    -- OpenStore keeps every complete line of every file and adds none; if it returns nil, the open
    -- file is finalized. Of gzip it is used that it can be undone, and of the files left that a
    -- compressed one beside its plain one holds the same bytes.
    pub open_store-IsKept :
        (part : Option (List ℕ)) (finals : List Final)
        → All (IsWholeFile unpack) finals
        → IsKept (left part finals) (open_store opts out part finals)
    unfolding open_store
    open_store-IsKept part finals whole =
        unless_lem (IsKept (left part finals)) (out.fails 0 Call.make_root) _ _
          (λ e. record {
            same = refl;
            valid = record { whole = whole; opened = tt };
            shut = refl;
            gone = λ x. absurd (cc);
          })
          (named-IsKept (left part finals) _ (recover opts out (left part finals))
            (recover-IsKept (left part finals) refl whole))

    -- The store after Close.
    pub record IsShut (s : Store) (d : Done) : Type 0 where
      pub same : log unpack d.0 ≡ log unpack s
      pub valid : IsValid unpack d.0
      pub shut : d.0.closed ≡ true
      pub again : close opts out d.0 ≡ d

    noted-IsShut :
        (s : Store) (d : Done)
        → (log unpack d.0 ≡ log unpack s) × IsValid unpack d.0 × (d.0.closed ≡ true)
        → IsShut s (note_close d)
    unfolding close
    noted-IsShut s (t, none) (same, v, closed) = record {
      same = same;
      valid = v;
      shut = closed;
      again = if_true t.closed _ _ closed;
    }
    noted-IsShut s (t, some x) (same, v, closed) = record {
      same = same;
      valid = record { whole = v.whole; opened = v.opened };
      shut = closed;
      again = if_true t.closed _ _ closed;
    }

    rotated_log :
        (s : Store) (f : Option Opened)
        → IsValid unpack s
        → (log unpack (rotate_file opts out s f).0 ≡ log unpack s)
          × IsValid unpack (rotate_file opts out s f).0
          × ((rotate_file opts out s f).0.closed ≡ s.closed)
    unfolding rotate_file
    rotated_log s none v = (refl, v, refl)
    rotated_log s (some o) v =
        let h = rotate_file-IsSettled unpack opts out law s o v.whole in
        (h.same, record { whole = h.whole; opened = rw h.shut tt }, h.still)

    -- On a store whose memory agrees with its files, whichever calls fail, Close keeps every record,
    -- and closing again changes nothing and gives the result of the first time; of gzip it is used
    -- that it can be undone.
    pub close-IsShut : (s : Store) → IsValid unpack s → IsShut s (close opts out s)
    unfolding close rotate
    close-IsShut s v =
        let s' : Store = record s { closed = true } in
        if_lem (IsShut s) s.closed _ _
          (λ e. record { same = refl; valid = v; shut = e; again = if_true s.closed _ _ e })
          (λ e.
            noted-IsShut s (rotate opts out s')
              (rotated_log s' s.file (record { whole = v.whole; opened = v.opened })))

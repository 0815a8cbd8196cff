-- ===== src/Archive/Log.antt =====
-- The records that a reader of all files of a store finds, and what finalizing and compressing a file does to them.
use antwatcher.Prelude.{
  if_lem, ℕ, zero, suc, ◌+◌, ◌≤◌, ◌≡◌, refl, ap, sym, ◌∙◌, inl, inr, Bool, true, false, not, ◌||◌,
  Option, none, some, List, [], ◌∷◌, ◌++◌, append_assoc, arith, filter, Bool-cases,
}
use antwatcher.Prelude.Errors.{Err}
use antwatcher.Archive.Bytes.{lines_of}
use antwatcher.Archive.Files.{
  Call, Outside, Form, plain, both, packed, Final, has_name, is_taken, top_seq, free_seq, put_final,
  unless, drop_plain, failed_pack, compress_form, compress_file,
}
use antwatcher.Archive.Store.{Store}

-- The bytes that a reader finds in a finalized file.
abbrev pub bytes_of : (List ℕ → List ℕ) → Form → List ℕ
bytes_of unpack (plain bytes) = bytes
bytes_of unpack (both bytes z) = bytes
bytes_of unpack (packed z) = unpack z

-- The records of the finalized files, in the order they were finalized.
abbrev pub finals_log : (List ℕ → List ℕ) → List Final → List (List ℕ)
finals_log unpack [] = []
finals_log unpack (f ∷ fs) = lines_of (bytes_of unpack f.form) ++ finals_log unpack fs

abbrev pub part_log : Option (List ℕ) → List (List ℕ)
part_log none = []
part_log (some bytes) = lines_of bytes

-- All records of a store: the complete lines of its files.
abbrev pub log : (List ℕ → List ℕ) → Store → List (List ℕ)
log unpack s = finals_log unpack s.finals ++ part_log s.part

-- A compressed file beside its plain one holds the same bytes.
abbrev pub IsWhole : (List ℕ → List ℕ) → Form → Type 0
IsWhole unpack (plain bytes) = Unit
IsWhole unpack (both bytes z) = unpack z ≡ bytes
IsWhole unpack (packed z) = Unit

pub unless_lem {ℓ κ} :
    {A : Type ℓ} (P : A → Type κ) (o : Option Err) (failed : Err → A) (done : A)
    → ((e : Err) → P (failed e))
    → P done
    → P (unless o failed done)
unless_lem P none failed done h k = k
unless_lem P (some e) failed done h k = h e

module _ (unpack : List ℕ → List ℕ) where
  abbrev pub IsWholeFile : Final → Type 0
  IsWholeFile f = IsWhole unpack f.form

  pub finals_log-append :
      (fs gs : List Final)
      → finals_log unpack (fs ++ gs) ≡ finals_log unpack fs ++ finals_log unpack gs
  finals_log-append [] gs = refl
  finals_log-append (f ∷ fs) gs = rw (finals_log-append fs gs) (
      sym (
        append_assoc (lines_of (bytes_of unpack f.form)) (finals_log unpack fs)
          (finals_log unpack gs)))

  -- A file after some step of its compression: its name and the bytes a reader finds are the same.
  pub record IsSame (f : Final) (d : Final × Option Err) : Type 0 where
    pub bytes : bytes_of unpack d.0.form ≡ bytes_of unpack f.form
    pub whole : IsWhole unpack d.0.form
    pub stamp : d.0.stamp ≡ f.stamp
    pub seq : d.0.seq ≡ f.seq

  module _ (out : Outside) (law : (bytes : List ℕ) → unpack (out.pack bytes) ≡ bytes) where
    drop_plain-IsSame :
        (n : ℕ) (f g : Final) (bytes z : List ℕ)
        → g.form ≡ both bytes z
        → bytes ≡ bytes_of unpack f.form
        → unpack z ≡ bytes
        → g.stamp ≡ f.stamp
        → g.seq ≡ f.seq
        → IsSame f (drop_plain out n g z)
    unfolding drop_plain
    drop_plain-IsSame n f g bytes z e same w st sq =
        unless_lem (IsSame f) (out.fails n Call.remove_plain) _ _
          (λ x. record { bytes = rw e same; whole = rw e w; stamp = st; seq = sq })
          (record { bytes = w ∙ same; whole = tt; stamp = st; seq = sq })

    failed_pack-IsSame :
        (n : ℕ) (f : Final) (e : Err) → IsWholeFile f → IsSame f (failed_pack out n f e)
    unfolding failed_pack
    failed_pack-IsSame n f e w =
        unless_lem (IsSame f) (out.fails n Call.remove_temporary) _ _
          (λ x. record { bytes = refl; whole = w; stamp = refl; seq = refl })
          (record { bytes = refl; whole = w; stamp = refl; seq = refl })

    compress_form-IsSame :
        (n : ℕ) (f : Final) (form : Form)
        → f.form ≡ form
        → IsWhole unpack form
        → IsSame f (compress_form out n f form)
    unfolding compress_form
    compress_form-IsSame n f (packed z) e w = record {
      bytes = refl;
      whole = rw e tt;
      stamp = refl;
      seq = refl;
    }
    compress_form-IsSame n f (both bytes z) e w =
        drop_plain-IsSame n f f bytes z e (ap (bytes_of unpack) (sym e)) w refl refl
    compress_form-IsSame n f (plain bytes) e w =
        let failed : (x : Err) → IsSame f (failed_pack out n f x) =
          λ x. failed_pack-IsSame n f x (rw e tt) in
        let same : bytes ≡ bytes_of unpack f.form = ap (bytes_of unpack) (sym e) in
        let g : Final = record f { form = both bytes (out.pack bytes); temporary = false } in
        unless_lem (IsSame f) (out.fails n Call.pack_file) _ _ failed (
          unless_lem (IsSame f) (out.fails n Call.rename_packed) _ _ failed (
            unless_lem (IsSame f) (out.fails n Call.sync_dir) _ _
              (λ x. record { bytes = same; whole = law bytes; stamp = refl; seq = refl })
              (drop_plain-IsSame n f g bytes (out.pack bytes) refl same (law bytes) refl refl)))

    pub compress_file-IsSame :
        (n : ℕ) (f : Final) → IsWholeFile f → IsSame f (compress_file out n f)
    unfolding compress_file
    compress_file-IsSame n f w = compress_form-IsSame n f f.form refl w

-- A name that is taken has a number up to the highest.
taken_le : (stamp seq : ℕ) (fs : List Final) → is_taken stamp seq fs ≡ true → seq ≤ top_seq fs
taken_le stamp seq [] h = absurd (cc)
taken_le stamp seq (f ∷ fs) h = ground (arith, taken_le stamp seq fs)

free_seq_free :
    (stamp : ℕ) (fs : List Final) (fuel seq : ℕ)
    → top_seq fs ≤ fuel + seq
    → is_taken stamp (free_seq stamp fs fuel seq) fs ≡ false
unfolding free_seq
free_seq_free stamp fs zero seq h = elim (Bool-cases (is_taken stamp (seq + 1) fs)) [
  | inl e ↦ absurd (omega (arith, taken_le stamp (seq + 1) fs e))
  | inr e ↦ e
]
free_seq_free stamp fs (suc fuel) seq h =
    if_lem (λ k. is_taken stamp k fs ≡ false) (is_taken stamp (seq + 1) fs)
      (free_seq stamp fs fuel (seq + 1)) (seq + 1)
      (λ e. free_seq_free stamp fs fuel (seq + 1) (omega arith)) (λ e. e)

-- The loop of finalize ends, after at most as many names as the highest number in use, with a name that no
-- finalized file has.
pub free_seq_lem :
    (stamp : ℕ) (fs : List Final) (seq : ℕ)
    → is_taken stamp (free_seq stamp fs (top_seq fs) seq) fs ≡ false
free_seq_lem stamp fs seq = free_seq_free stamp fs (top_seq fs) seq (omega arith)

or_false : (p q : Bool) → (p || q) ≡ false → (p ≡ false) × (q ≡ false)
or_false false q h = (refl, h)
or_false true q h = absurd (cc)

untaken_rest :
    (stamp seq : ℕ) (fs : List Final)
    → is_taken stamp seq fs ≡ false
    → filter (λ g. not (has_name stamp seq g)) fs ≡ fs
untaken_rest stamp seq [] h = refl
untaken_rest stamp seq (f ∷ fs) h =
    let both_false = or_false (has_name stamp seq f) (is_taken stamp seq fs) h in
    rw both_false.0 (ap (λ l. f ∷ l) (untaken_rest stamp seq fs both_false.1))

pub untaken_put :
    (g : Final) (fs : List Final)
    → is_taken g.stamp g.seq fs ≡ false
    → put_final g fs ≡ fs ++ g ∷ []
untaken_put g fs h = ap (λ l. l ++ g ∷ []) (untaken_rest g.stamp g.seq fs h)

-- ===== src/Archive/Joined.antt =====
-- Without rotation by age, a partial line that could not be cut is joined to the next record.
use antwatcher.Prelude.{
  ℕ, ◌+◌, ◌≤◌, ◌≡◌, refl, sym, ◌∙◌, Bool, true, false, Option, none, some, List, [], ◌∷◌, ◌++◌,
  append_assoc, arith, length, if◌then◌else◌,
}
use mathlib.Core.Path.{subst}
use antwatcher.Prelude.Errors.{Err, ok}
use antwatcher.Archive.Bytes.{
  lines_of, lines_after, tail_of, lines_after-append, IsLine, inner_lines, inner_tail, newline,
}
use antwatcher.Archive.Files.{Call, Outside, Options, unless}
use antwatcher.Archive.Store.{
  Store, Done, then_do, same_err, created, opened, open_part, should_rotate, rotate_if, make_room,
  ready_file, write_line, write_file, append_line, append,
}
use antwatcher.Archive.Log.{finals_log, log}

-- No call fails.
pub record IsQuiet (out : Outside) : Type 0 where
  pub calls : (n : ℕ) (c : Call) → out.fails n c ≡ none
  pub write : out.write ≡ none

-- A line after a partial one.
joined_line : (before line : List ℕ) → IsLine line → lines_after before line ≡ (before ++ line) ∷ []
unfolding lines_after
joined_line before line h = rw h.ended (
    lines_after-append before h.inner (newline ∷ [])
    ∙ rw
        (
          inner_lines before h.inner h.all_inner,
          inner_tail before h.inner h.all_inner,
          append_assoc before h.inner (newline ∷ []),
        )
        refl)

quiet_unless {ℓ κ} :
    {A : Type ℓ} (P : A → Type κ) (o : Option Err) (failed : Err → A) (done : A)
    → o ≡ none
    → P done
    → P (unless o failed done)
quiet_unless P none failed done e h = h
quiet_unless P (some x) failed done e h = absurd (cc)

if_not {ℓ κ} :
    {A : Type ℓ} (P : A → Type κ) (test : Bool) (x y : A)
    → test ≡ false
    → P y
    → P (if test then x else y)
if_not P false x y e h = h
if_not P true x y e h = absurd (cc)

small_file :
    (opts : Options) (out : Outside) (n : ℕ) (bytes : List ℕ)
    → opts.rotate_every ≡ 0
    → length bytes + n ≤ opts.rotate_size
    → should_rotate opts n out.now (opened out bytes) ≡ false
unfolding should_rotate opened
small_file opts out n bytes e h = ground arith

-- Without rotation by age (rotate_every is 0): where a store that is not closed has no file open in
-- memory, its open file on disk ends with a partial line, or none, and stays under the size limit, and
-- no call fails, the next Append writes its line right behind that part, returns nil, and the
-- acknowledged record is found only as the end of one line that begins with the part.
pub append_joined :
    (unpack : List ℕ → List ℕ) (opts : Options) (out : Outside) (s : Store) (bytes line : List ℕ)
    (received : ℕ)
    → IsQuiet out
    → opts.rotate_every ≡ 0
    → s.closed ≡ false
    → s.file ≡ none
    → s.part ≡ some bytes
    → length bytes + length line ≤ opts.rotate_size
    → IsLine line
    → ((append opts out s none (ok line) received).1 ≡ none)
      × (log unpack (append opts out s none (ok line) received).0
          ≡ log unpack s ++ (tail_of bytes ++ line) ∷ [])
unfolding append append_line ready_file open_part make_room rotate_if write_file write_line
append_joined unpack opts out s bytes line received quiet every live shut part small l =
    let Q : Done → Type 0 =
      λ d. (d.1 ≡ none) × (log unpack d.0 ≡ log unpack s ++ (tail_of bytes ++ line) ∷ []) in
    let at = created s.part in
    let s1 : Store = record s { part = some at; file = some (opened out at) } in
    let write : Store → Done = λ s2. write_file out s2 line received s2.file in
    let room : Store → Done =
      λ s2. then_do (make_room opts out (length line) s2 s2.file) same_err write in
    let stays : should_rotate opts (length line) out.now (opened out at) ≡ false =
      rw part (small_file opts out (length line) bytes every small) in
    let grown_log : finals_log unpack s.finals ++ lines_of (at ++ line)
        ≡ log unpack s ++ (tail_of bytes ++ line) ∷ [] =
      rw (part, lines_after-append [] bytes line, joined_line (tail_of bytes) line l)
        (sym (
          append_assoc (finals_log unpack s.finals) (lines_of bytes)
            ((tail_of bytes ++ line) ∷ []))) in
    if_not Q s.closed _ _ live (
      subst (λ f. Q (then_do (ready_file out s f) same_err room)) (sym shut)
        (let P : Done → Type 0 = λ d. Q (then_do d same_err room) in
          quiet_unless P (out.fails 0 Call.open_file) _ _ (quiet.calls 0 Call.open_file) (
            quiet_unless P (out.fails 0 Call.stat_open) _ _ (quiet.calls 0 Call.stat_open) (
              subst (λ t. Q (then_do (rotate_if opts out s1 t) same_err write)) (sym stays)
                (subst (λ w. Q (write_line out s1 (opened out at) line received w))
                  (sym quiet.write)
                  (quiet_unless Q (out.fails 0 Call.sync_line) _ _ (quiet.calls 0 Call.sync_line)
                    (refl, grown_log)))))))

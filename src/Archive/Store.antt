-- ===== src/Archive/Store.antt =====
-- internal/sink/archive/jsonl.go: the store, with one open file and the finalized ones.
use antwatcher.Prelude.{
  ℕ, ◌+◌, ◌-◌, ◌/◌, Bool, true, false, ◌&&◌, ◌||◌, Option, none, some, List, [], ◌∷◌, ◌++◌, String,
  ◌+++◌, ltb, leb, ◌==◌, if◌then◌else◌, str_eq, take, length,
}
use antwatcher.Prelude.Errors.{Err, message, wrap, Result, ok, err}
use antwatcher.Archive.Files.{
  Outside, Options, Final, plain, free_seq, put_final, top_seq, unless, compress_file, cut_partial,
  open_file, stat_open, close_file, stat_file, remove_part, stat_finalize, make_dir, rename_part,
  make_root, walk_root, remove_interrupted, sync_line, truncate_line,
}

-- The open file in memory: s.size, s.openedAt and s.firstTS, with 0 for the zero time.
pub record Opened : Type 0 where
  pub size : ℕ
  pub opened_at : ℕ
  pub first_ts : ℕ

-- A Store with its files: the bytes of "<prefix>-current.jsonl.part", if it is there, and the finalized files in
-- the order they were finalized.
pub record Store : Type 0 where
  pub file : Option Opened
  pub part : Option (List ℕ)
  pub finals : List Final
  pub seq : ℕ
  pub closed : Bool
  pub close_err : Option Err

abbrev pub Done : Type 0
Done = Store × Option Err

-- `if err := step; err != nil { return mark(err) }`
abbrev pub then_do : Done → (Err → Err) → (Store → Done) → Done
then_do (s, none) mark next = next s
then_do (s, some e) mark next = (s, some (mark e))

abbrev pub same_err : Err → Err
same_err e = e

abbrev pub in_text : String → Err → Err
in_text before e = wrap before e ""

-- The nanoseconds of a second, the unit of the stamp in a name.
unfoldable pub second : ℕ
second = 1000000000

-- finalize, from the new name on.
unfoldable pub finalized : Options → Outside → Store → List ℕ → ℕ → ℕ → Done
finalized opts out s bytes stamp seq =
    unless (out.fails 0 rename_part) (λ e. (record s { seq = seq }, some e))
      (let f : Final = record { stamp = stamp; seq = seq; form = plain bytes; temporary = false } in
        let g = if str_eq opts.compress "gzip" then (compress_file out 0 f).0 else f in
        (record s { part = none; finals = put_final g s.finals; seq = seq }, none))

-- finalize, once the first time of the file is known.
unfoldable pub finalize_at : Options → Outside → Store → List ℕ → ℕ → Done
unfolding finalized free_seq second
finalize_at opts out s bytes first_ts =
    unless (out.fails 0 make_dir) (λ e. (s, some e))
      (finalized opts out s bytes (first_ts / second)
        (free_seq (first_ts / second) s.finals (top_seq s.finals) s.seq))

-- finalize of an open file with these bytes.
unfoldable pub finalize : Options → Outside → Store → List ℕ → ℕ → Done
unfolding finalize_at
finalize opts out s bytes first_ts =
    if first_ts == 0
    then unless (out.fails 0 stat_finalize) (λ e. (s, some e))
        (finalize_at opts out s bytes (out.first_time bytes))
    else finalize_at opts out s bytes first_ts

-- The open file after cutPartialLine, in rotate and in recover: removed if it is empty, finalized else.
unfoldable pub settle : Options → Outside → Store → ℕ → (Err → Err) → List ℕ × Option Err → Done
unfolding finalize
settle opts out s first_ts mark (bytes, some e) =
    (record s { part = some bytes }, some (wrap ("repair " +++ opts.path +++ ": ") e ""))
settle opts out s first_ts mark ([], none) =
    unless (out.fails 0 remove_part) (λ e. (record s { part = some [] }, some e))
      (record s { part = none }, none)
settle opts out s first_ts mark (b ∷ bs, none) =
    then_do (finalize opts out (record s { part = some (b ∷ bs) }) (b ∷ bs) first_ts) mark
      (λ s'. (s', none))

unfoldable pub rotate_part : Options → Outside → Store → ℕ → Option (List ℕ) → Done
unfolding settle cut_partial
rotate_part opts out s first_ts none =
    (s, some (wrap ("stat " +++ opts.path +++ ": ") out.missing ""))
rotate_part opts out s first_ts (some bytes) =
    settle opts out s first_ts same_err (cut_partial out bytes)

unfoldable pub rotate_file : Options → Outside → Store → Option Opened → Done
unfolding rotate_part
rotate_file opts out s none = (s, none)
rotate_file opts out s (some o) =
    let s' = record s { file = none } in
    unless (out.fails 0 close_file) (λ e. (s', some (wrap ("close " +++ opts.path +++ ": ") e "")))
      (unless (out.fails 0 stat_file) (λ e. (s', some (wrap ("stat " +++ opts.path +++ ": ") e "")))
        (rotate_part opts out s' o.first_ts s.part))

-- rotate
unfoldable pub rotate : Options → Outside → Store → Done
unfolding rotate_file
rotate opts out s = rotate_file opts out s s.file

-- What os.OpenFile leaves in the open file: an empty one is created.
abbrev pub created : Option (List ℕ) → List ℕ
created none = []
created (some bytes) = bytes

-- The state that open sets.
unfoldable pub opened : Outside → List ℕ → Opened
opened out bytes =
    if ltb 0 (length bytes)
    then record { size = length bytes; opened_at = 0; first_ts = out.first_time bytes }
    else record { size = length bytes; opened_at = out.now; first_ts = 0 }

-- open, for the `n`-th time in an operation.
unfoldable pub open_part : Outside → ℕ → Store → Done
unfolding opened
open_part out n s =
    unless (out.fails n open_file) (λ e. (s, some (wrap "open archive: " e "")))
      (let s' = record s { part = some (created s.part) } in
        unless (out.fails n stat_open) (λ e. (s', some (wrap "open archive: " e "")))
          ((record s' { file = some (opened out (created s.part)) }, none)))

-- shouldRotate
unfoldable pub should_rotate : Options → ℕ → ℕ → Opened → Bool
should_rotate opts n now o =
    if o.size == 0
    then false
    else (ltb 0 opts.rotate_size && ltb opts.rotate_size (o.size + n))
      || (ltb 0 opts.rotate_every
          && ((o.opened_at == 0) || leb opts.rotate_every (now - o.opened_at)))

-- The bytes of the open file after abandon cut it to the size in memory.
unfoldable pub cut_back : Outside → ℕ → ℕ → List ℕ → List ℕ
cut_back out n size bytes =
    if ltb 0 n then unless (out.fails 0 truncate_line) (λ e. bytes) (take size bytes) else bytes

-- A write to the open file, which is lost if the file is no longer there.
abbrev pub with_part : (List ℕ → List ℕ) → Option (List ℕ) → Option (List ℕ)
with_part f none = none
with_part f (some bytes) = some (f bytes)

-- abandon, after a write of these `n` bytes.
unfoldable pub abandon : Outside → Store → Opened → ℕ → List ℕ → Store
unfolding cut_back
abandon out s o n landed = record s {
  file = none;
  part = with_part (λ bytes. cut_back out n o.size (bytes ++ landed)) s.part;
}

-- The state after a line of `n` bytes.
unfoldable pub grown : ℕ → ℕ → ℕ → Opened → Opened
grown now received n o =
    if o.size == 0
    then record { size = o.size + n; opened_at = now; first_ts = received }
    else record o { size = o.size + n }

-- The end of Append, from the write on, by how the write ends.
unfoldable pub write_line : Outside → Store → Opened → List ℕ → ℕ → Option (ℕ × Err) → Done
unfolding abandon grown
write_line out s o line received (some (n, e)) =
    (abandon out s o n (take n line), some (wrap "write archive record: " e ""))
write_line out s o line received none =
    unless (out.fails 0 sync_line)
      (λ e. (abandon out s o (length line) line, some (wrap "fsync archive record: " e "")))
      ((
        record s {
          file = some (grown out.now received (length line) o);
          part = with_part (λ bytes. bytes ++ line) s.part;
        },
        none,
      ))

unfoldable pub write_file : Outside → Store → List ℕ → ℕ → Option Opened → Done
unfolding write_line
write_file out s line received none = (s, none)
write_file out s line received (some o) = write_line out s o line received out.write

-- The rotation in Append.
unfoldable pub rotate_if : Options → Outside → Store → Bool → Done
unfolding rotate open_part
rotate_if opts out s false = (s, none)
rotate_if opts out s true =
    then_do (rotate opts out s) (in_text "rotate archive: ") (open_part out 1)

unfoldable pub make_room : Options → Outside → ℕ → Store → Option Opened → Done
unfolding should_rotate rotate_if
make_room opts out n s none = (s, none)
make_room opts out n s (some o) = rotate_if opts out s (should_rotate opts n out.now o)

unfoldable pub ready_file : Outside → Store → Option Opened → Done
unfolding open_part
ready_file out s none = open_part out 0 s
ready_file out s (some o) = (s, none)

-- Append, once the envelope is encoded.
unfoldable pub append_line : Options → Outside → Store → List ℕ → ℕ → Done
unfolding ready_file make_room write_file
append_line opts out s line received =
    if s.closed
    then (s, some (message "archive store is closed"))
    else then_do (ready_file out s s.file) same_err (λ s1.
      then_do (make_room opts out (length line) s1 s1.file) same_err
        (λ s2. write_file out s2 line received s2.file))

-- Append, by what Encode gives for the envelope and its received_at.
unfoldable pub append : Options → Outside → Store → Option Err → Result (List ℕ) → ℕ → Done
unfolding append_line
append opts out s (some e) line received = (s, some e)
append opts out s none (err e) received = (s, some e)
append opts out s none (ok line) received = append_line opts out s line received

abbrev pub note_close : Done → Done
note_close (s, none) = (s, s.close_err)
note_close (s, some e) = (
  record s { close_err = some (wrap "finalize archive: " e "") },
  some (wrap "finalize archive: " e ""),
)

-- Close
unfoldable pub close : Options → Outside → Store → Done
unfolding rotate
close opts out s =
    if s.closed then (s, s.close_err) else note_close (rotate opts out (record s { closed = true }))

-- The removal of interrupted compressions, the first loop of sweep.
unfoldable pub remove_temporaries : Outside → ℕ → List Final → List Final × Option Err
remove_temporaries out n [] = ([], none)
remove_temporaries out n (f ∷ fs) =
    let rest = remove_temporaries out (n + 1) fs in
    if f.temporary
    then unless (out.fails n remove_interrupted) (λ e. (f ∷ fs, some e))
        (record f { temporary = false } ∷ rest.0, rest.1)
    else (f ∷ rest.0, rest.1)

-- The second loop of sweep, for the plain files.
unfoldable pub compress_all : Outside → ℕ → List Final → List Final
compress_all out n [] = []
compress_all out n (f ∷ fs) = (compress_file out n f).0 ∷ compress_all out (n + 1) fs

unfoldable pub swept : Options → Outside → Store → List Final × Option Err → Done
unfolding compress_all
swept opts out s (finals, some e) = (record s { finals = finals }, some e)
swept opts out s (finals, none) = (
  record s { finals = if str_eq opts.compress "gzip" then compress_all out 1 finals else finals },
  none,
)

-- sweep
unfoldable pub sweep : Options → Outside → Store → Done
unfolding swept remove_temporaries
sweep opts out s =
    unless (out.fails 0 walk_root) (λ e. (s, some e))
      (swept opts out s (remove_temporaries out 0 s.finals))

-- The open file of a previous run.
unfoldable pub recover_part : Options → Outside → Store → Option (List ℕ) → Done
unfolding settle cut_partial
recover_part opts out s none = (s, none)
recover_part opts out s (some bytes) =
    settle opts out s 0 (in_text ("finalize " +++ opts.path +++ ": ")) (cut_partial out bytes)

-- recover
unfoldable pub recover : Options → Outside → Store → Done
unfolding recover_part sweep
recover opts out s =
    unless (out.fails 0 stat_file) (λ e. (s, some e))
      (then_do (recover_part opts out s s.part) same_err (sweep opts out))

-- OpenStore on the files of a previous run, for options it accepts.
unfoldable pub open_store : Options → Outside → Option (List ℕ) → List Final → Done
unfolding recover
open_store opts out part finals =
    let s : Store = record {
      file = none;
      part = part;
      finals = finals;
      seq = 0;
      closed = false;
      close_err = none;
    } in
    unless (out.fails 0 make_root) (λ e. (s, some (wrap "archive store: " e "")))
      (then_do (recover opts out s) (in_text ("archive store: recover " +++ opts.dir +++ ": "))
        (λ s'. (s', none)))

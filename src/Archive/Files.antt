-- ===== src/Archive/Files.antt =====
-- internal/sink/archive/jsonl.go: the files of a store, and what finalizing and compressing one does to them. A
-- call of the operating system answers nil or an error, which is an argument; a text is a list of bytes.
use antwatcher.Prelude.{
  ℕ, zero, suc, ◌+◌, Bool, true, false, not, ◌&&◌, ◌||◌, Option, none, some, List, [], ◌∷◌, ◌++◌,
  String, ◌+++◌, ltb, ◌==◌, if◌then◌else◌, filter, any, quoted, str_eq, take, length,
}
use antwatcher.Prelude.Errors.{Err, message, Result, ok, err}
use antwatcher.Archive.Bytes.{last_newline}

-- The calls of the operating system that may fail.
pub data Call : Type 0 where
  open_file stat_open close_file stat_file open_cut read_cut truncate_cut sync_cut remove_part :
      Call
  stat_finalize make_dir rename_part pack_file rename_packed remove_temporary sync_dir
        remove_plain :
      Call
  make_root walk_root remove_interrupted sync_line truncate_line : Call

-- What is outside the store during one of its operations.
pub record Outside : Type 0 where
  -- the error of a call, for the `n`-th time that the operation makes it
  pub fails : ℕ → Call → Option Err
  -- a write that fails: the bytes that landed, and the error
  pub write : Option (ℕ × Err)
  pub now : ℕ
  -- the received_at of the first record of a file, or where it has none its modification time
  pub first_time : List ℕ → ℕ
  -- compress/gzip: what the compressed file holds
  pub pack : List ℕ → List ℕ
  -- os.ErrNotExist
  pub missing : Err

-- StoreOptions, times in nanoseconds
pub record Options : Type 0 where
  pub dir : String
  -- s.part: filepath.Join of the directory and the name of the open file
  pub path : String
  pub prefix : String
  pub compress : String
  pub rotate_size : ℕ
  pub rotate_every : ℕ

-- ParseCompression
unfoldable pub parse_compression : String → Result String
parse_compression s =
    if str_eq s "" || str_eq s "none"
    then ok "none"
    else if str_eq s "gzip"
    then ok "gzip"
    else err (
        message (
          "compress must be "
          +++ quoted "none"
          +++ " or "
          +++ quoted "gzip"
          +++ ", got "
          +++ quoted s))

-- How a finalized file is on disk: plain, with its compressed file beside it, or compressed.
pub data Form : Type 0 where
  plain : List ℕ → Form
  both : List ℕ → List ℕ → Form
  packed : List ℕ → Form

-- A finalized file "<prefix>-<stamp>-<seq>.jsonl" or ".jsonl.gz": the stamp is a time in whole seconds. `temporary` is
-- whether a ".jsonl.gz.tmp" is beside it.
pub record Final : Type 0 where
  pub stamp : ℕ
  pub seq : ℕ
  pub form : Form
  pub temporary : Bool

abbrev pub has_name : ℕ → ℕ → Final → Bool
has_name stamp seq f = (f.stamp == stamp) && (f.seq == seq)

-- exists(target) || exists(target+".gz")
abbrev pub is_taken : ℕ → ℕ → List Final → Bool
is_taken stamp seq finals = any (has_name stamp seq) finals

-- The highest number of a finalized file.
abbrev pub top_seq : List Final → ℕ
top_seq [] = 0
top_seq (f ∷ fs) = let rest = top_seq fs in if ltb rest f.seq then f.seq else rest

-- The loop of finalize for a name that is not taken; `fuel` is a bound of the names it tries.
unfoldable pub free_seq : ℕ → List Final → ℕ → ℕ → ℕ
free_seq stamp finals zero seq = seq + 1
free_seq stamp finals (suc fuel) seq =
    let rest = free_seq stamp finals fuel (seq + 1) in
    if is_taken stamp (seq + 1) finals then rest else seq + 1

-- os.Rename of the open file, over a file of that name.
abbrev pub put_final : Final → List Final → List Final
put_final f finals = filter (λ g. not (has_name f.stamp f.seq g)) finals ++ f ∷ []

-- What happens if a call fails, and if it does not.
abbrev pub unless {ℓ} : {A : Type ℓ} → Option Err → (Err → A) → A → A
unless none failed done = done
unless (some e) failed done = failed e

-- The end of compress, from the removal of the plain file on.
unfoldable pub drop_plain : Outside → ℕ → Final → List ℕ → Final × Option Err
drop_plain out n f z =
    unless (out.fails n remove_plain) (λ e. (f, some e)) (record f { form = packed z }, none)

-- os.Remove(tmp) after a failure, whose own error is dropped.
unfoldable pub failed_pack : Outside → ℕ → Final → Err → Final × Option Err
failed_pack out n f e =
    unless (out.fails n remove_temporary) (λ e'. (record f { temporary = true }, some e))
      (record f { temporary = false }, some e)

-- compress, for the `n`-th file of an operation; its error only goes to the log.
unfoldable pub compress_form : Outside → ℕ → Final → Form → Final × Option Err
unfolding drop_plain failed_pack
compress_form out n f (packed z) = (f, none)
compress_form out n f (both bytes z) = drop_plain out n f z
compress_form out n f (plain bytes) = unless (out.fails n pack_file) (failed_pack out n f) (
    unless (out.fails n rename_packed) (failed_pack out n f) (
      let g = record f { form = both bytes (out.pack bytes); temporary = false } in
      unless (out.fails n sync_dir) (λ e. (g, some e)) (drop_plain out n g (out.pack bytes))))

unfoldable pub compress_file : Outside → ℕ → Final → Final × Option Err
unfolding compress_form
compress_file out n f = compress_form out n f f.form

-- What cutPartialLine leaves of a file, and its error.
unfoldable pub cut_partial : Outside → List ℕ → List ℕ × Option Err
unfolding last_newline
cut_partial out [] = ([], none)
cut_partial out (b ∷ bs) =
    unless (out.fails 0 open_cut) (λ e. (b ∷ bs, some e))
      (unless (out.fails 0 read_cut) (λ e. (b ∷ bs, some e))
        (if last_newline (b ∷ bs) == length (b ∷ bs)
          then (b ∷ bs, none)
          else unless (out.fails 0 truncate_cut) (λ e. (b ∷ bs, some e))
              (take (last_newline (b ∷ bs)) (b ∷ bs), out.fails 0 sync_cut)))

-- ===== src/Archive/Tests.antt =====
-- Runs of a store whose calls fail, and the theorems at these inputs.
use antwatcher.Prelude.{
  ℕ, ◌≡◌, refl, inl, Bool, true, false, none, some, List, [], ◌∷◌, ◌++◌, arith, if◌then◌else◌,
}
use antwatcher.Prelude.Errors.{message, ok}
use antwatcher.Archive.Bytes.{IsLine, tail_of, tail_after, last_end, last_newline}
use antwatcher.Archive.Bytes.Chunks.{last_newline_lem}
use antwatcher.Archive.Files.{Call, truncate_line, Outside, Options, Final, both}
use antwatcher.Archive.Store.{
  Store, append, close, open_store, append_line, ready_file, make_room, should_rotate, rotate_if,
  write_file, write_line, abandon, cut_back,
}
use antwatcher.Archive.Log.{log}
use antwatcher.Archive.Writing.{IsValid, IsAppended}
use antwatcher.Archive.Appending.{append-IsAppended}
use antwatcher.Archive.Reopening.{IsKept, IsShut, left, open_store-IsKept, close-IsShut}
use antwatcher.Archive.Runs.{Runs, stopped, appended, restarted, IsGrown, Runs-IsGrown, is_acked}
use antwatcher.Archive.Joined.{append_joined}

-- "a\n" and "bc\n"
abbrev line_a : List ℕ
line_a = 97 ∷ 10 ∷ []

abbrev line_bc : List ℕ
line_bc = 98 ∷ 99 ∷ 10 ∷ []

line_a-IsLine : IsLine line_a
line_a-IsLine = record { inner = 97 ∷ []; all_inner = (refl, tt); ended = refl }

line_bc-IsLine : IsLine line_bc
line_bc-IsLine = record { inner = 98 ∷ 99 ∷ []; all_inner = (refl, (refl, tt)); ended = refl }

last_newline_lem_example : last_newline (97 ∷ 10 ∷ 98 ∷ []) ≡ last_end (97 ∷ 10 ∷ 98 ∷ [])
last_newline_lem_example = last_newline_lem (97 ∷ 10 ∷ 98 ∷ [])

-- Compression that puts a byte in front.
abbrev unpack : List ℕ → List ℕ
unpack [] = []
unpack (b ∷ bs) = bs

abbrev quiet : Outside
quiet = record {
  fails = λ n c. none;
  write = none;
  now = 100;
  first_time = λ bs. 5;
  pack = λ bs. 31 ∷ bs;
  missing = message "file does not exist";
}

-- A write that fails after one byte, which cannot be cut.
abbrev is_truncate : Call → Bool
is_truncate truncate_line = true
is_truncate _ = false

abbrev torn : Outside
torn = record quiet {
  fails = λ n c. if is_truncate c then some (message "input/output error") else none;
  write = some (1, message "no space left on device");
}

abbrev options : ℕ → Options
options every = record {
  dir = "/archive";
  path = "/archive/raw-current.jsonl.part";
  prefix = "raw";
  compress = "gzip";
  rotate_size = 1000;
  rotate_every = every;
}

-- One finalized file, whose compressed copy is beside it, and an open one of one line.
abbrev finals : List Final
finals = record { stamp = 3; seq = 1; form = both line_bc (31 ∷ line_bc); temporary = true } ∷ []

abbrev store : Store
store = record {
  file = some (record { size = 2; opened_at = 90; first_ts = 5 });
  part = some line_a;
  finals = finals;
  seq = 1;
  closed = false;
  close_err = none;
}

store-IsValid : IsValid unpack store
unfolding tail_after
store-IsValid = record { whole = (refl, tt); opened = (line_a, refl, (refl, inl refl)) }

append-IsAppended_example :
    IsAppended unpack store line_bc (append (options 60) torn store none (ok line_bc) 7)
append-IsAppended_example =
    append-IsAppended unpack torn (options 60) (λ bs. refl) store none line_bc 7 (omega arith)
      store-IsValid line_bc-IsLine

open_store-IsKept_example :
    IsKept unpack
      (left unpack (options 60) quiet (λ bs. refl) (some (97 ∷ 10 ∷ 98 ∷ [])) finals)
      (open_store (options 60) quiet (some (97 ∷ 10 ∷ 98 ∷ [])) finals)
open_store-IsKept_example =
    open_store-IsKept unpack (options 60) quiet (λ bs. refl) (some (97 ∷ 10 ∷ 98 ∷ [])) finals
      (refl, tt)

close-IsShut_example :
    IsShut unpack (options 60) quiet (λ bs. refl) store (close (options 60) quiet store)
close-IsShut_example = close-IsShut unpack (options 60) quiet (λ bs. refl) store store-IsValid

-- A write that tears, a restart, and an append.
abbrev torn_store : Store
torn_store = (append (options 60) torn store none (ok line_bc) 7).0

abbrev restarted_store : Store
restarted_store = (open_store (options 60) quiet torn_store.part torn_store.finals).0

abbrev last_store : Store
last_store = (append (options 60) quiet restarted_store none (ok line_a) 8).0

abbrev given : List (List ℕ × Bool)
given =
    (line_bc, is_acked (append (options 60) torn store none (ok line_bc) 7).1)
    ∷ (line_a, is_acked (append (options 60) quiet restarted_store none (ok line_a) 8).1)
    ∷ []

run : Runs unpack (options 60) store given last_store
run =
    appended torn store last_store none line_bc 7
      ((line_a, is_acked (append (options 60) quiet restarted_store none (ok line_a) 8).1) ∷ [])
      (λ bs. refl) line_bc-IsLine
      (restarted quiet torn_store last_store
        ((line_a, is_acked (append (options 60) quiet restarted_store none (ok line_a) 8).1) ∷ [])
        (λ bs. refl)
        (appended quiet restarted_store last_store none line_a 8 [] (λ bs. refl) line_a-IsLine
          (stopped last_store)))

Runs-IsGrown_example : IsGrown unpack (options 60) store given last_store
Runs-IsGrown_example =
    Runs-IsGrown unpack (options 60) store last_store given (omega arith) store-IsValid run

-- The open file that the torn write leaves.
abbrev torn_file : Store
torn_file = record store { file = none; part = some (97 ∷ 10 ∷ 98 ∷ []) }

torn_write :
    ((append (options 0) torn store none (ok line_bc) 7).0.file ≡ none)
    × ((append (options 0) torn store none (ok line_bc) 7).0.part ≡ torn_file.part)
unfolding append append_line ready_file make_room should_rotate rotate_if write_file write_line
    abandon cut_back
torn_write = (refl, refl)

append_joined_example :
    ((append (options 0) quiet torn_file none (ok line_bc) 8).1 ≡ none)
    × (log unpack (append (options 0) quiet torn_file none (ok line_bc) 8).0
        ≡ log unpack torn_file ++ (tail_of (97 ∷ 10 ∷ 98 ∷ []) ++ line_bc) ∷ [])
append_joined_example =
    append_joined unpack (options 0) quiet torn_file (97 ∷ 10 ∷ 98 ∷ []) line_bc 8
      (record { calls = λ n c. refl; write = refl }) refl refl refl refl (omega arith)
      line_bc-IsLine

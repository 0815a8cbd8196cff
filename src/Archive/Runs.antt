-- ===== src/Archive/Runs.antt =====
-- A store through any sequence of appends, closings and restarts is a log that only grows at its end.
use antwatcher.Prelude.{
  ℕ, ◌≡◌, ◌<◌, refl, sym, ◌∙◌, Bool, true, false, Option, none, some, List, [], ◌∷◌, ◌++◌,
  append_assoc, append-nil, inl, inr,
}
use antwatcher.Prelude.Errors.{Err, ok}
use antwatcher.Archive.Bytes.{IsLine}
use antwatcher.Archive.Files.{Outside, Options}
use antwatcher.Archive.Store.{Store, Done, append, close, open_store}
use antwatcher.Archive.Log.{log}
use antwatcher.Archive.Writing.{IsValid, IsAppended}
use antwatcher.Archive.Appending.{append-IsAppended}
use antwatcher.Archive.Reopening.{open_store-IsKept, close-IsShut}

-- Whether Append acknowledged the line.
abbrev pub is_acked : Option Err → Bool
is_acked none = true
is_acked (some e) = false

module _ (unpack : List ℕ → List ℕ) (opts : Options) where
  abbrev pub IsCodec : Outside → Type 0
  IsCodec out = (bytes : List ℕ) → unpack (out.pack bytes) ≡ bytes

  -- The runs of a store, with the lines given to Append and whether it acknowledged them; each operation has its
  -- own surroundings, in which any call may fail.
  pub data Runs : Store → List (List ℕ × Bool) → Store → Type 0 where
    stopped : (s : Store) → Runs s [] s
    appended :
        (out : Outside) (s t : Store) (ctx_err : Option Err) (line : List ℕ) (received : ℕ)
        (given : List (List ℕ × Bool))
        → IsCodec out
        → IsLine line
        → Runs (append opts out s ctx_err (ok line) received).0 given t
        → Runs s ((line, is_acked (append opts out s ctx_err (ok line) received).1) ∷ given) t
    closed_once :
        (out : Outside) (s t : Store) (given : List (List ℕ × Bool))
        → IsCodec out
        → Runs (close opts out s).0 given t
        → Runs s given t
    -- the process ends, whatever it was doing, and a new one opens the store on the files
    restarted :
        (out : Outside) (s t : Store) (given : List (List ℕ × Bool))
        → IsCodec out
        → Runs (open_store opts out s.part s.finals).0 given t
        → Runs s given t

-- The lines that were acknowledged, in order, and some of those that were not.
pub data Picks : List (List ℕ × Bool) → List (List ℕ) → Type 0 where
  ended : Picks [] []
  kept :
      (line : List ℕ) (acked : Bool) (given : List (List ℕ × Bool)) (lines : List (List ℕ))
      → Picks given lines
      → Picks ((line, acked) ∷ given) (line ∷ lines)
  lost :
      (line : List ℕ) (given : List (List ℕ × Bool)) (lines : List (List ℕ))
      → Picks given lines
      → Picks ((line, false) ∷ given) lines

module _ (unpack : List ℕ → List ℕ) (opts : Options) where
  -- What a run leaves.
  abbrev pub IsGrown : Store → List (List ℕ × Bool) → Store → Type 0
  IsGrown s given t =
      (lines : List (List ℕ)) × Picks given lines × (log unpack t ≡ log unpack s ++ lines)

  picked :
      (s t : Store) (line : List ℕ) (given : List (List ℕ × Bool)) (d : Done)
      → IsAppended unpack s line d
      → IsGrown d.0 given t
      → IsGrown s ((line, is_acked d.1) ∷ given) t
  picked s t line given (d, none) a (lines, p, e) = (
    line ∷ lines,
    kept line true given lines p,
    e ∙ rw (a.acked refl) (append_assoc (log unpack s) (line ∷ []) lines),
  )
  picked s t line given (d, some x) a (lines, p, e) = elim (a.kept) [
    | inl h ↦ (lines, lost line given lines p, e ∙ rw h refl)
    | inr h ↦ (
      line ∷ lines,
      kept line false given lines p,
      e ∙ rw h (append_assoc (log unpack s) (line ∷ []) lines),
    )
  ]

  -- Where the age rotates files (rotate_every is not 0) and gzip can be undone: from a store whose
  -- memory agrees with its files, through any sequence of appends, closings and restarts, with any
  -- call failing anywhere, the records of the store are those it had, then every line that Append
  -- acknowledged, in order and unbroken, with some of the lines between that it refused.
  pub Runs-IsGrown :
      (s t : Store) (given : List (List ℕ × Bool))
      → 0 < opts.rotate_every
      → IsValid unpack s
      → Runs unpack opts s given t
      → IsGrown s given t
  Runs-IsGrown _ _ _ every v (stopped s) = ([], ended, sym (append-nil (log unpack s)))
  Runs-IsGrown _ _ _ every v (appended out s t ctx_err line received rest law l run) =
      let a = append-IsAppended unpack out opts law s ctx_err line received every v l in
      picked s t line rest (append opts out s ctx_err (ok line) received) a
        (Runs-IsGrown (append opts out s ctx_err (ok line) received).0 t rest every a.valid run)
  Runs-IsGrown _ _ _ every v (closed_once out s t given law run) =
      let c = close-IsShut unpack opts out law s v in
      let (lines, p, e) = Runs-IsGrown (close opts out s).0 t given every c.valid run in
      (lines, p, e ∙ rw (c.same) refl)
  Runs-IsGrown _ _ _ every v (restarted out s t given law run) =
      let c = open_store-IsKept unpack opts out law s.part s.finals v.whole in
      let (lines, p, e) =
        Runs-IsGrown (open_store opts out s.part s.finals).0 t given every c.valid run in
      (lines, p, e ∙ rw (c.same) refl)

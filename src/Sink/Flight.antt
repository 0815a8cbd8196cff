-- ===== src/Sink/Flight.antt =====
-- internal/sink/singleflight.go: SingleFlight, as steps of its callers. Each section under the mutex and
-- each wait is one step; a channel `done` is the number of its attempt, and open is what a step says.
pub mod Invariant
pub mod Progress
pub mod Tests
use antwatcher.Prelude.{
  ℕ, suc, ◌+◌, ◌<◌, ◌≡◌, ◌≢◌, Bool, true, false, Option, none, some, ◌==◌, if◌then◌else◌,
}
use antwatcher.Prelude.Errors.{Sentinel}

-- Where a caller stands: not in a call, running open in the attempt it owns, or waiting for an attempt in Do or in Peek.
pub data Caller : Type 0 where
  idle : Caller
  opening : ℕ → Caller
  waiting : ℕ → Caller
  peeking : ℕ → Caller

-- The fields of SingleFlight with its callers: the value that is ready, the attempt in flight, how many attempts
-- were started, and how many of them had open return without an error.
pub record Flight {ℓ} (T : Type ℓ) : Type ℓ where
  pub value : Option T
  pub call : Option ℕ
  pub started : ℕ
  pub opened : ℕ
  pub callers : ℕ → Caller

unfoldable pub put : (ℕ → Caller) → ℕ → Caller → ℕ → Caller
put callers c state d = if c == d then state else callers d

unfoldable pub move {ℓ} : {T : Type ℓ} → ℕ → Caller → Flight T → Flight T
unfolding put
move c state f = record f { callers = put f.callers c state }

-- How open ends: a value, an error, or a panic.
pub data Ending {ℓ} (T : Type ℓ) : Type ℓ where
  opened : T → Ending T
  failed : Ending T
  panicked : Ending T

abbrev pub peek_call : Option ℕ → Caller
peek_call (some k) = peeking k
peek_call none = idle

-- A channel is closed once its attempt is not the one in flight.
abbrev pub is_closed : ℕ → Option ℕ → Bool
is_closed k none = true
is_closed k (some j) = if k == j then false else true

module _ {ℓ} {T : Type ℓ} where
  -- The first section of Do behind the test for a ready value: join the attempt in flight, or start one.
  unfoldable pub join_or_start : Option ℕ → ℕ → Flight T → Flight T
  unfolding move
  join_or_start (some k) c f = move c (waiting k) f
  join_or_start none c f =
      let g = move c (opening f.started) f in
      record g { call = some f.started; started = f.started + 1 }

  -- The first section of Do; a caller whose value is ready returns it and is idle again.
  unfoldable pub enter_found : Option T → ℕ → Flight T → Flight T
  unfolding move join_or_start
  enter_found (some v) c f = move c idle f
  enter_found none c f = join_or_start f.call c f

  unfoldable pub enter : ℕ → Flight T → Flight T
  unfolding enter_found
  enter c f = enter_found f.value c f

  -- The section that attempt defers, with the close of the channel.
  unfoldable pub finish : ℕ → Ending T → Flight T → Flight T
  unfolding move
  finish c (opened v) f =
      let g = move c idle f in record g { call = none; value = some v; opened = f.opened + 1 }
  finish c failed f = let g = move c idle f in record g { call = none }
  finish c panicked f = let g = move c idle f in record g { call = none }

  -- The first section of Peek.
  abbrev pub peek_found : Option T → Option ℕ → Caller
  peek_found (some v) call = idle
  peek_found none call = peek_call call

  unfoldable pub peek : ℕ → Flight T → Flight T
  unfolding move
  peek c f = move c (peek_found f.value f.call) f

  -- Ready
  unfoldable pub ready : Flight T → Option T
  ready f = f.value

  abbrev pub empty : Flight T
  empty = record { value = none; call = none; started = 0; opened = 0; callers = λ c. idle }

  -- The steps of the callers.
  pub data Step : Flight T → Flight T → Type ℓ where
    enters : (c : ℕ) (f : Flight T) → f.callers c ≡ idle → Step f (enter c f)
    finishes :
        (c k : ℕ) (e : Ending T) (f : Flight T) → f.callers c ≡ opening k → Step f (finish c e f)
    -- the wait of Do ends with the attempt, and the loop starts over
    woken :
        (c k : ℕ) (f : Flight T)
        → f.callers c ≡ waiting k
        → is_closed k f.call ≡ true
        → Step f (enter c f)
    -- the wait of Do ends with the context
    cancelled : (c k : ℕ) (f : Flight T) → f.callers c ≡ waiting k → Step f (move c idle f)
    peeks : (c : ℕ) (f : Flight T) → f.callers c ≡ idle → Step f (peek c f)
    peek_woken :
        (c k : ℕ) (f : Flight T)
        → f.callers c ≡ peeking k
        → is_closed k f.call ≡ true
        → Step f (peek c f)
    peek_cancelled : (c k : ℕ) (f : Flight T) → f.callers c ≡ peeking k → Step f (move c idle f)

  -- What the callers can reach from the fresh SingleFlight.
  pub data Reachable : Flight T → Type ℓ where
    fresh : Reachable empty
    after : (f g : Flight T) → Reachable f → Step f g → Reachable g

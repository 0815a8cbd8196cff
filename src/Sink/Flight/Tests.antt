-- ===== src/Sink/Flight/Tests.antt =====
-- Two callers of a SingleFlight: the first one's attempt fails while the second one waits.
use antwatcher.Prelude.{ℕ, ◌≡◌, ◌⊎◌, refl}
use antwatcher.Sink.Flight.{
  opening, waiting, Flight, Ending, Step, put, enter, finish, failed, empty, enters, Reachable,
  fresh, after,
}
use antwatcher.Sink.Flight.Invariant.{IsSound, Reachable-IsSound}
use antwatcher.Sink.Flight.Progress.{IsWoken, waiting_progress}

abbrev started : Flight ℕ
started = enter 0 empty

abbrev joined : Flight ℕ
joined = enter 1 started

started-Reachable : Reachable started
started-Reachable = after empty started fresh (enters 0 empty refl)

joined-Reachable : Reachable joined
unfolding enter put
joined-Reachable = after started joined started-Reachable (enters 1 started refl)

joined_waits : joined.callers 1 ≡ waiting 0
unfolding enter put
joined_waits = refl

Reachable-IsSound_example : IsSound joined
Reachable-IsSound_example = Reachable-IsSound joined joined-Reachable

waiting_progress_example :
    IsWoken 1 0 joined
    ⊎ ((d : ℕ) × (joined.callers d ≡ opening 0)
        × ((e : Ending ℕ) → Step joined (finish d e joined) × IsWoken 1 0 (finish d e joined)))
waiting_progress_example = waiting_progress joined 1 0 joined-Reachable joined_waits

-- The failed attempt is not kept: the second caller starts one of its own.
retried : (enter 1 (finish 0 failed joined)).callers 1 ≡ opening 1
unfolding enter finish put
retried = refl

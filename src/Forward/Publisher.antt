-- ===== src/Forward/Publisher.antt =====
-- internal/sink/forward/drivers/bus/driver.go: the Publisher, whose target bus is opened through a SingleFlight and closed
-- by Close. A section under one mutex is one step, and so is the opening and each closing of a bus; the callers and
-- Close step in any order.
pub mod Frames
pub mod Leaks
pub mod Tight
use antwatcher.Prelude.{ℕ, suc, ◌+◌, ◌-◌, ◌≡◌, refl, Bool, true, false, Option, none, some, is_some}
use antwatcher.Sink.Flight.{
  Caller, idle, opening, waiting, Flight, is_closed, opened, failed, move, enter, finish, empty,
}

-- How far Close is: not called, past the section that sets closed, past a Peek that found a bus, or returned.
pub data Closing : Type 0 where
  active closing dropping gone : Closing

-- p.closed
abbrev pub is_shut : Closing → Bool
is_shut active = false
is_shut _ = true

-- How far a caller is that the registry has opened a bus for: before it reads closed, after it read false, or after it
-- read true.
pub data Stage : Type 0 where
  unchecked passed doomed : Stage

-- A Publisher: the SingleFlight, the caller for which a bus is open that the SingleFlight does not have yet, and the
-- number of buses that are open.
pub record Publisher : Type 0 where
  pub flight : Flight ℕ
  pub holder : Option (ℕ × Stage)
  pub live : ℕ
  pub phase : Closing

-- registry.Open returns a bus.
unfoldable pub bus_made : ℕ → Publisher → Publisher
bus_made c p = record p { holder = some (c, unchecked); live = p.live + 1 }

-- The section that reads closed after that.
unfoldable pub check_closed : ℕ → Publisher → Closing → Publisher
check_closed c p active = record p { holder = some (c, passed) }
check_closed c p closing = record p { holder = some (c, doomed) }
check_closed c p dropping = record p { holder = some (c, doomed) }
check_closed c p gone = record p { holder = some (c, doomed) }

-- The caller that read true closes its bus, and its open ends with ErrClosed.
unfoldable pub drop_bus : ℕ → Publisher → Publisher
drop_bus c p = record p { flight = finish c failed p.flight; holder = none; live = p.live - 1 }

-- The caller that read false gives its bus to the SingleFlight.
unfoldable pub give_bus : ℕ → ℕ → Publisher → Publisher
give_bus c bus p = record p { flight = finish c (opened bus) p.flight; holder = none }

-- The first section of Close.
unfoldable pub start_close : Publisher → Closing → Publisher
start_close p active = record p { phase = closing }
start_close p closing = p
start_close p dropping = p
start_close p gone = p

-- Close by what Peek found: it returns, or has a bus to close.
unfoldable pub peeked : Publisher → Option ℕ → Publisher
peeked p none = record p { phase = gone }
peeked p (some bus) = record p { phase = dropping }

-- Close closes the bus that Peek found, and returns.
unfoldable pub end_close : Publisher → Publisher
end_close p = record p { phase = gone; live = p.live - 1 }

-- Opened
unfoldable pub is_opened : Publisher → Bool
is_opened p = elim (is_shut p.phase) [ true ↦ false | false ↦ is_some (p.flight.value) ]

abbrev pub new_publisher : Publisher
new_publisher = record { flight = empty; holder = none; live = 0; phase = active }

pub data Step : Publisher → Publisher → Type 0 where
  -- Publish calls Do; the test of closed before it may be out of date by now
  enters :
      (c : ℕ) (p : Publisher)
      → p.flight.callers c ≡ idle
      → Step p (record p { flight = enter c p.flight })
  woken :
      (c k : ℕ) (p : Publisher)
      → p.flight.callers c ≡ waiting k
      → is_closed k p.flight.call ≡ true
      → Step p (record p { flight = enter c p.flight })
  cancelled :
      (c k : ℕ) (p : Publisher)
      → p.flight.callers c ≡ waiting k
      → Step p (record p { flight = move c idle p.flight })
  open_failed :
      (c k : ℕ) (p : Publisher)
      → p.flight.callers c ≡ opening k
      → p.holder ≡ none
      → Step p (record p { flight = finish c failed p.flight })
  open_made :
      (c k : ℕ) (p : Publisher)
      → p.flight.callers c ≡ opening k
      → p.holder ≡ none
      → Step p (bus_made c p)
  closed_read :
      (c : ℕ) (p : Publisher) → p.holder ≡ some (c, unchecked) → Step p (check_closed c p p.phase)
  bus_dropped : (c : ℕ) (p : Publisher) → p.holder ≡ some (c, doomed) → Step p (drop_bus c p)
  open_returned :
      (c bus : ℕ) (p : Publisher) → p.holder ≡ some (c, passed) → Step p (give_bus c bus p)
  close_started : (p : Publisher) → Step p (start_close p p.phase)
  -- Peek returns where nothing is in flight
  peek_returned :
      (p : Publisher) → p.phase ≡ closing → p.flight.call ≡ none → Step p (peeked p p.flight.value)
  close_ended : (p : Publisher) → p.phase ≡ dropping → Step p (end_close p)

pub data Reachable : Publisher → Type 0 where
  fresh : Reachable new_publisher
  after : (p q : Publisher) → Reachable p → Step p q → Reachable q

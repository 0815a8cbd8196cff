-- ===== src/Forward/Publisher/Tight.antt =====
-- What ties the open buses of a Publisher to its callers, and the steps of a caller that has opened none or just one.
pub mod Steps
use antwatcher.Prelude.{
  ℕ, ◌+◌, ◌-◌, ◌≤◌, ◌≡◌, ◌≢◌, ◌⊎◌, refl, ap, sym, ◌∙◌, Bool, true, false, Option, none, some, arith,
  ◌==◌, is_some, Bool-cases, inl, inr,
}
use antwatcher.Sink.Flight.{
  Caller, idle, opening, Flight, opened, failed, move, enter, finish, finishes, woken, cancelled,
  enters, empty,
}
use antwatcher.Sink.Flight.{fresh as fresh_flight}
use antwatcher.Sink.Flight.Invariant.{attempt_of, IsSound, step-IsSound, Reachable-IsSound}
use antwatcher.Forward.Publisher.Frames.{
  move_other, enter_other, enter_value, moved_value, failed_value, opened_value,
}
use antwatcher.Forward.Publisher.{
  Closing, active, closing, dropping, gone, Stage, unchecked, passed, doomed, Publisher, bus_made,
  check_closed, drop_bus, give_bus, start_close, peeked, end_close, Step, open_failed, open_made,
  closed_read, bus_dropped, open_returned, close_started, peek_returned, close_ended, Reachable,
  fresh, after,
}

-- The buses that a ready value stands for: it is closed once Close has returned.
abbrev pub kept : Option ℕ → Closing → ℕ
kept none phase = 0
kept (some bus) active = 1
kept (some bus) closing = 1
kept (some bus) dropping = 1
kept (some bus) gone = 0

abbrev pub held_buses : Option (ℕ × Stage) → ℕ
held_buses none = 0
held_buses (some h) = 1

-- Peek has returned.
abbrev pub is_late : Closing → Bool
is_late active = false
is_late closing = false
is_late dropping = true
is_late gone = true

pub record IsTight (p : Publisher) : Type 0 where
  pub sound : IsSound p.flight
  pub held :
      (c : ℕ) (s : Stage) → p.holder ≡ some (c, s) → (k : ℕ) × (p.flight.callers c ≡ opening k)
  pub counted : p.live ≡ held_buses p.holder + kept p.flight.value p.phase
  pub barred : is_late p.phase ≡ true → (c : ℕ) → p.holder ≢ some (c, passed)
  pub found : p.phase ≡ dropping → is_some p.flight.value ≡ true

-- A step of a caller that has no bus.
pub other-IsTight :
    (p : Publisher) (c : ℕ) (g : Flight ℕ)
    → IsTight p
    → ((k : ℕ) → p.flight.callers c ≢ opening k)
    → IsSound g
    → g.value ≡ p.flight.value
    → ((d : ℕ) → (c == d) ≡ false → g.callers d ≡ p.flight.callers d)
    → IsTight (record p { flight = g })
other-IsTight p c g v idle_caller sound value others = record {
  sound = sound;
  held = λ d s h. still_held d (v.held d s h);
  counted = rw value v.counted;
  barred = v.barred;
  found = rw value v.found;
}
  where
    still_held :
        (d : ℕ) → (k : ℕ) × (p.flight.callers d ≡ opening k) → (k : ℕ) × (g.callers d ≡ opening k)
    still_held d (k, e) = elim (Bool-cases (c == d)) [
      | inl same ↦
          let s : c ≡ d = ground arith in absurd (idle_caller k (ap p.flight.callers s ∙ e))
      | inr other ↦ (k, others d other ∙ e)
    ]

-- A step where no caller has a bus.
pub unheld-IsTight :
    (p : Publisher) (g : Flight ℕ)
    → IsTight p
    → p.holder ≡ none
    → IsSound g
    → g.value ≡ p.flight.value
    → IsTight (record p { flight = g })
unheld-IsTight p g v unheld sound value = record {
  sound = sound;
  held = λ d s h. absurd (cc);
  counted = rw value v.counted;
  barred = v.barred;
  found = rw value v.found;
}

pub bus_made-IsTight :
    (p : Publisher) (c k : ℕ)
    → IsTight p
    → p.flight.callers c ≡ opening k
    → p.holder ≡ none
    → IsTight (bus_made c p)
unfolding bus_made
bus_made-IsTight p c k v caller unheld = record {
  sound = v.sound;
  held = λ d s h. (k, ap p.flight.callers (cc h) ∙ caller);
  counted =
      let before : p.live ≡ held_buses none + kept p.flight.value p.phase =
        v.counted ∙ ap (λ o. held_buses o + kept p.flight.value p.phase) unheld in
      omega arith;
  barred = λ late d h. cc;
  found = v.found;
}

-- The caller that has a bus reads closed: it is `passed` only where Peek has not returned.
staged-IsTight :
    (p : Publisher) (c : ℕ) (s t : Stage)
    → IsTight p
    → p.holder ≡ some (c, s)
    → (is_late p.phase ≡ true → t ≢ passed)
    → IsTight (record p { holder = some (c, t) })
staged-IsTight p c s t v holds safe = record {
  sound = v.sound;
  held = λ d u h. let (k, caller) = v.held c s holds in (k, ap p.flight.callers (cc h) ∙ caller);
  counted = v.counted ∙ ap (λ o. held_buses o + kept p.flight.value p.phase) holds;
  barred = λ late d h. safe late (cc h);
  found = v.found;
}

pub check_closed-IsTight :
    (p : Publisher) (c : ℕ) (phase : Closing)
    → p.phase ≡ phase
    → IsTight p
    → p.holder ≡ some (c, unchecked)
    → IsTight (check_closed c p phase)
unfolding check_closed
check_closed-IsTight p c active e v h =
    staged-IsTight p c unchecked passed v h (λ late. absurd (cc (sym (ap is_late e) ∙ late)))
check_closed-IsTight p c closing e v h = staged-IsTight p c unchecked doomed v h (λ late x. cc)
check_closed-IsTight p c dropping e v h = staged-IsTight p c unchecked doomed v h (λ late x. cc)
check_closed-IsTight p c gone e v h = staged-IsTight p c unchecked doomed v h (λ late x. cc)

-- A caller in an attempt, and what is in flight then.
pub call_of : (f : Flight ℕ) (c k : ℕ) → IsSound f → f.callers c ≡ opening k → f.call ≡ some k
call_of f c k v h = v.in_flight c k (ap attempt_of h)

value_of :
    (f : Flight ℕ) (k : ℕ) (o : Option ℕ) → f.value ≡ o → IsSound f → f.call ≡ some k → o ≡ none
value_of f k none e v h = refl
value_of f k (some bus) e v h = absurd (cc (sym (v.settled (ap is_some e)) ∙ h))

-- While some caller has a bus, that bus is the only one.
pub one_bus :
    (p : Publisher) (c k : ℕ) (s : Stage)
    → IsTight p
    → p.holder ≡ some (c, s)
    → p.flight.callers c ≡ opening k
    → (p.flight.value ≡ none) × (p.live ≡ 1)
one_bus p c k s v holds caller =
    let unready : p.flight.value ≡ none =
      value_of p.flight k p.flight.value refl v.sound (call_of p.flight c k v.sound caller) in
    let one : p.live ≡ 1 + 0 =
      v.counted
      ∙ ap (λ o. held_buses o + kept p.flight.value p.phase) holds
      ∙ ap (λ o. 1 + kept o p.phase) unready in
    (unready, one)

pub not_found : (o : Option ℕ) → o ≡ none → is_some o ≢ true
not_found none e h = cc
not_found (some bus) e h = cc

-- ===== src/Forward/Publisher/Leaks.antt =====
-- No bus is left open by a Publisher.
use antwatcher.Prelude.{
  ℕ, ◌+◌, ◌≤◌, ◌≡◌, ◌≢◌, ◌⊎◌, refl, ap, sym, ◌∙◌, Option, none, some, arith, inl, inr,
}
use antwatcher.Sink.Flight.{
  Caller, idle, opening, failed, move, enter, finish, finishes, woken, cancelled, enters, empty,
}
use antwatcher.Sink.Flight.{fresh as fresh_flight}
use antwatcher.Sink.Flight.Invariant.{step-IsSound, Reachable-IsSound}
use antwatcher.Forward.Publisher.Frames.{
  move_other, enter_other, enter_value, moved_value, failed_value,
}
use antwatcher.Forward.Publisher.{
  Closing, active, closing, dropping, gone, Stage, unchecked, passed, doomed, Publisher, Step,
  open_failed, open_made, closed_read, bus_dropped, open_returned, close_started, peek_returned,
  close_ended, Reachable, fresh, after,
}
use antwatcher.Forward.Publisher.Tight.{
  kept, held_buses, is_late, IsTight, other-IsTight, unheld-IsTight, bus_made-IsTight,
  check_closed-IsTight, call_of, one_bus,
}
use antwatcher.Forward.Publisher.Tight.Steps.{
  drop_bus-IsTight, give_bus-IsTight, start_close-IsTight, unheld, peeked-IsTight, kept_gone,
  end_close-IsTight,
}

caller_is : (s t : Caller) (k : ℕ) → s ≡ t → (t ≢ opening k) → s ≢ opening k
caller_is s t k e h x = h (sym e ∙ x)

step-IsTight : (p q : Publisher) → Step p q → IsTight p → IsTight q
step-IsTight p q (Step.enters c _ h) v =
    other-IsTight p c (enter c p.flight) v (λ k. caller_is _ _ k h (λ x. cc))
      (step-IsSound p.flight _ (enters c p.flight h) v.sound) (enter_value p.flight c)
      (enter_other p.flight c)
step-IsTight p q (Step.woken c j _ h shut) v =
    other-IsTight p c (enter c p.flight) v (λ k. caller_is _ _ k h (λ x. cc))
      (step-IsSound p.flight _ (woken c j p.flight h shut) v.sound) (enter_value p.flight c)
      (enter_other p.flight c)
step-IsTight p q (Step.cancelled c j _ h) v =
    other-IsTight p c (move c idle p.flight) v (λ k. caller_is _ _ k h (λ x. cc))
      (step-IsSound p.flight _ (cancelled c j p.flight h) v.sound) (moved_value p.flight c idle)
      (move_other p.flight c idle)
step-IsTight p q (open_failed c k _ h free) v =
    unheld-IsTight p (finish c failed p.flight) v free
      (step-IsSound p.flight _ (finishes c k failed p.flight h) v.sound) (failed_value p.flight c)
step-IsTight p q (open_made c k _ h free) v = bus_made-IsTight p c k v h free
step-IsTight p q (closed_read c _ h) v = check_closed-IsTight p c p.phase refl v h
step-IsTight p q (bus_dropped c _ h) v =
    let (k, caller) = v.held c doomed h in drop_bus-IsTight p c k v h caller
step-IsTight p q (open_returned c bus _ h) v =
    let (k, caller) = v.held c passed h in give_bus-IsTight p c bus k v h caller
step-IsTight p q (close_started _) v = start_close-IsTight p p.phase refl v
step-IsTight p q (peek_returned _ h free) v =
    peeked-IsTight p p.flight.value refl h (unheld p p.holder refl v free) v
step-IsTight p q (close_ended _ h) v = end_close-IsTight p h v

Reachable-IsTight : (p : Publisher) → Reachable p → IsTight p
Reachable-IsTight p fresh = record {
  sound = Reachable-IsSound empty fresh_flight;
  held = λ c s h. absurd (cc);
  counted = refl;
  barred = λ late. absurd (cc);
  found = λ h. absurd (cc);
}
Reachable-IsTight p (after q _ r s) = step-IsTight q p s (Reachable-IsTight q r)

kept_le : (o : Option ℕ) (phase : Closing) → kept o phase ≤ 1
kept_le none phase = omega arith
kept_le (some bus) active = omega arith
kept_le (some bus) closing = omega arith
kept_le (some bus) dropping = omega arith
kept_le (some bus) gone = omega arith

-- A caller that has opened a bus, which it is going to close.
abbrev pub IsLate : Publisher → ℕ → Type 0
IsLate p c =
    ((k : ℕ) × (p.flight.callers c ≡ opening k))
    × ((p.holder ≡ some (c, unchecked)) ⊎ (p.holder ≡ some (c, doomed)))

-- What is open once Close has returned.
abbrev pub IsShut : Publisher → Type 0
IsShut p = (p.flight.call ≡ none → p.live ≡ 0) × ((p.live ≡ 0) ⊎ ((c : ℕ) × IsLate p c))

late_stage :
    (p : Publisher) (c : ℕ) (s : Stage)
    → p.holder ≡ some (c, s)
    → s ≢ passed
    → (p.holder ≡ some (c, unchecked)) ⊎ (p.holder ≡ some (c, doomed))
late_stage p c unchecked h n = inl h
late_stage p c passed h n = absurd (n refl)
late_stage p c doomed h n = inr h

live_of :
    (p : Publisher) (o : Option (ℕ × Stage))
    → p.holder ≡ o
    → IsTight p
    → (p.live ≤ 1) × (p.phase ≡ gone → IsShut p)
live_of p none e v =
    let all : p.live ≡ 0 + kept p.flight.value p.phase =
      v.counted ∙ ap (λ o. held_buses o + kept p.flight.value p.phase) e in
    (
      omega (arith, kept_le p.flight.value p.phase),
      λ h.
          let none_left : p.live ≡ 0 =
            all
            ∙ ap (λ x. 0 + kept p.flight.value x) h
            ∙ ap (λ n. 0 + n) (kept_gone p.flight.value) in
          (λ free. none_left, inl none_left),
    )
live_of p (some (c, s)) e v =
    let (k, caller) = v.held c s e in
    let (unready, one) = one_bus p c k s v e caller in
    (
      omega arith,
      λ h. (
        λ free. absurd (cc (sym (call_of p.flight c k v.sound caller) ∙ free)),
        inr (
          c,
          (
            (k, caller),
            late_stage p c s e (λ x. v.barred (ap is_late h) c (e ∙ ap (λ y. some (c, y)) x)),
          ),
        ),
      ),
    )

-- Whatever order the callers of Publish and Close step in, with failing opens and ended contexts: at most one bus is
-- open. Once the first Close has returned, none is open if no attempt to open is in flight; and if
-- one is open, the caller that opened it is still inside its open, and either reads closed
-- next or has read it and closes the bus next.
pub Reachable-live : (p : Publisher) → Reachable p → (p.live ≤ 1) × (p.phase ≡ gone → IsShut p)
Reachable-live p r = live_of p p.holder refl (Reachable-IsTight p r)

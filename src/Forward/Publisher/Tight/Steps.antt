-- ===== src/Forward/Publisher/Tight/Steps.antt =====
-- The steps in which a bus is closed or given to the SingleFlight, and those of Close.
use antwatcher.Prelude.{
  ℕ, ◌+◌, ◌-◌, ◌≡◌, refl, ap, sym, ◌∙◌, true, false, Option, none, some, arith, is_some, Bool-cases,
  inl, inr,
}
use antwatcher.Sink.Flight.{opening, opened, failed, finishes}
use antwatcher.Sink.Flight.Invariant.{step-IsSound}
use antwatcher.Forward.Publisher.Frames.{failed_value, opened_value}
use antwatcher.Forward.Publisher.{
  Closing, active, closing, dropping, gone, Stage, passed, doomed, Publisher, drop_bus, give_bus,
  start_close, peeked, end_close,
}
use antwatcher.Forward.Publisher.Tight.{
  kept, held_buses, is_late, IsTight, call_of, one_bus, not_found,
}

pub drop_bus-IsTight :
    (p : Publisher) (c k : ℕ)
    → IsTight p
    → p.holder ≡ some (c, doomed)
    → p.flight.callers c ≡ opening k
    → IsTight (drop_bus c p)
unfolding drop_bus
drop_bus-IsTight p c k v holds caller =
    let (unready, one) = one_bus p c k doomed v holds caller in
    record {
      sound = step-IsSound p.flight _ (finishes c k failed p.flight caller) v.sound;
      held = λ d s h. absurd (cc);
      counted =
          ap (λ n. n - 1) one
          ∙ sym (ap (λ o. 0 + kept o p.phase) (failed_value p.flight c ∙ unready));
      barred = λ late d h. cc;
      found = λ h. absurd (not_found p.flight.value unready (v.found h));
    }

kept_early : (bus : ℕ) (phase : Closing) → is_late phase ≡ false → kept (some bus) phase ≡ 1
kept_early bus active h = refl
kept_early bus closing h = refl
kept_early bus dropping h = refl
kept_early bus gone h = absurd (cc)

early : (p : Publisher) (c : ℕ) → IsTight p → p.holder ≡ some (c, passed) → is_late p.phase ≡ false
early p c v holds = elim (Bool-cases (is_late p.phase)) [
  | inl late ↦ absurd (v.barred late c holds)
  | inr other ↦ other
]

pub give_bus-IsTight :
    (p : Publisher) (c bus k : ℕ)
    → IsTight p
    → p.holder ≡ some (c, passed)
    → p.flight.callers c ≡ opening k
    → IsTight (give_bus c bus p)
unfolding give_bus
give_bus-IsTight p c bus k v holds caller =
    let (unready, one) = one_bus p c k passed v holds caller in
    record {
      sound = step-IsSound p.flight _ (finishes c k (opened bus) p.flight caller) v.sound;
      held = λ d s h. absurd (cc);
      counted =
          rw (opened_value p.flight c bus)
            (let stays = kept_early bus p.phase (early p c v holds) in omega arith);
      barred = λ late d h. cc;
      found = λ h. rw (opened_value p.flight c bus) refl;
    }

kept_closing : (o : Option ℕ) → kept o closing ≡ kept o active
kept_closing none = refl
kept_closing (some bus) = refl

pub start_close-IsTight :
    (p : Publisher) (phase : Closing) → p.phase ≡ phase → IsTight p → IsTight (start_close p phase)
unfolding start_close
start_close-IsTight p active e v = record {
  sound = v.sound;
  held = v.held;
  counted =
      v.counted
      ∙ ap (λ x. held_buses p.holder + kept p.flight.value x) e
      ∙ ap (λ n. held_buses p.holder + n) (sym (kept_closing p.flight.value));
  barred = λ late. absurd (cc);
  found = λ h. absurd (cc);
}
start_close-IsTight p closing e v = v
start_close-IsTight p dropping e v = v
start_close-IsTight p gone e v = v

pub unheld :
    (p : Publisher) (o : Option (ℕ × Stage))
    → p.holder ≡ o
    → IsTight p
    → p.flight.call ≡ none
    → o ≡ none
unheld p none e v h = refl
unheld p (some (c, s)) e v h =
    let (k, caller) = v.held c s e in absurd (cc (sym (call_of p.flight c k v.sound caller) ∙ h))

pub peeked-IsTight :
    (p : Publisher) (o : Option ℕ)
    → p.flight.value ≡ o
    → p.phase ≡ closing
    → p.holder ≡ none
    → IsTight p
    → IsTight (peeked p o)
unfolding peeked
peeked-IsTight p none e phase free v = record {
  sound = v.sound;
  held = v.held;
  counted =
      v.counted
      ∙ ap (λ o. held_buses p.holder + kept o p.phase) e
      ∙ ap (λ o. held_buses p.holder + kept o gone) (sym e);
  barred = λ late c h. cc;
  found = λ h. absurd (cc);
}
peeked-IsTight p (some bus) e phase free v = record {
  sound = v.sound;
  held = v.held;
  counted =
      v.counted
      ∙ ap (λ o. held_buses p.holder + kept o p.phase) e
      ∙ ap (λ x. held_buses p.holder + kept (some bus) x) phase
      ∙ ap (λ o. held_buses p.holder + kept o dropping) (sym e);
  barred = λ late c h. cc;
  found = λ h. ap is_some e;
}

pub kept_gone : (o : Option ℕ) → kept o gone ≡ 0
kept_gone none = refl
kept_gone (some bus) = refl

kept_dropping : (o : Option ℕ) → is_some o ≡ true → kept o dropping ≡ 1
kept_dropping none h = absurd (cc)
kept_dropping (some bus) h = refl

pub end_close-IsTight : (p : Publisher) → p.phase ≡ dropping → IsTight p → IsTight (end_close p)
unfolding end_close
end_close-IsTight p e v = record {
  sound = v.sound;
  held = v.held;
  counted =
      let all : p.live ≡ held_buses p.holder + kept p.flight.value dropping =
        v.counted ∙ ap (λ x. held_buses p.holder + kept p.flight.value x) e in
      omega (arith, all, kept_dropping p.flight.value (v.found e), kept_gone p.flight.value);
  barred = λ late. v.barred (ap is_late e);
  found = λ h. absurd (cc);
}

-- ===== src/Forward/Publisher/Frames.antt =====
-- What the steps of one caller of a SingleFlight leave to the others.
use antwatcher.Prelude.{ℕ, ◌≡◌, refl, false, Option, none, some, ◌==◌}
use antwatcher.Sink.Flight.{
  Caller, idle, opening, waiting, Flight, opened, failed, put, move, join_or_start, enter_found,
  enter, finish,
}

pub put_other :
    (callers : ℕ → Caller) (c d : ℕ) (s : Caller) → (c == d) ≡ false → put callers c s d ≡ callers d
unfolding put
put_other callers c d s h = rw h refl

module _ (f : Flight ℕ) (c : ℕ) where
  pub move_other : (s : Caller) (d : ℕ) → (c == d) ≡ false → (move c s f).callers d ≡ f.callers d
  unfolding move
  move_other s d h = put_other f.callers c d s h

  join_other :
      (o : Option ℕ) (d : ℕ) → (c == d) ≡ false → (join_or_start o c f).callers d ≡ f.callers d
  unfolding join_or_start
  join_other none d h = move_other (opening f.started) d h
  join_other (some k) d h = move_other (waiting k) d h

  join_value : (o : Option ℕ) → (join_or_start o c f).value ≡ f.value
  unfolding join_or_start move
  join_value none = refl
  join_value (some k) = refl

  found_other :
      (v : Option ℕ) (d : ℕ) → (c == d) ≡ false → (enter_found v c f).callers d ≡ f.callers d
  unfolding enter_found
  found_other none d h = join_other f.call d h
  found_other (some v) d h = move_other idle d h

  found_value : (v : Option ℕ) → (enter_found v c f).value ≡ f.value
  unfolding enter_found move
  found_value none = join_value f.call
  found_value (some v) = refl

  pub enter_other : (d : ℕ) → (c == d) ≡ false → (enter c f).callers d ≡ f.callers d
  unfolding enter
  enter_other d h = found_other f.value d h

  pub enter_value : (enter c f).value ≡ f.value
  unfolding enter
  enter_value = found_value f.value

  pub moved_value : (s : Caller) → (move c s f).value ≡ f.value
  unfolding move
  moved_value s = refl

  pub failed_value : (finish c failed f).value ≡ f.value
  unfolding finish move
  failed_value = refl

  pub opened_value : (bus : ℕ) → (finish c (opened bus) f).value ≡ some bus
  unfolding finish move
  opened_value bus = refl

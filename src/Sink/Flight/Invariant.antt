-- ===== src/Sink/Flight/Invariant.antt =====
-- What holds of a SingleFlight whatever its callers do.
use antwatcher.Prelude.{
  ℕ, ◌≡◌, refl, sym, ap, ◌∙◌, true, false, Option, none, some, is_some, ◌==◌, if◌then◌else◌, arith,
  Bool-cases, inl, inr,
}
use antwatcher.Sink.Flight.{
  Caller, idle, opening, waiting, peeking, Flight, put, move, Ending, opened, failed, panicked,
  join_or_start, enter_found, enter, finish, peek_found, peek, empty, Step, enters, finishes, woken,
  cancelled, peeks, peek_woken, peek_cancelled, Reachable, fresh, after,
}

-- Whether a caller runs open, and in which attempt.
abbrev pub attempt_of : Caller → Option ℕ
attempt_of idle = none
attempt_of (opening k) = some k
attempt_of (waiting k) = none
attempt_of (peeking k) = none

-- At most one caller runs open, in the attempt in flight; an attempt in flight is run by some caller; and open has
-- returned a value at most once, exactly if one is ready, after which no attempt is in flight.
pub record IsSound {ℓ} {T : Type ℓ} (f : Flight T) : Type ℓ where
  pub in_flight : (c k : ℕ) → attempt_of (f.callers c) ≡ some k → f.call ≡ some k
  pub alone :
      (c d : ℕ)
      → is_some (attempt_of (f.callers c)) ≡ true
      → is_some (attempt_of (f.callers d)) ≡ true
      → c ≡ d
  pub owned : is_some f.call ≡ true → (c : ℕ) × (is_some (attempt_of (f.callers c)) ≡ true)
  pub once : f.opened ≡ (if is_some f.value then 1 else 0)
  pub settled : is_some f.value ≡ true → f.call ≡ none

move_unopened :
    (c d : ℕ) (s : Caller) (callers : ℕ → Caller)
    → attempt_of (callers c) ≡ none
    → attempt_of s ≡ none
    → attempt_of (put callers c s d) ≡ attempt_of (callers d)
unfolding put
move_unopened c d s callers h z = elim (Bool-cases (c == d)) [
  | inl e ↦ rw e (z ∙ sym h ∙ ap (λ x. attempt_of (callers x)) (ground arith))
  | inr e ↦ rw e refl
]

none_of : (o call : Option ℕ) → ((k : ℕ) → o ≡ some k → call ≡ some k) → call ≡ none → o ≡ none
none_of none call h e = refl
none_of (some k) call h e = absurd (cc (h k refl))

put_self : (c : ℕ) (s : Caller) (callers : ℕ → Caller) → put callers c s c ≡ s
unfolding put
put_self c s callers = ground arith

put_other :
    (c d : ℕ) (s : Caller) (callers : ℕ → Caller) → (c == d) ≡ false → put callers c s d ≡ callers d
unfolding put
put_other c d s callers h = rw h refl

not_some : (o : Option ℕ) → is_some o ≡ false → o ≡ none
not_some none h = refl
not_some (some k) h = absurd (cc)

started_in_flight :
    (c d k n : ℕ) (callers : ℕ → Caller)
    → attempt_of (callers d) ≡ none
    → attempt_of (put callers c (opening n) d) ≡ some k
    → some n ≡ some k
unfolding put
started_in_flight c d k n callers h = elim (Bool-cases (c == d)) [
  | inl e ↦ rw e (λ x. x)
  | inr e ↦ rw e (λ x. absurd (cc))
]

started_alone :
    (c d n : ℕ) (callers : ℕ → Caller)
    → attempt_of (callers d) ≡ none
    → is_some (attempt_of (put callers c (opening n) d)) ≡ true
    → d ≡ c
unfolding put
started_alone c d n callers h = elim (Bool-cases (c == d)) [
  | inl e ↦ λ x. ground arith
  | inr e ↦ rw (e, h) (λ x. absurd (cc))
]

-- If nobody but `c` runs open, then after `c` stops nobody does.
put-idle :
    (c d : ℕ) (callers : ℕ → Caller)
    → (is_some (attempt_of (callers d)) ≡ true → c ≡ d)
    → attempt_of (put callers c idle d) ≡ none
unfolding put
put-idle c d callers h = elim (Bool-cases (c == d)) [
  | inl e ↦ rw e refl
  | inr e ↦ rw e (elim (Bool-cases (is_some (attempt_of (callers d)))) [
    | inl p ↦ absurd (ground (arith, h p))
    | inr p ↦ not_some (attempt_of (callers d)) p
  ])
]

module _ {ℓ} {T : Type ℓ} where
  -- A caller that does not run open moves on to something else than running it.
  move-IsSound :
      (c : ℕ) (s : Caller) (f : Flight T)
      → attempt_of (f.callers c) ≡ none
      → attempt_of s ≡ none
      → IsSound f
      → IsSound (move c s f)
  unfolding move
  move-IsSound c s f h z v = record {
    in_flight = λ d k e. v.in_flight d k (sym (move_unopened c d s f.callers h z) ∙ e);
    alone = λ d e p q.
        v.alone d e (ap is_some (sym (move_unopened c d s f.callers h z)) ∙ p)
          (ap is_some (sym (move_unopened c e s f.callers h z)) ∙ q);
    owned = λ e. let (d, p) = v.owned e in (d, ap is_some (move_unopened c d s f.callers h z) ∙ p);
    once = v.once;
    settled = v.settled;
  }

  -- The start of an attempt, where none is in flight and no value is ready.
  start-IsSound :
      (c : ℕ) (f : Flight T)
      → f.value ≡ none
      → f.call ≡ none
      → IsSound f
      → IsSound (join_or_start none c f)
  unfolding join_or_start move
  start-IsSound c f z n v =
      let nobody : (d : ℕ) → attempt_of (f.callers d) ≡ none =
        λ d. none_of (attempt_of (f.callers d)) f.call (v.in_flight d) n in
      record {
        in_flight = λ d k e. started_in_flight c d k f.started f.callers (nobody d) e;
        alone = λ d e p q.
            started_alone c d f.started f.callers (nobody d) p
            ∙ sym (started_alone c e f.started f.callers (nobody e) q);
        owned =
            λ e. (c, ap (λ s. is_some (attempt_of s)) (put_self c (opening f.started) f.callers));
        once = v.once;
        settled = λ e. absurd (ground (arith, z));
      }

  -- With no attempt in flight and nobody in one, what is left to show is the count.
  quiet-IsSound :
      (g : Flight T)
      → ((d : ℕ) → attempt_of (g.callers d) ≡ none)
      → g.call ≡ none
      → g.opened ≡ (if is_some g.value then 1 else 0)
      → IsSound g
  quiet-IsSound g h n o = record {
    in_flight = λ d k e. absurd (cc (h d));
    alone = λ d e p q. absurd (cc (h d));
    owned = λ e. absurd (cc n);
    once = o;
    settled = λ e. n;
  }

  not_ready :
      (c k : ℕ) (f : Flight T) → f.callers c ≡ opening k → IsSound f → is_some f.value ≡ false
  not_ready c k f o v = elim (Bool-cases (is_some f.value)) [
    | inl p ↦ absurd (cc (v.settled p, v.in_flight c k (ap attempt_of o)))
    | inr p ↦ p
  ]

  finish-IsSound :
      (c k : ℕ) (e : Ending T) (f : Flight T)
      → f.callers c ≡ opening k
      → IsSound f
      → IsSound (finish c e f)
  unfolding finish move
  finish-IsSound c k (opened x) f o v =
      quiet-IsSound (finish c (opened x) f) (λ d. put-idle c d f.callers (v.alone c d (rw o refl)))
        refl (omega (arith, rw (not_ready c k f o v) at v.once))
  finish-IsSound c k failed f o v =
      quiet-IsSound (finish c failed f) (λ d. put-idle c d f.callers (v.alone c d (rw o refl))) refl
        v.once
  finish-IsSound c k panicked f o v =
      quiet-IsSound (finish c panicked f) (λ d. put-idle c d f.callers (v.alone c d (rw o refl)))
        refl v.once

  join_or_start-IsSound :
      (c : ℕ) (f : Flight T) (o : Option ℕ)
      → f.call ≡ o
      → f.value ≡ none
      → attempt_of (f.callers c) ≡ none
      → IsSound f
      → IsSound (join_or_start o c f)
  unfolding join_or_start
  join_or_start-IsSound c f (some k) n z h v = move-IsSound c (waiting k) f h refl v
  join_or_start-IsSound c f none n z h v = start-IsSound c f z n v

  enter_found-IsSound :
      (c : ℕ) (f : Flight T) (o : Option T)
      → f.value ≡ o
      → attempt_of (f.callers c) ≡ none
      → IsSound f
      → IsSound (enter_found o c f)
  unfolding enter_found
  enter_found-IsSound c f (some x) z h v = move-IsSound c idle f h refl v
  enter_found-IsSound c f none z h v = join_or_start-IsSound c f f.call refl z h v

  peek_unopened : (o : Option T) (call : Option ℕ) → attempt_of (peek_found o call) ≡ none
  peek_unopened (some x) call = refl
  peek_unopened none none = refl
  peek_unopened none (some k) = refl

  enter-IsSound :
      (c : ℕ) (f : Flight T) → attempt_of (f.callers c) ≡ none → IsSound f → IsSound (enter c f)
  unfolding enter
  enter-IsSound c f h v = enter_found-IsSound c f f.value refl h v

  peek-IsSound :
      (c : ℕ) (f : Flight T) → attempt_of (f.callers c) ≡ none → IsSound f → IsSound (peek c f)
  unfolding peek
  peek-IsSound c f h v =
      move-IsSound c (peek_found f.value f.call) f h (peek_unopened f.value f.call) v

  pub step-IsSound : (f g : Flight T) → Step f g → IsSound f → IsSound g
  step-IsSound f g (enters c _ h) v = enter-IsSound c f (ap attempt_of h) v
  step-IsSound f g (finishes c k e _ h) v = finish-IsSound c k e f h v
  step-IsSound f g (woken c k _ h closed) v = enter-IsSound c f (ap attempt_of h) v
  step-IsSound f g (cancelled c k _ h) v = move-IsSound c idle f (ap attempt_of h) refl v
  step-IsSound f g (peeks c _ h) v = peek-IsSound c f (ap attempt_of h) v
  step-IsSound f g (peek_woken c k _ h closed) v = peek-IsSound c f (ap attempt_of h) v
  step-IsSound f g (peek_cancelled c k _ h) v = move-IsSound c idle f (ap attempt_of h) refl v

  -- Whatever order the callers step in, with failures, panics and ended contexts: at most one of them runs
  -- open, in the attempt in flight; an attempt in flight is always run by a caller, so that no
  -- other one waits for nobody; open returns a value at most once, and no attempt is in
  -- flight once a value is ready.
  pub Reachable-IsSound : (f : Flight T) → Reachable f → IsSound f
  Reachable-IsSound f fresh = quiet-IsSound empty (λ d. refl) refl refl
  Reachable-IsSound f (after g _ r s) = step-IsSound g f s (Reachable-IsSound g r)

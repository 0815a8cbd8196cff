-- ===== src/Sink/Flight/Progress.antt =====
-- What becomes of a caller that waits.
use antwatcher.Prelude.{
  ℕ, ◌≡◌, ◌≢◌, ◌⊎◌, refl, sym, ap, ◌∙◌, true, false, Option, none, some, is_some, ◌==◌, arith,
  Bool-cases, inl, inr,
}
use antwatcher.Sink.Flight.{
  Caller, idle, opening, waiting, peeking, Flight, put, move, Ending, opened, failed, panicked,
  join_or_start, enter_found, enter, finish, is_closed, Step, finishes, woken, Reachable,
}
use antwatcher.Sink.Flight.Invariant.{attempt_of, Reachable-IsSound}

open_call : (k : ℕ) (o : Option ℕ) → is_closed k o ≡ false → o ≡ some k
open_call k none h = absurd (cc)
open_call k (some j) h = ap some (ground arith)

opening_of :
    (k : ℕ) (s : Caller) (call : Option ℕ)
    → is_some (attempt_of s) ≡ true
    → ((j : ℕ) → attempt_of s ≡ some j → call ≡ some j)
    → call ≡ some k
    → s ≡ opening k
opening_of k idle call p h e = absurd (cc)
opening_of k (waiting j) call p h e = absurd (cc)
opening_of k (peeking j) call p h e = absurd (cc)
opening_of k (opening j) call p h e = ground (arith, sym (h j refl) ∙ e)

waits_for : {j k : ℕ} → waiting j ≡ waiting k → j ≡ k
waits_for e = cc e

apart_of :
    (d c k : ℕ) (callers : ℕ → Caller)
    → callers d ≡ opening k
    → callers c ≡ waiting k
    → (d == c) ≡ false
apart_of d c k callers o w = elim (Bool-cases (d == c)) [
  | inl e ↦ let same : d ≡ c = ground arith in absurd (cc (sym o ∙ ap callers same ∙ w))
  | inr other ↦ other
]

module _ {ℓ} {T : Type ℓ} where
  -- What the end of an attempt, or another caller, leaves to a waiting caller.
  finish_shut : (d : ℕ) (e : Ending T) (f : Flight T) → (finish d e f).call ≡ none
  unfolding finish move
  finish_shut d (opened v) f = refl
  finish_shut d failed f = refl
  finish_shut d panicked f = refl

  finish_waiting :
      (d c : ℕ) (e : Ending T) (f : Flight T)
      → (d == c) ≡ false
      → (finish d e f).callers c ≡ f.callers c
  unfolding finish move put
  finish_waiting d c (opened v) f h = rw h refl
  finish_waiting d c failed f h = rw h refl
  finish_waiting d c panicked f h = rw h refl

  -- A caller that is woken no longer waits for the attempt that has ended.
  joined_other :
      (o : Option ℕ) (c k : ℕ) (f : Flight T)
      → is_closed k o ≡ true
      → (join_or_start o c f).callers c ≢ waiting k
  unfolding join_or_start move put
  joined_other none c k f h = let same : (c == c) ≡ true = ground arith in rw same (λ x. cc)
  joined_other (some j) c k f h =
      let same : (c == c) ≡ true = ground arith in rw same (λ x. ground (arith, waits_for x))

  found_other :
      (v : Option T) (c k : ℕ) (f : Flight T)
      → is_closed k f.call ≡ true
      → (enter_found v c f).callers c ≢ waiting k
  unfolding enter_found move put
  found_other none c k f h = joined_other f.call c k f h
  found_other (some v) c k f h = let same : (c == c) ≡ true = ground arith in rw same (λ x. cc)

  woken_other :
      (c k : ℕ) (f : Flight T) → is_closed k f.call ≡ true → (enter c f).callers c ≢ waiting k
  unfolding enter
  woken_other c k f h = found_other f.value c k f h

  -- A state in which the caller's attempt has ended: it is woken there, and goes on.
  abbrev pub IsWoken : ℕ → ℕ → Flight T → Type ℓ
  IsWoken c k g =
      (g.callers c ≡ waiting k) × Step g (enter c g) × ((enter c g).callers c ≢ waiting k)

  -- In every reachable state, a caller of Do that waits for an attempt either can be woken now, or some
  -- caller runs open in just that attempt, and once open ends, with a value, an error or a
  -- panic, the waiting caller can be woken; woken, it does not wait for that attempt any more.
  pub waiting_progress :
      (f : Flight T) (c k : ℕ)
      → Reachable f
      → f.callers c ≡ waiting k
      → IsWoken c k f
        ⊎ ((d : ℕ) × (f.callers d ≡ opening k)
            × ((e : Ending T) → Step f (finish d e f) × IsWoken c k (finish d e f)))
  waiting_progress f c k r w = elim (Bool-cases (is_closed k f.call)) [
    | inl p ↦ inl (w, woken c k f w p, woken_other c k f p)
    | inr p ↦
        let v = Reachable-IsSound f r in
        let flying = open_call k f.call p in
        let (d, runs) = v.owned (rw flying refl) in
        let opener = opening_of k (f.callers d) f.call runs (v.in_flight d) flying in
        let apart : (d == c) ≡ false = apart_of d c k f.callers opener w in
        inr (
          d,
          opener,
          λ e.
              let shut : is_closed k (finish d e f).call ≡ true =
                ap (is_closed k) (finish_shut d e f) in
              let waits = finish_waiting d c e f apart ∙ w in
              (
                finishes d k e f opener,
                (waits, woken c k (finish d e f) waits shut, woken_other c k (finish d e f) shut),
              ),
        )
  ]

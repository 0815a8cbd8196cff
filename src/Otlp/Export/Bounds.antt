-- ===== src/Otlp/Export/Bounds.antt =====
-- How often an export tries, how long it pauses, and what its error says.
use antwatcher.Prelude.{
  ℕ, zero, suc, ◌+◌, ◌≤◌, ◌≡◌, ◌⊎◌, inl, inr, refl, Bool, true, false, ◌||◌, not, Option, none,
  some, List, [], ◌∷◌, String, arith, ltb, All, length, Bool-cases,
}
use antwatcher.Prelude.Int.{ℤ, pos_part}
use antwatcher.Prelude.Errors.{Err, sentinel, Sentinel}
use antwatcher.Sink.Errors.{is_permanent, mark_permanent}
use antwatcher.Otlp.Retry.{classify, finalize}
use antwatcher.Otlp.Export.{
  Config, Sent, taken, failed, Rounds, Exported, outlives, delay_of, no_try, gave_up, paused, sent,
  checked, export_from, export,
}

-- An export that starts with `k` retries left.
abbrev pub IsBounded : Config → ℕ → Exported → Type 0
IsBounded c k x =
    (x.tries ≤ k + 1)
    × (length x.pauses ≤ k)
    × (length x.pauses ≤ x.tries)
    × All (λ d. d ≤ c.timeout) x.pauses

paused-IsBounded :
    (c : Config) (k delay : ℕ) (rest : Exported) (o : Option Sentinel)
    → delay ≤ c.timeout
    → IsBounded c k rest
    → IsBounded c (suc k) (paused o delay rest)
paused-IsBounded c k delay rest none d (t, p, q, a) =
    (omega (arith, t), omega (arith, p), omega (arith, q), (d, a))
paused-IsBounded c k delay rest (some s) d h = (omega arith, omega arith, omega arith, (d, tt))

sent-IsBounded :
    (c : Config) (r : Rounds) (n k : ℕ) (rest : Exported) (s : Sent)
    → IsBounded c k rest
    → IsBounded c (suc k) (sent c r n false rest s)
unfolding sent
sent-IsBounded c r n k rest (taken x) h = (omega arith, omega arith, omega arith, tt)
sent-IsBounded c r n k rest (failed e) h =
    ground (arith, paused-IsBounded c k (delay_of c n (classify e).wait) rest (r.pause n))

last-IsBounded :
    (c : Config) (r : Rounds) (n : ℕ) (rest : Exported) (s : Sent)
    → IsBounded c 0 (sent c r n true rest s)
unfolding sent
last-IsBounded c r n rest (taken x) = (omega arith, omega arith, omega arith, tt)
last-IsBounded c r n rest (failed e) = ground arith

checked-IsBounded :
    (c : Config) (k : ℕ) (x : Exported) (o : Option Sentinel)
    → IsBounded c k x
    → IsBounded c k (checked o x)
checked-IsBounded c k x none h = h
checked-IsBounded c k x (some s) h = (omega arith, omega arith, omega arith, tt)

export_from-IsBounded : (c : Config) (r : Rounds) (k n : ℕ) → IsBounded c k (export_from c r k n)
unfolding export_from
export_from-IsBounded c r zero n =
    checked-IsBounded c 0 (sent c r n true (no_try Sentinel.canceled) (r.send n)) (r.ctx_err n)
      (last-IsBounded c r n (no_try Sentinel.canceled) (r.send n))
export_from-IsBounded c r (suc k) n =
    checked-IsBounded c (suc k) (sent c r n false (export_from c r k (n + 1)) (r.send n))
      (r.ctx_err n)
      (sent-IsBounded c r n k (export_from c r k (n + 1)) (r.send n)
        (export_from-IsBounded c r k (n + 1)))

-- An export makes at most one attempt more than the retries allowed, pauses at most as often as it is allowed to
-- retry and at most once per attempt, and never for longer than the timeout of an attempt.
pub export-IsBounded : (c : Config) (r : Rounds) → IsBounded c c.attempts (export c r)
unfolding export
export-IsBounded c r = export_from-IsBounded c r c.attempts 0

abbrev pub reports_permanent : Option Err → Bool
reports_permanent none = false
reports_permanent (some e) = is_permanent e

-- The attempt that decides an export which starts at round `n`.
abbrev pub IsReasoned : Rounds → ℕ → Exported → Type 0
IsReasoned r n x =
    (x.error ≡ none
      → (m : ℕ) × (items : ℤ) × (r.send m ≡ taken items)
        × (n + x.tries ≡ m + 1)
        × (x.rejected ≡ pos_part items))
    × (reports_permanent x.error ≡ true
        → (m : ℕ) × (cause : Err) × (r.send m ≡ failed cause)
          × (((classify cause).retryable ≡ false) ⊎ (is_permanent cause ≡ true)))

context-IsReasoned :
    (r : Rounds) (n tries rejected : ℕ) (pauses : List ℕ) (s : Sentinel)
    → IsReasoned r n
        (record { error = some (sentinel s); tries = tries; pauses = pauses; rejected = rejected })
unfolding is_permanent
context-IsReasoned r n tries rejected pauses s = (λ h. absurd (cc), λ h. ground arith)

finalize_permanent :
    (o : Option Sentinel) (signal endpoint : String) (n : ℕ) (cause : Err)
    → is_permanent (finalize o signal endpoint n cause) ≡ true
    → ((classify cause).retryable ≡ false) ⊎ (is_permanent cause ≡ true)
unfolding finalize mark_permanent is_permanent
finalize_permanent none signal endpoint n cause h = ground arith
finalize_permanent (some s) signal endpoint n cause h = ground arith

gave_up-IsReasoned :
    (c : Config) (r : Rounds) (n : ℕ) (cause : Err)
    → r.send n ≡ failed cause
    → IsReasoned r n (gave_up (finalize (r.ended n) c.signal c.endpoint (n + 1) cause))
gave_up-IsReasoned c r n cause s = (
  λ h. absurd (cc),
  λ h. (n, cause, s, finalize_permanent (r.ended n) c.signal c.endpoint (n + 1) cause h),
)

paused-IsReasoned :
    (r : Rounds) (n delay : ℕ) (rest : Exported) (o : Option Sentinel)
    → IsReasoned r (n + 1) rest
    → IsReasoned r n (paused o delay rest)
paused-IsReasoned r n delay rest (some s) h = context-IsReasoned r n 1 0 (delay ∷ []) s
paused-IsReasoned r n delay rest none (done, refused) = (
  (λ h. let (m, items, s, at, count) = done h in (m, items, s, omega (arith, at), count)),
  refused,
)

retries_left : (b last : Bool) → (b || last) ≡ false → last ≡ false
retries_left true last h = ground arith
retries_left false last h = h

sent-IsReasoned :
    (c : Config) (r : Rounds) (n : ℕ) (last : Bool) (rest : Exported)
    → (last ≡ false → IsReasoned r (n + 1) rest)
    → (s : Sent) → r.send n ≡ s
    → IsReasoned r n (sent c r n last rest s)
unfolding sent is_permanent
sent-IsReasoned c r n last rest h (taken items) e =
    ((λ z. (n, items, e, refl, refl)), λ z. absurd (cc))
sent-IsReasoned c r n last rest h (failed cause) e =
    elim (Bool-cases (not (classify cause).retryable || last)) [
      | inl v ↦ rw v (gave_up-IsReasoned c r n cause e)
      | inr v ↦
          rw v
            (elim (Bool-cases (
              outlives (r.left n) (delay_of c n (classify cause).wait)
              || ltb c.timeout (delay_of c n (classify cause).wait))) [
                | inl w ↦ rw w (gave_up-IsReasoned c r n cause e)
                | inr w ↦ rw w (
                    paused-IsReasoned r n (delay_of c n (classify cause).wait) rest (r.pause n)
                      (h (retries_left (not (classify cause).retryable) last v)))
              ])
    ]

checked-IsReasoned :
    (r : Rounds) (n : ℕ) (x : Exported) (o : Option Sentinel)
    → IsReasoned r n x
    → IsReasoned r n (checked o x)
checked-IsReasoned r n x none h = h
checked-IsReasoned r n x (some s) h = context-IsReasoned r n 0 0 [] s

export_from-IsReasoned : (c : Config) (r : Rounds) (k n : ℕ) → IsReasoned r n (export_from c r k n)
unfolding export_from
export_from-IsReasoned c r zero n =
    checked-IsReasoned r n (sent c r n true (no_try Sentinel.canceled) (r.send n)) (r.ctx_err n)
      (sent-IsReasoned c r n true (no_try Sentinel.canceled) (λ h. absurd (cc)) (r.send n) refl)
export_from-IsReasoned c r (suc k) n =
    checked-IsReasoned r n (sent c r n false (export_from c r k (n + 1)) (r.send n)) (r.ctx_err n) (
      sent-IsReasoned c r n false (export_from c r k (n + 1))
        (λ h. export_from-IsReasoned c r k (n + 1)) (r.send n) refl)

-- An export reports success only on an attempt that the server took, which is its last one, and whose
-- rejected items are what it counts; and it reports a permanent error only for an attempt whose
-- error is not retryable, or was itself marked permanent.
pub export-IsReasoned : (c : Config) (r : Rounds) → IsReasoned r 0 (export c r)
unfolding export
export-IsReasoned c r = export_from-IsReasoned c r c.attempts 0

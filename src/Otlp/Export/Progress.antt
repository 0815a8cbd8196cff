-- ===== src/Otlp/Export/Progress.antt =====
-- An export goes on until the server takes it.
use antwatcher.Prelude.{
  ℕ, zero, suc, ◌+◌, ◌≤◌, ◌<◌, ◌≡◌, refl, Bool, true, false, none, arith, ltb, ◌==◌, Bool-cases,
  inl, inr,
}
use antwatcher.Prelude.Int.{ℤ, pos_part}
use antwatcher.Prelude.Errors.{Err, Sentinel}
use antwatcher.Otlp.Retry.{classify}
use antwatcher.Otlp.Export.{
  Config, taken, failed, Rounds, Exported, delay_of, no_try, sent, checked, export_from, export,
}

-- Round `n` fails in a way that the policy retries, after a delay of at most the timeout.
abbrev pub IsRetried : Config → Rounds → ℕ → Type 0
IsRetried c r n =
    (e : Err) × (r.send n ≡ failed e)
    × ((classify e).retryable ≡ true)
    × (delay_of c n (classify e).wait ≤ c.timeout)

-- A context without a deadline that does not end, and rounds that are retried until round `stop`, which the server takes.
pub record IsSteady (c : Config) (r : Rounds) (stop : ℕ) (items : ℤ) : Type 0 where
  pub no_end : (n : ℕ) → r.ctx_err n ≡ none
  pub no_deadline : (n : ℕ) → r.left n ≡ none
  pub no_cancel : (n : ℕ) → r.pause n ≡ none
  pub before : (n : ℕ) → n < stop → IsRetried c r n
  pub at_stop : r.send stop ≡ taken items

abbrev pub IsTaken : ℕ → ℕ → ℤ → Exported → Type 0
IsTaken n stop items x = (x.error ≡ none) × (n + x.tries ≡ stop + 1) × (x.rejected ≡ pos_part items)

not_over : (delay timeout : ℕ) → delay ≤ timeout → ltb timeout delay ≡ false
not_over delay timeout h = ground arith

module _ (c : Config) (r : Rounds) (stop : ℕ) (items : ℤ) (steady : IsSteady c r stop items) where
  round-IsTaken :
      (n : ℕ) (last : Bool) (rest : Exported)
      → n ≡ stop
      → IsTaken n stop items (checked (r.ctx_err n) (sent c r n last rest (r.send n)))
  unfolding sent
  round-IsTaken n last rest e = rw (steady.no_end n, e, steady.at_stop) (refl, refl, refl)

  later-IsTaken :
      (n : ℕ) (rest : Exported)
      → n < stop
      → IsTaken (n + 1) stop items rest
      → IsTaken n stop items (checked (r.ctx_err n) (sent c r n false rest (r.send n)))
  unfolding sent
  later-IsTaken n rest h (done, tries, rejected) =
      let (e, s, retryable, short) = steady.before n h in
      rw
        (
          steady.no_end n,
          s,
          retryable,
          steady.no_deadline n,
          steady.no_cancel n,
          not_over (delay_of c n (classify e).wait) c.timeout short,
        )
        (done, omega (arith, tries), rejected)

  export_from-IsTaken :
      (k n : ℕ) → n ≤ stop → stop ≤ n + k → IsTaken n stop items (export_from c r k n)
  unfolding export_from
  export_from-IsTaken zero n low high =
      round-IsTaken n true (no_try Sentinel.canceled) (omega arith)
  export_from-IsTaken (suc k) n low high = elim (Bool-cases (n == stop)) [
    | inl e ↦ round-IsTaken n false (export_from c r k (n + 1)) (ground arith)
    | inr e ↦
        later-IsTaken n (export_from c r k (n + 1)) (ground arith)
          (export_from-IsTaken k (n + 1) (ground arith) (omega arith))
  ]

-- Under a context without a deadline that does not end, with retryable failures (and delays of at most the timeout)
-- until an attempt that the server takes: if the retries allowed reach that attempt, the export succeeds
-- with it, after exactly that many attempts, and counts its rejected items.
pub export-IsTaken :
    (c : Config) (r : Rounds) (stop : ℕ) (items : ℤ)
    → IsSteady c r stop items
    → stop ≤ c.attempts
    → IsTaken 0 stop items (export c r)
unfolding export
export-IsTaken c r stop items steady h =
    export_from-IsTaken c r stop items steady c.attempts 0 (omega arith) (omega arith)

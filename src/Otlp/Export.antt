-- ===== src/Otlp/Export.antt =====
-- internal/otlp/client.go: the export loop.
pub mod Bounds
pub mod Progress
use antwatcher.Prelude.{
  ℕ, zero, suc, ◌+◌, ◌-◌, Bool, true, false, ◌||◌, not, Option, none, some, List, [], ◌∷◌, String,
  ltb, leb, ◌==◌, if◌then◌else◌,
}
use antwatcher.Prelude.Int.{ℤ, pos_part}
use antwatcher.Prelude.Errors.{Err, sentinel, Sentinel}
use antwatcher.Otlp.Retry.{Verdict, classify, finalize, backoff_delay}

-- The retry policy, the timeout of one attempt, and the names in the error text.
pub record Config : Type 0 where
  pub attempts : ℕ
  pub backoff : ℕ
  pub timeout : ℕ
  pub endpoint : String
  pub signal : String

-- What one call of the transport gives: the rejected items of a partial success, or an error.
pub data Sent : Type 0 where
  taken : ℤ → Sent
  failed : Err → Sent

-- What the loop meets in round `n`: ctx.Err() at its start, the attempt, ctx.Err() when it is finalized, the time
-- until the deadline of the context if it has one, and the error of the pause.
pub record Rounds : Type 0 where
  pub ctx_err : ℕ → Option Sentinel
  pub send : ℕ → Sent
  pub ended : ℕ → Option Sentinel
  pub left : ℕ → Option ℕ
  pub pause : ℕ → Option Sentinel

-- The error (`none` is nil), the attempts made, the pauses asked for, and what otlp_rejected_total grew by.
pub record Exported : Type 0 where
  pub error : Option Err
  pub tries : ℕ
  pub pauses : List ℕ
  pub rejected : ℕ

-- `ok && time.Until(deadline) <= delay`
abbrev pub outlives : Option ℕ → ℕ → Bool
outlives none delay = false
outlives (some l) delay = leb l delay

unfoldable pub delay_of : Config → ℕ → ℕ → ℕ
delay_of c n wait = if wait == 0 then backoff_delay c.backoff (n + 1) else wait

abbrev pub no_try : Sentinel → Exported
no_try s = record { error = some (sentinel s); tries = 0; pauses = []; rejected = 0 }

abbrev pub gave_up : Err → Exported
gave_up e = record { error = some e; tries = 1; pauses = []; rejected = 0 }

-- An attempt and a pause in front of the rest.
abbrev pub after_pause : ℕ → Exported → Exported
after_pause delay x = record {
  error = x.error;
  tries = x.tries + 1;
  pauses = delay ∷ x.pauses;
  rejected = x.rejected;
}

abbrev pub paused : Option Sentinel → ℕ → Exported → Exported
paused (some s) delay rest = record {
  error = some (sentinel s);
  tries = 1;
  pauses = delay ∷ [];
  rejected = 0;
}
paused none delay rest = after_pause delay rest

-- One round behind its first check; `last` is `n >= Retry.Attempts`, `rest` the rounds after it.
unfoldable pub sent : Config → Rounds → ℕ → Bool → Exported → Sent → Exported
unfolding delay_of
sent c r n last rest (taken k) = record {
  error = none;
  tries = 1;
  pauses = [];
  rejected = pos_part k;
}
sent c r n last rest (failed e) =
    let delay = delay_of c n (classify e).wait in
    let over = gave_up (finalize (r.ended n) c.signal c.endpoint (n + 1) e) in
    if not (classify e).retryable || last
    then over
    else if outlives (r.left n) delay || ltb c.timeout delay
    then over
    else paused (r.pause n) delay rest

abbrev pub checked : Option Sentinel → Exported → Exported
checked (some s) x = no_try s
checked none x = x

-- The loop from round `n` on, with `k` retries left: `n + k` is Retry.Attempts.
unfoldable pub export_from : Config → Rounds → ℕ → ℕ → Exported
unfolding sent
export_from c r zero n =
    checked (r.ctx_err n) (sent c r n true (no_try Sentinel.canceled) (r.send n))
export_from c r (suc k) n =
    let rest = export_from c r k (n + 1) in checked (r.ctx_err n) (sent c r n false rest (r.send n))

-- export
unfoldable pub export : Config → Rounds → Exported
unfolding export_from
export c r = export_from c r c.attempts 0

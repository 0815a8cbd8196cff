-- ===== src/Otlp/Tests.antt =====
-- Runs of the export loop, and the theorems at concrete inputs.
use antwatcher.Prelude.{ℕ, zero, ◌<◌, suc, ◌≡◌, refl, none, [], ◌∷◌, arith, if◌then◌else◌, ◌==◌}
use antwatcher.Prelude.Int.{pos}
use antwatcher.Prelude.Errors.{http}
use antwatcher.Otlp.Retry.{backoff_delay, classify}
use antwatcher.Otlp.Export.{delay_of, Config, Rounds, taken, failed, export}
use antwatcher.Otlp.Export.Progress.{IsRetried, IsSteady, IsTaken, export-IsTaken}
use antwatcher.Otlp.Export.Bounds.{IsBounded, IsReasoned, export-IsBounded, export-IsReasoned}

abbrev config : Config
config = record {
  attempts = 3;
  backoff = 100;
  timeout = 5000;
  endpoint = "collector:4317";
  signal = "traces";
}

-- The server is unavailable once, then takes all but two of the items.
abbrev rounds : Rounds
rounds = record {
  ctx_err = λ n. none;
  send = λ n. if n == 0 then failed (http 503 "http 503 Service Unavailable" 0) else taken (pos 2);
  ended = λ n. none;
  left = λ n. none;
  pause = λ n. none;
}

retried_once :
    ((export config rounds).tries ≡ 2)
    × ((export config rounds).pauses ≡ 100 ∷ [])
    × ((export config rounds).rejected ≡ 2)
unfolding export backoff_delay classify
retried_once = (refl, refl, refl)

export-IsBounded_example : IsBounded config 3 (export config rounds)
export-IsBounded_example = export-IsBounded config rounds

export-IsReasoned_example : IsReasoned rounds 0 (export config rounds)
export-IsReasoned_example = export-IsReasoned config rounds

first-IsRetried : (n : ℕ) → n < 1 → IsRetried config rounds n
unfolding classify delay_of backoff_delay
first-IsRetried zero h = (http 503 "http 503 Service Unavailable" 0, refl, refl, omega arith)
first-IsRetried (suc n) h = absurd (omega arith)

rounds-IsSteady : IsSteady config rounds 1 (pos 2)
rounds-IsSteady = record {
  no_end = λ n. refl;
  no_deadline = λ n. refl;
  no_cancel = λ n. refl;
  before = first-IsRetried;
  at_stop = refl;
}

export-IsTaken_example : IsTaken 0 1 (pos 2) (export config rounds)
export-IsTaken_example = export-IsTaken config rounds 1 (pos 2) rounds-IsSteady (omega arith)

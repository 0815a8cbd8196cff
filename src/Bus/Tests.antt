-- ===== src/Bus/Tests.antt =====
-- The policy at concrete capabilities.
use antwatcher.Prelude.{◌≡◌, refl, true, false, ◌∷◌}
use antwatcher.Prelude.Errors.{ok}
use antwatcher.Bus.Contract.{Capabilities, earliest, now, known, retention_none}
use antwatcher.Bus.Policy.{degrade, resolve_consumer, no_history, common_warnings}

-- The in-memory bus: it fans out and keeps nothing.
abbrev in_memory : Capabilities
in_memory = record {
  durable_publish = false;
  durable_consumers = false;
  fan_out = true;
  historical_replay = false;
  deduplicates = false;
  reports_lag = false;
  retention = retention_none;
}

degraded_position :
    resolve_consumer in_memory (known earliest) degrade
    ≡ ok (now, no_history ∷ common_warnings in_memory)
unfolding resolve_consumer
degraded_position = refl

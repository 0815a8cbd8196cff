-- ===== src/Recovery/State.antt =====
-- internal/recovery/recovery.go: the state of a target, and how a scan's attempts enter it.
pub mod Merge
use antwatcher.Prelude.{
  ℕ, ◌+◌, ◌≡◌, Bool, true, false, not, Option, none, some, List, [], ◌∷◌, String, ltb, ◌==◌,
  if◌then◌else◌,
}
use antwatcher.Prelude.Dict.{lookup, insert, erase, filter_values}
use antwatcher.Recovery.Decide.{Delivery, Attempts, group}

-- ghclient.Target; 0 is a hook id that is not known yet.
pub record Target : Type 0 where
  pub owner : String
  pub repo : String
  pub org : String
  pub hook_id : ℕ

-- pendingInfo
pub record PendingInfo : Type 0 where
  pub latest_delivery_id : ℕ
  pub latest_at : ℕ
  pub requested_at : ℕ

-- targetState
pub record TargetState : Type 0 where
  pub target : Target
  pub last_scan : ℕ
  pub pending : List (String × PendingInfo)
  pub degraded : String
  pub redelivered : ℕ
  pub last_result : String
  pub scanned : Bool

-- `st.pending[guid]`: the zero value where the key is missing.
abbrev pub pending_or_zero : Option PendingInfo → PendingInfo
pending_or_zero none = record { latest_delivery_id = 0; latest_at = 0; requested_at = 0 }
pending_or_zero (some p) = p

-- An entry brought up to the latest attempt.
unfoldable pub refresh : Attempts → PendingInfo → PendingInfo
refresh a p = if a.latest_id == p.latest_delivery_id then p else record {
  latest_delivery_id = a.latest_id;
  latest_at = a.latest_at;
  requested_at = p.requested_at;
}

-- The first loop of merge.
unfoldable pub merge_attempts :
    List (String × Attempts) → List (String × PendingInfo) → List (String × PendingInfo)
unfolding refresh
merge_attempts [] pending = pending
merge_attempts ((guid, a) ∷ rest) pending = merge_attempts rest (
    if a.success
    then erase guid pending
    else insert guid (refresh a (pending_or_zero (lookup guid pending))) pending)

-- `!p.latestAt.Before(horizon)`, for the horizon `now - lookback`.
abbrev pub is_recent : ℕ → ℕ → PendingInfo → Bool
is_recent lookback now p = not (ltb (p.latest_at + lookback) now)

-- The second loop of merge.
unfoldable pub drop_lost : ℕ → ℕ → List (String × PendingInfo) → List (String × PendingInfo)
drop_lost lookback now = filter_values (is_recent lookback now)

-- merge
unfoldable pub merge :
    ℕ → ℕ → List Delivery → List (String × PendingInfo) → List (String × PendingInfo)
unfolding merge_attempts drop_lost group
merge lookback now deliveries pending =
    drop_lost lookback now (merge_attempts (group deliveries) pending)

-- ===== src/Recovery/Tests.antt =====
-- Runs of the recovery loop, and the theorems at concrete inputs.
use antwatcher.Prelude.{
  ℕ, ◌+◌, ◌≤◌, ◌<◌, ◌≡◌, ◌≢◌, ◌⊎◌, inl, refl, Bool, true, false, ◌&&◌, none, some, List, [], ◌∷◌,
  String, arith, str_eq, if◌then◌else◌, eq_iff, All, any, ◌==◌, filter, take, length,
}
use antwatcher.Prelude.Dict.{lookup, insert, erase, filter_values, IsDict}
use antwatcher.Prelude.Int.{pos}
use antwatcher.Prelude.Sort.{sort, IsSorted}
use antwatcher.Prelude.Errors.{join, ok, err, message}
use antwatcher.Recovery.Decide.{Delivery, group, succeeded}
use antwatcher.Recovery.Decide.Latest.{summary_of, group_lem, NotAfter}
use antwatcher.Recovery.State.{
  Target, TargetState, PendingInfo, merge_attempts, drop_lost, merge, is_recent,
}
use antwatcher.Recovery.State.Merge.{merge_lem}
use antwatcher.Recovery.Redeliver.{is_rate_limited, Options, Calls, redeliver, less, is_due}
use antwatcher.Recovery.Redeliver.Due.{IsCandidate, redeliver_asked}
use antwatcher.Recovery.Redeliver.Complete.{
  IsCalm, IsWhole, is_limit, all_accepted, redeliver-IsWhole,
}
use antwatcher.Recovery.Redeliver.Outcomes.{accepted, among}
use antwatcher.Recovery.Scan.Once.{scan_once}
use antwatcher.Recovery.Scan.{Settings, Answers, new_loop, new_state, scan, merged_state}

-- A failed attempt of "a", its failed redelivery, and a delivered "b".
abbrev deliveries : List Delivery
deliveries =
    record { id = 12; guid = "a"; delivered_at = 900; status_code = 503 }
    ∷ record { id = 11; guid = "b"; delivered_at = 850; status_code = 200 }
    ∷ record { id = 10; guid = "a"; delivered_at = 800; status_code = 500 }
    ∷ []

abbrev positive : All (λ d. 0 < d.id) deliveries
positive = (omega arith, (omega arith, (omega arith, tt)))

a-ne-nil : ◌≢◌ {A = String} "a" ""
a-ne-nil = ground (arith, eq_iff "a" "")

group_lem_example :
    let s = summary_of "a" deliveries in
    (s.success ≡ any (λ d. str_eq d.guid "a" && succeeded d) deliveries)
    × All (λ d. d.guid ≡ "a" → NotAfter d.delivered_at d.id s.latest_at s.latest_id) deliveries
    × (((s.latest_id ≡ 0) × (s.latest_at ≡ 0))
        ⊎ (any
              (λ d. str_eq d.guid "a" && d.id == s.latest_id && d.delivered_at == s.latest_at)
              deliveries
            ≡ true))
group_lem_example = group_lem "a" deliveries a-ne-nil positive

abbrev no_pending : List (String × PendingInfo)
no_pending = []

merge_lem_example :
    let after = merge 500 1000 deliveries no_pending in
    let s = summary_of "a" deliveries in
    (any (λ d. str_eq d.guid "a" && succeeded d) deliveries ≡ true → lookup "a" after ≡ none)
    × (any (λ d. str_eq d.guid "a") deliveries ≡ true
        → any (λ d. str_eq d.guid "a" && succeeded d) deliveries ≡ false
        → lookup "a" no_pending ≡ none
        → 1000 ≤ s.latest_at + 500
        → lookup "a" after
          ≡ some (record {
            latest_delivery_id = s.latest_id;
            latest_at = s.latest_at;
            requested_at = 0;
          }))
    × All (λ e. is_recent 500 1000 e.1 ≡ true) after
merge_lem_example = merge_lem 500 1000 deliveries no_pending "a" tt a-ne-nil positive

abbrev options : Options
options = record {
  webhook_url = "https://example.com/hook";
  lookback = 500;
  overlap = 10;
  grace = 60;
  max_per_scan = 2;
  redeliver_delay = 1;
}

abbrev calm : Calls
calm = record { answer = λ n t id. none; interrupts = λ n. false; ended = λ n. false }

abbrev target : Target
target = record { owner = "o"; repo = "r"; org = ""; hook_id = 9 }

abbrev pending_at : ℕ → ℕ → PendingInfo
pending_at id at = record { latest_delivery_id = id; latest_at = at; requested_at = 0 }

abbrev state : TargetState
state = record {
  target = target;
  last_scan = 700;
  pending = ("a", pending_at 12 900) ∷ ("c", pending_at 8 750) ∷ ("d", pending_at 7 760) ∷ [];
  degraded = "";
  redelivered = 0;
  last_result = "ok";
  scanned = true;
}

state-IsDict : IsDict state.pending
unfolding lookup
state-IsDict = (refl, (refl, (refl, tt)))

-- The two oldest of the three due deliveries are asked for.
asked_run :
    (redeliver options calm 1000 state).asked
    ≡ ("c", pending_at 8 750) ∷ ("d", pending_at 7 760) ∷ []
unfolding redeliver sort
asked_run = refl

redeliver_asked_example :
    let asked = (redeliver options calm 1000 state).asked in
    let due = sort less (filter (is_due 60 1000) state.pending) in
    (asked ≡ take (length asked) (take 2 due))
    × (length asked ≤ 2)
    × IsSorted less due
    × All (IsCandidate options 1000 state.pending) asked
redeliver_asked_example = redeliver_asked options calm 1000 state state-IsDict

abbrev settings : Settings
settings = record {
  has_client = true;
  targets = target ∷ [];
  webhook_url = "";
  interval = pos 60;
  lookback = pos 500;
  overlap = pos 10;
  grace = pos 60;
  max_per_scan = pos 2;
  redeliver_delay = pos 0;
}

-- The settings are runnable.
accepted_settings : new_loop settings ≡ ok (new_state target ∷ [])
unfolding new_loop join
accepted_settings = refl

abbrev answers : Answers
answers = record {
  discover = λ t u. err (message "unused");
  list_deliveries = λ t from. ok deliveries;
  calls = calm;
  ended = false;
}

-- The next scan sees a newer failed attempt of "c".
abbrev newer : List Delivery
newer = record { id = 20; guid = "c"; delivered_at = 1010; status_code = 502 } ∷ []

state-known : state.target.hook_id ≢ 0
state-known = omega arith

c_accepted :
    among "c" (
      accepted calm target 0
        (redeliver options calm 1000 (merged_state options 1000 deliveries state)).asked)
    ≡ true
unfolding merged_state merge merge_attempts drop_lost group redeliver sort filter_values insert
    lookup erase
c_accepted = refl

scan_once_example :
    let merged = merged_state options 1050 newer (scan options answers 1000 state) in
    All (λ c. c.0 ≢ "c") (redeliver options calm 1050 merged).asked
scan_once_example =
    scan_once options answers answers 1000 1050 "c" state state deliveries newer state-IsDict
      (omega arith) (omega arith) (inl (state-known, refl)) refl c_accepted

-- GitHub refuses the first request, which is no rate limit.
abbrev refusing : Calls
refusing = record {
  answer = λ n t id. if n == 0 then some (message "gone") else none;
  interrupts = λ n. false;
  ended = λ n. false;
}

refused_once : (b : Bool) → is_limit (if b then some (message "gone") else none) ≡ false
unfolding is_rate_limited
refused_once true = refl
refused_once false = refl

refusing-IsCalm : IsCalm refusing
refusing-IsCalm = record {
  no_interrupt = λ n. refl;
  no_end = λ n. refl;
  no_limit = λ n t id. refused_once (n == 0);
}

redeliver-IsWhole_example :
    let due = take 2 (sort less (filter (is_due 60 1000) state.pending)) in
    IsWhole (redeliver options refusing 1000 state) due (all_accepted refusing target 0 due)
redeliver-IsWhole_example = redeliver-IsWhole options refusing 1000 state refusing-IsCalm

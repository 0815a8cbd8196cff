-- ===== src/Recovery/Scan.antt =====
-- internal/recovery/recovery.go: New, scan, ScanAll, finish and Status.
pub mod Ends
pub mod Once
pub mod Window
use antwatcher.Prelude.{
  ℕ, ◌+◌, ◌-◌, Bool, true, false, not, ◌&&◌, ◌||◌, Option, none, some, List, [], ◌∷◌, ◌++◌, String,
  ltb, leb, ◌==◌, if◌then◌else◌, str_eq, ◌+++◌, length, map,
}
use antwatcher.Prelude.Int.{ℤ, pos, negsuc, ltb_ℤ, leb_ℤ}
use antwatcher.Prelude.Decimal.{itoa}
use antwatcher.Prelude.Errors.{Err, message, Result, ok, err, text, join}
use antwatcher.Recovery.Decide.{Delivery}
use antwatcher.Recovery.State.{Target, TargetState, merge}
use antwatcher.Recovery.Redeliver.{
  Options, Calls, Outcome, ScanResult, scan_ok, scan_error, scan_rate_limited, result_of, redeliver,
}

-- Target.IsOrg
abbrev pub is_org : Target → Bool
is_org t = not (str_eq t.org "")

-- Target.Name
unfoldable pub name : Target → String
name t = if is_org t then "org:" +++ t.org else t.owner +++ "/" +++ t.repo

-- What New reads: whether there is a client, the targets, and the settings as Go's signed values.
pub record Settings : Type 0 where
  pub has_client : Bool
  pub targets : List Target
  pub webhook_url : String
  pub interval : ℤ
  pub lookback : ℤ
  pub overlap : ℤ
  pub grace : ℤ
  pub max_per_scan : ℤ
  pub redeliver_delay : ℤ

-- config.MaxLookback, 72 hours in nanoseconds
abbrev pub max_lookback : ℕ
max_lookback = 259200000000000

abbrev pub complain : Bool → String → List Err
complain false t = []
complain true t = message t ∷ []

-- The checks of the `i`-th target.
unfoldable pub check_target : String → ℕ → Target → List Err
unfolding name
check_target webhook_url i t =
    let has_repo = not (str_eq t.repo "") in
    complain ((if is_org t then has_repo else not has_repo) || (has_repo && str_eq t.owner ""))
      ("recovery: targets[" +++ itoa i +++ "]: exactly one of repo or org is required")
    ++ complain (t.hook_id == 0 && str_eq webhook_url "") (
        "recovery: targets["
        +++ itoa i
        +++ "] ("
        +++ name t
        +++ "): hook_id is not set and server.public_url is empty, so it cannot be discovered")

unfoldable pub check_targets : String → ℕ → List Target → List Err
unfolding check_target
check_targets webhook_url i [] = []
check_targets webhook_url i (t ∷ ts) =
    check_target webhook_url i t ++ check_targets webhook_url (i + 1) ts

abbrev pub flatten : List (List Err) → List Err
flatten [] = []
flatten (es ∷ rest) = es ++ flatten rest

-- The errors that New joins.
unfoldable pub check : Settings → List Err
unfolding check_targets
check s = flatten (
    (complain (not s.has_client) "recovery: client is required")
    ∷ (complain (length s.targets == 0) "recovery: at least one target is required")
    ∷ (check_targets s.webhook_url 0 s.targets)
    ∷ (complain (leb_ℤ s.interval (pos 0)) "recovery: interval must be > 0")
    ∷ (complain (leb_ℤ s.lookback (pos 0) || ltb_ℤ (pos max_lookback) s.lookback)
        "recovery: lookback must be in (0, 72h0m0s]")
    ∷ (complain (ltb_ℤ s.overlap (pos 0)) "recovery: overlap must be >= 0")
    ∷ (complain (ltb_ℤ s.grace (pos 0)) "recovery: grace must be >= 0")
    ∷ (complain (leb_ℤ s.max_per_scan (pos 0)) "recovery: max_per_scan must be > 0")
    ∷ (complain (ltb_ℤ s.redeliver_delay (pos 0)) "recovery: redeliver delay must be >= 0")
    ∷ [])

unfoldable pub new_state : Target → TargetState
new_state t = record {
  target = t;
  last_scan = 0;
  pending = [];
  degraded = "";
  redelivered = 0;
  last_result = "";
  scanned = false;
}

abbrev pub unless : List TargetState → Option Err → Result (List TargetState)
unless l none = ok l
unless l (some e) = err e

-- New
unfoldable pub new_loop : Settings → Result (List TargetState)
unfolding check new_state
new_loop s = unless (map new_state s.targets) (join (check s))

-- What GitHub answers a scan, and whether the context has ended when the scan finishes.
pub record Answers : Type 0 where
  pub discover : Target → String → Result ℕ
  pub list_deliveries : Target → ℕ → Result (List Delivery)
  pub calls : Calls
  pub ended : Bool

abbrev pub result_name : ScanResult → String
result_name scan_ok = "ok"
result_name scan_error = "error"
result_name scan_rate_limited = "rate_limited"

-- finish, without its log lines and gauges
unfoldable pub finish : Bool → ScanResult → String → TargetState → TargetState
finish true result reason st = st
finish false result reason st = record {
  target = st.target;
  last_scan = st.last_scan;
  pending = st.pending;
  degraded = reason;
  redelivered = st.redelivered;
  last_result = result_name result;
  scanned = st.scanned;
}

-- The start of the listed window: the lookback, or the last scan less the overlap if that is later.
unfoldable pub since : Options → ℕ → TargetState → ℕ
since o now st =
    let full = now - o.lookback in
    let inc = st.last_scan - o.overlap in if st.scanned && ltb full inc then inc else full

-- The state of the target once a listing has come in.
unfoldable pub merged_state : Options → ℕ → List Delivery → TargetState → TargetState
unfolding merge
merged_state o now deliveries st = record {
  target = st.target;
  last_scan = now;
  pending = merge o.lookback now deliveries st.pending;
  degraded = st.degraded;
  redelivered = st.redelivered;
  last_result = st.last_result;
  scanned = true;
}

abbrev pub finish_outcome : Bool → Outcome → TargetState
finish_outcome ended out = finish ended out.result out.reason out.state

unfoldable pub listed : Options → Answers → ℕ → TargetState → Result (List Delivery) → TargetState
unfolding finish merged_state redeliver result_of
listed o a now st (err e) = finish a.ended (result_of e) ("list deliveries: " +++ text e) st
listed o a now st (ok deliveries) =
    finish_outcome a.ended (redeliver o a.calls now (merged_state o now deliveries st))

-- scan, of a target whose hook id is known
unfoldable pub list_and_redeliver : Options → Answers → ℕ → TargetState → TargetState
unfolding since listed
list_and_redeliver o a now st = listed o a now st (a.list_deliveries st.target (since o now st))

abbrev pub with_hook : ℕ → TargetState → TargetState
with_hook id st = record {
  target = record {
    owner = st.target.owner;
    repo = st.target.repo;
    org = st.target.org;
    hook_id = id;
  };
  last_scan = st.last_scan;
  pending = st.pending;
  degraded = st.degraded;
  redelivered = st.redelivered;
  last_result = st.last_result;
  scanned = st.scanned;
}

unfoldable pub discovered : Options → Answers → ℕ → TargetState → Result ℕ → TargetState
unfolding list_and_redeliver finish
discovered o a now st (err e) = finish a.ended scan_error ("hook discovery: " +++ text e) st
discovered o a now st (ok id) = list_and_redeliver o a now (with_hook id st)

-- scan
unfoldable pub scan : Options → Answers → ℕ → TargetState → TargetState
unfolding discovered list_and_redeliver
scan o a now st =
    if st.target.hook_id == 0
    then discovered o a now st (a.discover st.target o.webhook_url)
    else list_and_redeliver o a now st

-- ScanAll: what each scan meets is given by the position of its target; `ends i` is whether the context has
-- ended in front of it.
unfoldable pub scan_all :
    Options → (ℕ → Bool) → (ℕ → Answers) → (ℕ → ℕ) → ℕ → List TargetState → List TargetState
unfolding scan
scan_all o ends answers clock i [] = []
scan_all o ends answers clock i (st ∷ sts) =
    let rest = scan_all o ends answers clock (i + 1) sts in
    if ends i then st ∷ sts else scan o (answers i) (clock i) st ∷ rest

-- TargetStatus; `none` is a nil LastScan.
pub record TargetStatus : Type 0 where
  pub target : String
  pub hook_id : ℕ
  pub degraded : Bool
  pub degraded_reason : String
  pub last_scan : Option ℕ
  pub last_result : String
  pub pending : ℕ
  pub redeliveries : ℕ

-- The view of one target in Status.
unfoldable pub status : TargetState → TargetStatus
unfolding name
status st = record {
  target = name st.target;
  hook_id = st.target.hook_id;
  degraded = not (str_eq st.degraded "");
  degraded_reason = st.degraded;
  last_scan = if st.scanned then some st.last_scan else none;
  last_result = st.last_result;
  pending = length st.pending;
  redeliveries = st.redelivered;
}

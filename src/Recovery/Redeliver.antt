-- ===== src/Recovery/Redeliver.antt =====
-- internal/recovery/recovery.go: the redelivery requests of one scan.
pub mod Due
pub mod Complete
pub mod Outcomes
use antwatcher.Prelude.{
  ℕ, ◌+◌, Bool, true, false, not, ◌&&◌, ◌||◌, Option, none, some, List, [], ◌∷◌, String, ltb, ◌==◌,
  if◌then◌else◌, filter, take, ◌+++◌,
}
use antwatcher.Prelude.Dict.{lookup, insert}
use antwatcher.Prelude.Decimal.{itoa}
use antwatcher.Prelude.Errors.{
  Err, message, sentinel, wrap, joined, permanent, rate_limited, http, grpc, text,
}
use antwatcher.Prelude.Sort.{sort}
use antwatcher.Recovery.State.{Target, PendingInfo, TargetState}

-- The settings of Options that a scan reads; durations are nanoseconds.
pub record Options : Type 0 where
  pub webhook_url : String
  pub lookback : ℕ
  pub overlap : ℕ
  pub grace : ℕ
  pub max_per_scan : ℕ
  pub redeliver_delay : ℕ

-- What happens at the `n`-th request of a scan: the answer of the GitHub client (`none` is nil), whether
-- the context ends in the pause in front of it, and whether it has ended after it.
pub record Calls : Type 0 where
  pub answer : ℕ → Target → ℕ → Option Err
  pub interrupts : ℕ → Bool
  pub ended : ℕ → Bool

pub data ScanResult : Type 0 where
  scan_ok scan_error scan_rate_limited : ScanResult

-- ghclient.IsRateLimited
unfoldable pub is_rate_limited : Err → Bool
is_rate_limited (message t) = false
is_rate_limited (sentinel s) = false
is_rate_limited (wrap b e a) = is_rate_limited e
is_rate_limited (joined e t f) = is_rate_limited e || is_rate_limited f
is_rate_limited (permanent e) = is_rate_limited e
is_rate_limited (rate_limited t e) = true
is_rate_limited (http c t r) = false
is_rate_limited (grpc c t r) = false

-- resultOf
unfoldable pub result_of : Err → ScanResult
result_of e = if is_rate_limited e then scan_rate_limited else scan_error

-- A candidate: its GUID and what is pending of it.
abbrev pub Candidate : Type 0
Candidate = String × PendingInfo

-- The two tests that a pending entry passes to become a candidate.
unfoldable pub is_due : ℕ → ℕ → Candidate → Bool
is_due grace now c =
    not (ltb now (c.1.latest_at + grace))
    && not (not (c.1.requested_at == 0) && ltb now (c.1.requested_at + grace))

-- The comparison of sort.Slice.
unfoldable pub less : Candidate → Candidate → Bool
less a b =
    if not (a.1.requested_at == b.1.requested_at)
    then ltb a.1.requested_at b.1.requested_at
    else if not (a.1.latest_at == b.1.latest_at)
    then ltb a.1.latest_at b.1.latest_at
    else ltb a.1.latest_delivery_id b.1.latest_delivery_id

-- The sorted candidates, up to max_per_scan.
unfoldable pub candidates : Options → ℕ → List (String × PendingInfo) → List Candidate
unfolding is_due less
candidates o now pending = take o.max_per_scan (sort less (filter (is_due o.grace now) pending))

abbrev pub requested :
    ℕ → Option PendingInfo → String → List (String × PendingInfo) → List (String × PendingInfo)
requested now none guid pending = pending
requested now (some p) guid pending =
    insert guid
      (record {
        latest_delivery_id = p.latest_delivery_id;
        latest_at = p.latest_at;
        requested_at = now;
      })
      pending

-- The state after a request that GitHub accepted.
unfoldable pub note_requested : ℕ → String → TargetState → TargetState
note_requested now guid st = record {
  target = st.target;
  last_scan = st.last_scan;
  pending = requested now (lookup guid st.pending) guid st.pending;
  degraded = st.degraded;
  redelivered = st.redelivered + 1;
  last_result = st.last_result;
  scanned = st.scanned;
}

-- How one round of the request loop ends.
pub data Step : Type 0 where
  interrupted : Step
  stopped : Err → Step
  continued : TargetState → Option Err → Step

abbrev pub keep_first : Option Err → Err → Option Err
keep_first none e = some e
keep_first (some f) e = some f

unfoldable pub answered : Option Err → Bool → ℕ → Option Err → Candidate → TargetState → Step
unfolding note_requested
answered none ended now first c st = continued (note_requested now c.0 st) first
answered (some e) ended now first c st =
    if is_rate_limited e || ended
    then stopped e
    else continued st
        (keep_first first (wrap ("redeliver " +++ itoa c.1.latest_delivery_id +++ ": ") e ""))

unfoldable pub request : Options → Calls → ℕ → ℕ → Option Err → Candidate → TargetState → Step
unfolding answered
request o calls now n first c st =
    if ltb 0 n && ltb 0 o.redeliver_delay && calls.interrupts n
    then interrupted
    else answered (calls.answer n st.target c.1.latest_delivery_id) (calls.ended n) now first c st

-- The state after the loop, the candidates GitHub was asked for, the result and the reason.
pub record Outcome : Type 0 where
  pub state : TargetState
  pub asked : List Candidate
  pub result : ScanResult
  pub reason : String

abbrev pub concluded : Option Err → TargetState → Outcome
concluded none st = record { state = st; asked = []; result = scan_ok; reason = "" }
concluded (some e) st = record { state = st; asked = []; result = scan_error; reason = text e }

abbrev pub also_asked : Candidate → Outcome → Outcome
also_asked c out = record {
  state = out.state;
  asked = c ∷ out.asked;
  result = out.result;
  reason = out.reason;
}

abbrev pub resume : Step → Candidate → TargetState → (TargetState → Option Err → Outcome) → Outcome
resume interrupted c st next = record {
  state = st;
  asked = [];
  result = scan_error;
  reason = "interrupted";
}
resume (stopped e) c st next = record {
  state = st;
  asked = c ∷ [];
  result = result_of e;
  reason = "redeliver " +++ itoa c.1.latest_delivery_id +++ ": " +++ text e;
}
resume (continued st' first) c st next = also_asked c (next st' first)

-- The request loop, from the `n`-th candidate on.
unfoldable pub request_all :
    Options → Calls → ℕ → ℕ → Option Err → List Candidate → TargetState → Outcome
unfolding request result_of
request_all o calls now n first [] st = concluded first st
request_all o calls now n first (c ∷ cs) st =
    resume (request o calls now n first c st) c st
      (λ st' first'. request_all o calls now (n + 1) first' cs st')

-- redeliver
unfoldable pub redeliver : Options → Calls → ℕ → TargetState → Outcome
unfolding candidates request_all
redeliver o calls now st = request_all o calls now 0 none (candidates o now st.pending) st

-- ===== src/Recovery/Scan/Once.antt =====
-- What the next scan does about a redelivery that GitHub accepted.
use antwatcher.Prelude.{
  ℕ, ◌+◌, ◌<◌, ◌≡◌, ◌≢◌, refl, sym, ap, ◌∙◌, Bool, true, false, Option, none, some, List, [], ◌∷◌,
  String, arith, str_eq, eq_iff, All, Bool-cases, inl, inr, is_some, ◌==◌,
}
use antwatcher.Prelude.Dict.{lookup, IsDict, keep_if}
use antwatcher.Prelude.Errors.{ok}
use antwatcher.Recovery.Decide.{Delivery, Attempts, group}
use antwatcher.Recovery.State.{Target, TargetState, PendingInfo, refresh, is_recent}
use antwatcher.Recovery.State.Merge.{merged, lookup-merge, merge-IsDict}
use antwatcher.Recovery.Redeliver.{Options, Calls, Candidate, ScanResult, is_due, redeliver}
use antwatcher.Recovery.Redeliver.Due.{IsCandidate, redeliver_asked}
use antwatcher.Recovery.Redeliver.Outcomes.{accepted, among, marked, redeliver_state}
use antwatcher.Recovery.Scan.{
  Answers, finish, since, merged_state, listed, list_and_redeliver, discovered, scan,
}
use antwatcher.Recovery.Scan.Ends.{IsFound}

-- A merge keeps the request time of an entry that stays.
kept_request :
    (lookback now : ℕ) (a : Option Attempts) (p q : PendingInfo)
    → keep_if (is_recent lookback now) (merged a (some p)) ≡ some q
    → q.requested_at ≡ p.requested_at
unfolding refresh
kept_request lookback now none p q h = ground arith
kept_request lookback now (some a) p q h = ground arith

-- A GUID whose request was accepted was pending.
accepted_pending :
    (o : Options) (calls : Calls) (t : Target) (now n : ℕ) (g : String)
    (pending : List (String × PendingInfo)) (asked : List Candidate)
    → All (IsCandidate o now pending) asked
    → among g (accepted calls t n asked) ≡ true
    → (p : PendingInfo) × (lookup g pending ≡ some p)
accepted_pending o calls t now n g pending [] v h = absurd (cc)
accepted_pending o calls t now n g pending (c ∷ cs) ((e, d), v) h =
    elim (Bool-cases (is_some (calls.answer n t c.1.latest_delivery_id))) [
      | inl refused ↦ accepted_pending o calls t now (n + 1) g pending cs v (rw refused at h)
      | inr taken ↦ elim (Bool-cases (str_eq c.0 g)) [
        | inl same ↦ (c.1, ap (λ k. lookup k pending) (sym ((eq_iff c.0 g).0 same)) ∙ e)
        | inr other ↦ accepted_pending o calls t now (n + 1) g pending cs v (rw (taken, other) at h)
      ]
    ]

not_due :
    (grace now later : ℕ) (c : Candidate)
    → 0 < now
    → later < now + grace
    → c.1.requested_at ≡ now
    → is_due grace later c ≡ true
    → ⊥
unfolding is_due
not_due grace now later c z l e d = ground arith

module _ (o : Options) (now later : ℕ) (g : String) (p : PendingInfo) (a : Option Attempts)
    (after : List (String × PendingInfo)) where
  none_again :
      0 < now
      → later < now + o.grace
      → p.requested_at ≡ now
      → lookup g after ≡ keep_if (is_recent o.lookback later) (merged a (some p))
      → (asked : List Candidate) → All (IsCandidate o later after) asked
      → All (λ c. c.0 ≢ g) asked
  none_again z l r m [] h = tt
  none_again z l r m (c ∷ cs) ((e, d), h) = (
    (λ same.
        not_due o.grace now later c z l
          (kept_request o.lookback later a p c.1 (sym m ∙ (ap (λ k. lookup k after) (sym same) ∙ e))
            ∙ r)
          d),
    none_again z l r m cs h,
  )

finish_pending :
    (b : Bool) (r : ScanResult) (reason : String) (st : TargetState)
    → (finish b r reason st).pending ≡ st.pending
unfolding finish
finish_pending true r reason st = refl
finish_pending false r reason st = refl

-- A scan that finds its hook and lists the window leaves the pending set of its requests.
listed_pending :
    (o : Options) (a : Answers) (now : ℕ) (st : TargetState) (deliveries : List Delivery)
    → a.list_deliveries st.target (since o now st) ≡ ok deliveries
    → (list_and_redeliver o a now st).pending
      ≡ (redeliver o a.calls now (merged_state o now deliveries st)).state.pending
unfolding list_and_redeliver listed
listed_pending o a now st deliveries h =
    let out = redeliver o a.calls now (merged_state o now deliveries st) in
    rw h (finish_pending a.ended out.result out.reason out.state)

found_scan :
    (o : Options) (a : Answers) (now : ℕ) (st found : TargetState)
    → IsFound o a st found
    → scan o a now st ≡ list_and_redeliver o a now found
unfolding scan discovered
found_scan o a now st found (inl (known, same)) =
    let test : (st.target.hook_id == 0) ≡ false = ground arith in rw (test, same) refl
found_scan o a now st found (inr (z, (id, h, same))) =
    let test : (st.target.hook_id == 0) ≡ true = ground arith in rw (test, h, same) refl

-- A GUID whose redelivery GitHub accepted in one scan, which found its hook and listed the window, is not
-- asked for by the next scan if that starts less than grace later, whatever deliveries it
-- lists and merges first and whatever the client answers; the pending set has each GUID once,
-- and a clock reading is positive.
pub scan_once :
    (o : Options) (a a' : Answers) (now later : ℕ) (g : String) (st found : TargetState)
    (deliveries deliveries' : List Delivery)
    → IsDict found.pending
    → 0 < now
    → later < now + o.grace
    → IsFound o a st found
    → a.list_deliveries found.target (since o now found) ≡ ok deliveries
    → among g (
        accepted a.calls found.target 0
          (redeliver o a.calls now (merged_state o now deliveries found)).asked)
      ≡ true
    → All
        (λ c. c.0 ≢ g)
        (redeliver o a'.calls later (merged_state o later deliveries' (scan o a now st))).asked
unfolding merged_state
scan_once o a a' now later g st found deliveries deliveries' d z l f h m =
    let first : TargetState = merged_state o now deliveries found in
    let after : TargetState = scan o a now st in
    let dict = merge-IsDict o.lookback now deliveries found.pending d in
    let same : after.pending ≡ (redeliver o a.calls now first).state.pending =
      ap (λ s. s.pending) (found_scan o a now st found f)
      ∙ listed_pending o a now found deliveries h in
    let (entry, counter, dicts, same_target, same_time, same_flag) =
      redeliver_state o a.calls now g first in
    let (prefix, bound, sorted, valid) = redeliver_asked o a.calls now first dict in
    let (p, e) =
      accepted_pending o a.calls found.target now 0 g first.pending
        (redeliver o a.calls now first).asked valid m in
    let dict' : IsDict after.pending = rw same (dicts dict) in
    let marks : lookup g after.pending ≡ marked now (some p) =
      ap (lookup g) same ∙ (rw m at entry) ∙ ap (marked now) e in
    let second : TargetState = merged_state o later deliveries' after in
    let (prefix', bound', sorted', valid') =
      redeliver_asked o a'.calls later second
        (merge-IsDict o.lookback later deliveries' after.pending dict') in
    none_again o now later g
      (record {
        latest_delivery_id = p.latest_delivery_id;
        latest_at = p.latest_at;
        requested_at = now;
      })
      (lookup g (group deliveries')) second.pending z l refl
      (lookup-merge o.lookback later deliveries' after.pending dict' g
        ∙ ap (λ x. keep_if (is_recent o.lookback later) (merged (lookup g (group deliveries')) x))
            marks)
      (redeliver o a'.calls later second).asked valid'

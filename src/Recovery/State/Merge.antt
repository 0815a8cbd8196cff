-- ===== src/Recovery/State/Merge.antt =====
-- What the pending set holds after a scan.
use antwatcher.Prelude.{
  ℕ, ◌+◌, ◌≤◌, ◌<◌, ◌≡◌, refl, ◌∙◌, ap, ◌≢◌, true, false, Option, none, some, List, [], ◌∷◌, String,
  arith, ◌==◌, if◌then◌else◌, str_eq, eq_iff, All, Bool-cases, inl, inr, any, ◌&&◌,
}
use antwatcher.Prelude.Dict.{
  lookup, insert, erase, IsDict, lookup-insert, lookup-erase, insert-IsDict, erase-IsDict, keep_if,
  lookup-filter_values, filter_values-IsDict, filter_values-All,
}
use antwatcher.Recovery.Decide.{
  Delivery, Attempts, group, group_from, add_attempt, or_zero, succeeded,
}
use antwatcher.Recovery.Decide.Latest.{summary_of, group_lem, NotAfter}
use antwatcher.Recovery.State.{
  PendingInfo, pending_or_zero, refresh, merge_attempts, is_recent, drop_lost, merge,
}

group_from-IsDict :
    (out : List (String × Attempts)) (ds : List Delivery) → IsDict out → IsDict (group_from out ds)
unfolding group_from
group_from-IsDict out [] h = h
group_from-IsDict out (d ∷ ds) h = elim (Bool-cases (str_eq d.guid "")) [
  | inl e ↦ rw e (group_from-IsDict out ds h)
  | inr e ↦ rw e (
      group_from-IsDict (insert d.guid (add_attempt d (or_zero (lookup d.guid out))) out) ds
        (insert-IsDict d.guid (add_attempt d (or_zero (lookup d.guid out))) out h))
]

-- What the first loop makes of an entry, given the attempts of its GUID in the scan.
abbrev pub merged : Option Attempts → Option PendingInfo → Option PendingInfo
merged none o = o
merged (some a) o = if a.success then none else some (refresh a (pending_or_zero o))

merge_step :
    (g guid : String) (a : Attempts) (pending : List (String × PendingInfo))
    → lookup g (
        if a.success
        then erase guid pending
        else insert guid (refresh a (pending_or_zero (lookup guid pending))) pending)
      ≡ (if str_eq guid g then merged (some a) (lookup g pending) else lookup g pending)
merge_step g guid a pending = ground (
  arith,
  eq_iff guid g,
  lookup-erase guid g pending,
  lookup-insert guid g (refresh a (pending_or_zero (lookup guid pending))) pending,
)

-- Once the entry of `g` is merged, no later group touches it: `guid` occurs once.
merged_once :
    (g guid : String) (a : Attempts) (o : Option Attempts) (p : Option PendingInfo)
    → (guid ≡ g → o ≡ none)
    → merged o (if str_eq guid g then merged (some a) p else p)
      ≡ merged (if str_eq guid g then some a else o) p
merged_once g guid a none p h = ground (arith, eq_iff guid g)
merged_once g guid a (some b) p h = ground (arith, eq_iff guid g)

merge_attempts-lookup :
    (g : String) (gs : List (String × Attempts)) (pending : List (String × PendingInfo))
    → IsDict gs
    → lookup g (merge_attempts gs pending) ≡ merged (lookup g gs) (lookup g pending)
unfolding merge_attempts lookup
merge_attempts-lookup g [] pending d = refl
merge_attempts-lookup g ((guid, a) ∷ gs) pending (fresh, d) =
    let next : List (String × PendingInfo) =
      if a.success
      then erase guid pending
      else insert guid (refresh a (pending_or_zero (lookup guid pending))) pending in
    merge_attempts-lookup g gs next d
    ∙ (ap (merged (lookup g gs)) (merge_step g guid a pending)
        ∙ merged_once g guid a (lookup g gs) (lookup g pending) (λ e. rw (← e) fresh))

merge_attempts-IsDict :
    (gs : List (String × Attempts)) (pending : List (String × PendingInfo))
    → IsDict pending
    → IsDict (merge_attempts gs pending)
unfolding merge_attempts
merge_attempts-IsDict [] pending d = d
merge_attempts-IsDict ((guid, a) ∷ gs) pending d = elim (Bool-cases a.success) [
  | inl e ↦ rw e (merge_attempts-IsDict gs (erase guid pending) (erase-IsDict guid pending d))
  | inr e ↦ rw e (
      merge_attempts-IsDict gs
        (insert guid (refresh a (pending_or_zero (lookup guid pending))) pending)
        (insert-IsDict guid (refresh a (pending_or_zero (lookup guid pending))) pending d))
]

module _ (lookback now : ℕ) (deliveries : List Delivery) (pending : List (String × PendingInfo))
    (d : IsDict pending) where
  -- The pending set after a scan, GUID by GUID: an entry leaves on a success, is brought up to the
  -- latest attempt otherwise, and stays only inside the lookback window.
  pub lookup-merge :
      (g : String)
      → lookup g (merge lookback now deliveries pending)
        ≡ keep_if (is_recent lookback now) (merged (lookup g (group deliveries)) (lookup g pending))
  unfolding merge drop_lost group
  lookup-merge g =
      lookup-filter_values (is_recent lookback now) g
        (merge_attempts (group_from [] deliveries) pending)
        (merge_attempts-IsDict (group_from [] deliveries) pending d)
      ∙ ap (keep_if (is_recent lookback now)) (
          merge_attempts-lookup g (group_from [] deliveries) pending
            (group_from-IsDict [] deliveries tt))

  pub merge-IsDict : IsDict (merge lookback now deliveries pending)
  unfolding merge drop_lost
  merge-IsDict =
      filter_values-IsDict (is_recent lookback now) (merge_attempts (group deliveries) pending)
        (merge_attempts-IsDict (group deliveries) pending d)

-- An attempt of `g` among those of a scan rules out the zero value as the latest.
not_zero_of_dominated :
    (g : String) (ds : List Delivery)
    → All (λ d. 0 < d.id) ds
    → All (λ d. d.guid ≡ g → NotAfter d.delivered_at d.id 0 0) ds
    → any (λ d. str_eq d.guid g) ds ≡ false
not_zero_of_dominated g [] p h = refl
not_zero_of_dominated g (d ∷ ds) (p, ps) (h, hs) =
    ground (arith, eq_iff d.guid g, not_zero_of_dominated g ds ps hs)

not_zero_of_among :
    (g : String) (t : ℕ) (ds : List Delivery)
    → All (λ d. 0 < d.id) ds
    → any (λ d. str_eq d.guid g && d.id == 0 && d.delivered_at == t) ds ≡ false
not_zero_of_among g t [] p = refl
not_zero_of_among g t (d ∷ ds) (p, ps) = ground (arith, not_zero_of_among g t ds ps)

latest_positive :
    (g : String) (ds : List Delivery)
    → g ≢ ""
    → All (λ d. 0 < d.id) ds
    → any (λ d. str_eq d.guid g) ds ≡ true
    → (summary_of g ds).latest_id ≢ 0
latest_positive g ds h p some_attempt e =
    let (success, dominates, among) = group_lem g ds h p in
    elim among [
      | inl (i, t) ↦ cc (not_zero_of_dominated g ds p (rw (i, t) at dominates))
      | inr found ↦ cc (not_zero_of_among g (summary_of g ds).latest_at ds p, rw e at found)
    ]

success_merged :
    (o : Option Attempts) (p : Option PendingInfo) → (or_zero o).success ≡ true → merged o p ≡ none
success_merged none p h = absurd (cc)
success_merged (some a) p h = rw h refl

new_merged :
    (lookback now : ℕ) (o : Option Attempts)
    → (or_zero o).success ≡ false
    → (or_zero o).latest_id ≢ 0
    → now ≤ (or_zero o).latest_at + lookback
    → keep_if (is_recent lookback now) (merged o none)
      ≡ some (record {
        latest_delivery_id = (or_zero o).latest_id;
        latest_at = (or_zero o).latest_at;
        requested_at = 0;
      })
unfolding refresh
new_merged lookback now none s z r = absurd (z refl)
new_merged lookback now (some a) s z r = ground arith

-- After a scan, in which ids are positive, of a target whose pending set has each GUID once: a GUID
-- with a 2xx attempt in the scan is not pending; a GUID with attempts and no 2xx, not
-- pending before and whose latest attempt is inside the lookback window, is pending with
-- that attempt and no request; and every pending entry is inside the window.
pub merge_lem :
    (lookback now : ℕ) (ds : List Delivery) (pending : List (String × PendingInfo)) (g : String)
    → IsDict pending
    → g ≢ ""
    → All (λ d. 0 < d.id) ds
    → let after = merge lookback now ds pending in
      let a = summary_of g ds in
      (any (λ d. str_eq d.guid g && succeeded d) ds ≡ true → lookup g after ≡ none)
      × (any (λ d. str_eq d.guid g) ds ≡ true
          → any (λ d. str_eq d.guid g && succeeded d) ds ≡ false
          → lookup g pending ≡ none
          → now ≤ a.latest_at + lookback
          → lookup g after
            ≡ some (record {
              latest_delivery_id = a.latest_id;
              latest_at = a.latest_at;
              requested_at = 0;
            }))
      × All (λ e. is_recent lookback now e.1 ≡ true) after
merge_lem lookback now ds pending g d h p =
    let formula = lookup-merge lookback now ds pending d g in
    let success = (group_lem g ds h p).0 in
    (
      (λ ok_seen.
          formula
          ∙ ap (keep_if (is_recent lookback now))
              (success_merged (lookup g (group ds)) (lookup g pending) (success ∙ ok_seen))),
      (λ seen failed fresh recent.
          formula
          ∙ (ap (λ o. keep_if (is_recent lookback now) (merged (lookup g (group ds)) o)) fresh
              ∙ new_merged lookback now (lookup g (group ds)) (success ∙ failed)
                  (latest_positive g ds h p seen) recent)),
      (unfold merge drop_lost in
          filter_values-All (is_recent lookback now) (merge_attempts (group ds) pending)),
    )

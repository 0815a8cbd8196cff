-- ===== src/Recovery/Decide/Latest.antt =====
-- What `group` says of a GUID: whether some attempt succeeded, and which is the latest.
use antwatcher.Prelude.{
  ℕ, ◌≤◌, ◌<◌, ◌≡◌, refl, ◌∙◌, ap, ◌≢◌, ◌⊎◌, inl, inr, true, false, ◌&&◌, ◌||◌, Option, none, some,
  List, [], ◌∷◌, String, arith, ◌==◌, str_eq, eq_iff, if◌then◌else◌, any, All, Bool-cases,
}
use antwatcher.Prelude.Dict.{lookup, insert, lookup-insert}
use antwatcher.Recovery.Decide.{
  Delivery, Attempts, or_zero, add_attempt, succeeded, group_from, group,
}

-- The attempts of one GUID alone, in the order of the scan.
abbrev of_guid : String → Option Attempts → List Delivery → Option Attempts
of_guid g o [] = o
of_guid g o (d ∷ ds) =
    of_guid g (if str_eq d.guid g then some (add_attempt d (or_zero o)) else o) ds

group_step :
    (g : String) (out : List (String × Attempts)) (d : Delivery) (a : Attempts)
    → g ≢ ""
    → lookup g (if str_eq d.guid "" then out else insert d.guid a out)
      ≡ (if str_eq d.guid g then some a else lookup g out)
group_step g out d a h =
    ground (arith, eq_iff d.guid "", eq_iff d.guid g, lookup-insert d.guid g a out)

same_key :
    (g : String) (out : List (String × Attempts)) (d : Delivery)
    → (if str_eq d.guid g then some (add_attempt d (or_zero (lookup d.guid out))) else lookup g out)
      ≡ (if str_eq d.guid g then some (add_attempt d (or_zero (lookup g out))) else lookup g out)
same_key g out d = ground (arith, eq_iff d.guid g)

group_from-lookup :
    (g : String) (out : List (String × Attempts)) (ds : List Delivery)
    → g ≢ ""
    → lookup g (group_from out ds) ≡ of_guid g (lookup g out) ds
unfolding group_from
group_from-lookup g out [] h = refl
group_from-lookup g out (d ∷ ds) h =
    let a = add_attempt d (or_zero (lookup d.guid out)) in
    group_from-lookup g (if str_eq d.guid "" then out else insert d.guid a out) ds h
    ∙ ap (λ o. of_guid g o ds) (group_step g out d a h ∙ same_key g out d)

-- The first of two attempts is not after the second, by time and then by id.
abbrev pub NotAfter : ℕ → ℕ → ℕ → ℕ → Type 0
NotAfter t i t' i' = (t < t') ⊎ ((t ≡ t') × (i ≤ i'))

-- What holds of the summary `a` of the attempts `ds` of `g` behind the summary `o` of those before.
record IsSummary (g : String) (o : Attempts) (ds : List Delivery) (a : Attempts) : Type 0 where
  success_is : a.success ≡ (o.success || any (λ d. str_eq d.guid g && succeeded d) ds)
  grows : NotAfter o.latest_at o.latest_id a.latest_at a.latest_id
  dominates : All (λ d. d.guid ≡ g → NotAfter d.delivered_at d.id a.latest_at a.latest_id) ds
  among :
      ((a.latest_id ≡ o.latest_id) × (a.latest_at ≡ o.latest_at))
      ⊎ (any (λ d. str_eq d.guid g && d.id == a.latest_id && d.delivered_at == a.latest_at) ds
          ≡ true)

-- What one round does: the summary is at least the one before and the attempt, and one of them.
add_attempt_lem :
    (d : Delivery) (o : Attempts)
    → (o.latest_id ≡ 0 → o.latest_at ≡ 0)
    → let a = add_attempt d o in
      NotAfter o.latest_at o.latest_id a.latest_at a.latest_id
      × NotAfter d.delivered_at d.id a.latest_at a.latest_id
      × (((a.latest_id ≡ o.latest_id) × (a.latest_at ≡ o.latest_at))
          ⊎ ((a.latest_id ≡ d.id) × (a.latest_at ≡ d.delivered_at)))
      × (a.success ≡ (o.success || succeeded d))
unfolding add_attempt
add_attempt_lem d o z = ground arith

module _ (g : String) (d : Delivery) (o : Attempts) (ds : List Delivery) (a : Attempts) where
  other_step : str_eq d.guid g ≡ false → IsSummary g o ds a → IsSummary g o (d ∷ ds) a
  other_step other s = record {
    success_is = rw other s.success_is;
    grows = s.grows;
    dominates = (ground (arith, eq_iff d.guid g), s.dominates);
    among = rw other s.among;
  }

  same_step :
      str_eq d.guid g ≡ true
      → (o.latest_id ≡ 0 → o.latest_at ≡ 0)
      → IsSummary g (add_attempt d o) ds a
      → IsSummary g o (d ∷ ds) a
  same_step same z s =
      let (before, here, one, success) = add_attempt_lem d o z in
      record {
        success_is = rw same (ground (arith, s.success_is, success));
        grows = omega (arith, s.grows);
        dominates = ((λ e. omega (arith, s.grows)), s.dominates);
        among = rw same (ground (arith, s.among));
      }

of_guid-IsSummary :
    (g : String) (o : Option Attempts) (ds : List Delivery)
    → All (λ d. 0 < d.id) ds
    → ((or_zero o).latest_id ≡ 0 → (or_zero o).latest_at ≡ 0)
    → IsSummary g (or_zero o) ds (or_zero (of_guid g o ds))
of_guid-IsSummary g o [] p z = ground arith
of_guid-IsSummary g o (d ∷ ds) (p, ps) z = elim (Bool-cases (str_eq d.guid g)) [
  | inl same ↦ rw same (
      same_step g d (or_zero o) ds _ same z (
        of_guid-IsSummary g (some (add_attempt d (or_zero o))) ds ps
          (omega (arith, add_attempt_lem d (or_zero o) z))))
  | inr other ↦ rw other (other_step g d (or_zero o) ds _ other (of_guid-IsSummary g o ds ps z))
]

-- The summary that `group` has of a GUID: that of no attempt where there is none.
abbrev pub summary_of : String → List Delivery → Attempts
summary_of g ds = or_zero (lookup g (group ds))

-- Among the attempts of a scan, whose ids are positive: a GUID has succeeded exactly when one of
-- its attempts got a 2xx; no attempt of it is after the latest one, by time and then by id; and
-- the latest is one of its attempts, unless it has none and the summary is the zero value.
pub group_lem :
    (g : String) (ds : List Delivery)
    → g ≢ ""
    → All (λ d. 0 < d.id) ds
    → let a = summary_of g ds in
      (a.success ≡ any (λ d. str_eq d.guid g && succeeded d) ds)
      × All (λ d. d.guid ≡ g → NotAfter d.delivered_at d.id a.latest_at a.latest_id) ds
      × (((a.latest_id ≡ 0) × (a.latest_at ≡ 0))
          ⊎ (any (λ d. str_eq d.guid g && d.id == a.latest_id && d.delivered_at == a.latest_at) ds
              ≡ true))
unfolding group lookup
group_lem g ds h p =
    let s = of_guid-IsSummary g none ds p (λ z. refl) in
    rw (group_from-lookup g [] ds h) (s.success_is, s.dominates, s.among)

-- ===== src/Recovery/Decide.antt =====
-- internal/recovery/decide.go: the attempts of a scan, by GUID. Times are nanoseconds since Go's zero
-- `Time`; GitHub's delivery ids are positive, and 0 stands for no attempt yet.
pub mod Latest
use antwatcher.Prelude.{
  ℕ, ◌+◌, ◌≤◌, ◌<◌, ◌≡◌, refl, ◌≢◌, ◌⊎◌, inl, inr, Bool, true, false, ◌&&◌, ◌||◌, Option, none,
  some, List, [], ◌∷◌, String, arith, ltb, leb, ◌==◌, str_eq, eq_iff, if◌then◌else◌, any, All,
  Bool-cases,
}
use antwatcher.Prelude.Dict.{lookup, insert}

-- ghclient.Delivery
pub record Delivery : Type 0 where
  pub id : ℕ
  pub guid : String
  pub delivered_at : ℕ
  pub status_code : ℕ

-- Delivery.Succeeded
unfoldable pub succeeded : Delivery → Bool
succeeded d = leb 200 d.status_code && leb d.status_code 299

pub record Attempts : Type 0 where
  pub latest_id : ℕ
  pub latest_at : ℕ
  pub success : Bool

abbrev pub no_attempts : Attempts
no_attempts = record { latest_id = 0; latest_at = 0; success = false }

-- `out[d.GUID]`: the zero value where the key is missing.
abbrev pub or_zero : Option Attempts → Attempts
or_zero none = no_attempts
or_zero (some a) = a

-- The test that makes an attempt the latest one.
abbrev pub is_later : Delivery → Attempts → Bool
is_later d a =
    a.latest_id == 0
    || ltb a.latest_at d.delivered_at
    || (d.delivered_at == a.latest_at && ltb a.latest_id d.id)

-- One round of the loop on the attempts of its GUID.
unfoldable pub add_attempt : Delivery → Attempts → Attempts
unfolding succeeded
add_attempt d a = record {
  latest_id = if is_later d a then d.id else a.latest_id;
  latest_at = if is_later d a then d.delivered_at else a.latest_at;
  success = a.success || succeeded d;
}

-- The loop of group, from the map `out` on.
unfoldable pub group_from : List (String × Attempts) → List Delivery → List (String × Attempts)
unfolding add_attempt
group_from out [] = out
group_from out (d ∷ ds) =
    group_from
      (if str_eq d.guid ""
        then out
        else insert d.guid (add_attempt d (or_zero (lookup d.guid out))) out)
      ds

-- group
unfoldable pub group : List Delivery → List (String × Attempts)
unfolding group_from
group ds = group_from [] ds

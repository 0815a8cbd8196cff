-- ===== src/Github/Targets.antt =====
-- internal/ghclient/client.go: a target from the configuration, and its text.
use Prim.Native.Char.{code}
use antwatcher.Prelude.{
  ℕ, ◌≡◌, ◌≢◌, ◌⊎◌, inl, inr, refl, false, not, ◌||◌, Option, none, some, String, ◌+++◌, arith,
  ◌==◌, if◌then◌else◌, str_eq, eq_iff, quoted, is_some, Bool-cases,
}
use antwatcher.Prelude.Decimal.{itoa}
use antwatcher.Prelude.Errors.{message, Result, ok, err}
use antwatcher.Recovery.State.{Target}
use antwatcher.Recovery.Scan.{name, is_org}

-- config.RecoveryTarget
pub record TargetConfig : Type 0 where
  pub repo : String
  pub org : String
  pub hook_id : ℕ

-- strings.Cut at the first "/".
unfoldable pub cut : String → Option (String × String)
cut String.[] = none
cut (String.◌∷◌ c s) =
    let rest = cut s in
    if code c == b'/'
    then some (String.[], s)
    else elim rest [ none ↦ none | some (before, after) ↦ some (String.◌∷◌ c before, after) ]

-- The owner and the name of a "owner/name" repository.
unfoldable pub split_repo : Option (String × String) → Option (String × String)
unfolding cut
split_repo none = none
split_repo (some (owner, repo)) =
    if str_eq owner "" || str_eq repo "" || is_some (cut repo) then none else some (owner, repo)

-- The last check of TargetFromConfig.
unfoldable pub one_of : Target → Result Target
one_of t =
    if (if is_org t then not (str_eq t.repo "") else str_eq t.repo "")
    then err (message "ghclient: target needs exactly one of repo or org")
    else ok t

unfoldable pub with_repo : TargetConfig → Option (String × String) → Result Target
unfolding one_of
with_repo c none =
    err (message ("ghclient: repo must be \"owner/name\" (got " +++ quoted c.repo +++ ")"))
with_repo c (some (owner, repo)) =
    one_of (record { owner = owner; repo = repo; org = c.org; hook_id = c.hook_id })

-- TargetFromConfig
unfoldable pub target_from_config : TargetConfig → Result Target
unfolding split_repo with_repo
target_from_config c =
    if str_eq c.repo ""
    then one_of (record { owner = ""; repo = ""; org = c.org; hook_id = c.hook_id })
    else with_repo c (split_repo (cut c.repo))

-- Target.String
unfoldable pub target_text : Target → String
unfolding name
target_text t = if t.hook_id == 0 then name t else name t +++ "#" +++ itoa t.hook_id

-- What a target of the configuration is: the hook of one repository, with an owner and a name that has no
-- "/", or of one organisation.
pub record IsTargetOf (c : TargetConfig) (t : Target) : Type 0 where
  pub kept : (t.org ≡ c.org) × (t.hook_id ≡ c.hook_id)
  pub one :
      ((t.org ≡ "")
        × (t.owner ≢ "")
        × (t.repo ≢ "")
        × (cut t.repo ≡ none)
        × (cut c.repo ≡ some (t.owner, t.repo)))
      ⊎ ((t.org ≢ "") × (t.owner ≡ "") × (t.repo ≡ "") × (c.repo ≡ ""))

one_of-ok :
    (u t : Target)
    → one_of u ≡ ok t
    → (t ≡ u) × ((if is_org u then not (str_eq u.repo "") else str_eq u.repo "") ≡ false)
unfolding one_of
one_of-ok u t h = ground arith

with_repo-IsTargetOf :
    (c : TargetConfig) (t : Target) (o : Option (String × String))
    → c.repo ≢ ""
    → cut c.repo ≡ o
    → with_repo c (split_repo o) ≡ ok t
    → IsTargetOf c t
unfolding with_repo split_repo one_of
with_repo-IsTargetOf c t none r e h = absurd (cc)
with_repo-IsTargetOf c t (some (owner, repo)) r e h = ground (
  arith,
  eq_iff owner "",
  eq_iff repo "",
  eq_iff c.org "",
  one_of-ok (record { owner = owner; repo = repo; org = c.org; hook_id = c.hook_id }) t,
)

org_target :
    (c : TargetConfig) (t : Target)
    → c.repo ≡ ""
    → one_of (record { owner = ""; repo = ""; org = c.org; hook_id = c.hook_id }) ≡ ok t
    → IsTargetOf c t
unfolding one_of
org_target c t e h = ground (
  arith,
  eq_iff c.org "",
  one_of-ok (record { owner = ""; repo = ""; org = c.org; hook_id = c.hook_id }) t,
)

-- TargetFromConfig accepts only the hook of one organisation, or of one repository written as an owner and a name with
-- exactly one "/" between them, and keeps the organisation and the hook id as they are.
pub target_from_config_sound :
    (c : TargetConfig) (t : Target) → target_from_config c ≡ ok t → IsTargetOf c t
unfolding target_from_config
target_from_config_sound c t h = elim (Bool-cases (str_eq c.repo "")) [
  | inl e ↦ org_target c t ((eq_iff c.repo "").0 e) (rw e at h)
  | inr e ↦
      with_repo-IsTargetOf c t (cut c.repo) (ground (arith, eq_iff c.repo "")) refl (rw e at h)
]

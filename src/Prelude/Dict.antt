-- ===== src/Prelude/Dict.antt =====
-- Go's `map[string]Value` as an association list with its keys compared as texts.
use antwatcher.Prelude.{
  suc, ◌≤◌, ◌≡◌, refl, Option, none, some, List, [], ◌∷◌, String, arith, str_eq, eq_iff,
  if◌then◌else◌, is_some, length, Bool, true, All, Bool-cases, inl, inr,
}

module _ {ℓ} {Value : Type ℓ} where
  unfoldable pub lookup : String → List (String × Value) → Option Value
  lookup key [] = none
  lookup key ((other, val) ∷ entries) = if str_eq other key then some val else lookup key entries

  -- m[key] = val
  unfoldable pub insert : String → Value → List (String × Value) → List (String × Value)
  insert key val [] = (key, val) ∷ []
  insert key val ((other, old) ∷ entries) =
      if str_eq other key then (key, val) ∷ entries else (other, old) ∷ insert key val entries

  -- delete(entries, key)
  unfoldable pub erase : String → List (String × Value) → List (String × Value)
  erase key [] = []
  erase key ((other, val) ∷ entries) =
      let rest = erase key entries in if str_eq other key then rest else (other, val) ∷ rest

  pub lookup-insert :
      (key other : String) (val : Value) (entries : List (String × Value))
      → lookup other (insert key val entries)
        ≡ (if str_eq key other then some val else lookup other entries)
  unfolding lookup insert
  lookup-insert key other val [] = refl
  lookup-insert key other val ((own, old) ∷ entries) = ground (
    arith,
    eq_iff key other,
    eq_iff own key,
    eq_iff own other,
    lookup-insert key other val entries,
  )

  pub lookup-erase :
      (key other : String) (entries : List (String × Value))
      → lookup other (erase key entries) ≡ (if str_eq key other then none else lookup other entries)
  unfolding lookup erase
  lookup-erase key other [] = ground arith
  lookup-erase key other ((own, old) ∷ entries) =
      ground
        (arith, eq_iff key other, eq_iff own key, eq_iff own other, lookup-erase key other entries)

  pub length-insert :
      (key : String) (val : Value) (entries : List (String × Value))
      → length (insert key val entries)
        ≡ (if is_some (lookup key entries) then length entries else suc (length entries))
  unfolding lookup insert
  length-insert key val [] = refl
  length-insert key val ((other, old) ∷ entries) = ground (arith, length-insert key val entries)

  pub length-erase-le :
      (key : String) (entries : List (String × Value)) → length (erase key entries) ≤ length entries
  unfolding erase
  length-erase-le key [] = omega arith
  length-erase-le key ((other, old) ∷ entries) = ground (arith, length-erase-le key entries)

  -- No key occurs twice.
  abbrev pub IsDict : List (String × Value) → Type ℓ
  IsDict [] = Unit
  IsDict ((key, val) ∷ entries) = (lookup key entries ≡ none) × IsDict entries

  pub insert-IsDict :
      (key : String) (val : Value) (entries : List (String × Value))
      → IsDict entries
      → IsDict (insert key val entries)
  unfolding lookup insert
  insert-IsDict key val [] d = (refl, tt)
  insert-IsDict key val ((other, old) ∷ entries) (fresh, d) = ground (
    arith,
    eq_iff other key,
    eq_iff key other,
    lookup-insert key other val entries,
    insert-IsDict key val entries d,
  )

  pub erase-IsDict :
      (key : String) (entries : List (String × Value)) → IsDict entries → IsDict (erase key entries)
  unfolding lookup erase
  erase-IsDict key [] d = tt
  erase-IsDict key ((other, old) ∷ entries) (fresh, d) = ground (
    arith,
    eq_iff other key,
    eq_iff key other,
    lookup-erase key other entries,
    erase-IsDict key entries d,
  )

  pub erase_absent :
      (key : String) (entries : List (String × Value))
      → lookup key entries ≡ none
      → erase key entries ≡ entries
  unfolding lookup erase
  erase_absent key [] h = refl
  erase_absent key ((other, old) ∷ entries) h = ground (arith, erase_absent key entries)

  pub length-erase :
      (key : String) (val : Value) (entries : List (String × Value))
      → IsDict entries
      → lookup key entries ≡ some val
      → suc (length (erase key entries)) ≡ length entries
  unfolding lookup erase
  length-erase key val [] d h = ground arith
  length-erase key val ((other, old) ∷ entries) (fresh, d) h =
      ground (arith, eq_iff other key, erase_absent key entries, length-erase key val entries)

  abbrev pub keep_if : (Value → Bool) → Option Value → Option Value
  keep_if p none = none
  keep_if p (some val) = if p val then some val else none

  -- The entries whose values pass a test.
  unfoldable pub filter_values : (Value → Bool) → List (String × Value) → List (String × Value)
  filter_values p [] = []
  filter_values p ((key, val) ∷ entries) =
      let rest = filter_values p entries in if p val then (key, val) ∷ rest else rest

  pub lookup-filter_values :
      (p : Value → Bool) (key : String) (entries : List (String × Value))
      → IsDict entries
      → lookup key (filter_values p entries) ≡ keep_if p (lookup key entries)
  unfolding lookup filter_values
  lookup-filter_values p key [] d = refl
  lookup-filter_values p key ((other, val) ∷ entries) (fresh, d) =
      ground (arith, eq_iff other key, lookup-filter_values p key entries)

  pub filter_values-IsDict :
      (p : Value → Bool) (entries : List (String × Value))
      → IsDict entries
      → IsDict (filter_values p entries)
  unfolding filter_values
  filter_values-IsDict p [] d = tt
  filter_values-IsDict p ((other, val) ∷ entries) (fresh, d) =
      ground (arith, lookup-filter_values p other entries, filter_values-IsDict p entries d)

  pub filter_values-All :
      (p : Value → Bool) (entries : List (String × Value))
      → All (λ e. p e.1 ≡ true) (filter_values p entries)
  unfolding filter_values
  filter_values-All p [] = tt
  filter_values-All p ((other, val) ∷ entries) = elim (Bool-cases (p val)) [
    | inl e ↦ rw e (e, filter_values-All p entries)
    | inr e ↦ rw e (filter_values-All p entries)
  ]

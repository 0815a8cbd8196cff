-- ===== src/Forward/Block/Described.antt =====
-- When describe succeeds.
use mathlib.Core.Path.{subst}
use antwatcher.Prelude.{
  ◌≡◌, ◌≢◌, refl, sym, ap, ◌∙◌, true, false, not, ◌&&◌, Option, none, some, List, [], ◌∷◌, String,
  arith, str_eq, eq_iff, All, All-append, All-split, map, Bool-cases, inl, inr, is_some,
}
use antwatcher.Prelude.Dict.{lookup}
use antwatcher.Prelude.Errors.{Err, join, join_nil, Result, ok, err}
use antwatcher.Prelude.Sort.{sort, sort-All, All-sort}
use antwatcher.Sink.Registry.{before}
use antwatcher.Forward.Block.{
  Node, RawConfig, block_or_zero, block_names, described_names, typed_or_err, describe_with,
  describe_all, unless_wrong, describe,
}

module _ {D : Type 0} (reg : List (String × (Node → Result D))) (rc : RawConfig) where
  -- A bus driver of this name is registered, and describes the block of this name, or the missing block.
  abbrev pub IsDescribed : String → Type 0
  IsDescribed name =
      (d : Node → Result D) × (typed : D) × (lookup name reg ≡ some d)
      × (d (block_or_zero (lookup name rc.drivers)) ≡ ok typed)

  typed_none :
      (name : String) (r : Result D) (rest : List Err × List (String × D))
      → (typed_or_err name r rest).0 ≡ []
      → (rest.0 ≡ []) × ((typed : D) × (r ≡ ok typed))
  typed_none name (err e) (errs, out) h = absurd (cc)
  typed_none name (ok typed) (errs, out) h = (h, (typed, refl))

  with_none :
      (name : String) (o : Option (Node → Result D)) (rest : List Err × List (String × D))
      → lookup name reg ≡ o
      → (describe_with reg rc name o rest).0 ≡ []
      → (rest.0 ≡ []) × IsDescribed name
  with_none name none (errs, out) e h = absurd (cc)
  with_none name (some d) rest e h =
      let (others, (typed, t)) =
        typed_none name (d (block_or_zero (lookup name rc.drivers))) rest h in
      (others, (d, typed, e, t))

  none_wrong : (names : List String) → (describe_all reg rc names).0 ≡ [] → All IsDescribed names
  unfolding describe_all
  none_wrong [] h = tt
  none_wrong (name ∷ names) h =
      let (others, own) = with_none name (lookup name reg) (describe_all reg rc names) refl h in
      (own, none_wrong names others)

  typed_adds_none :
      (name : String) (r : Result D) (typed : D) (rest : List Err × List (String × D))
      → r ≡ ok typed
      → rest.0 ≡ []
      → (typed_or_err name r rest).0 ≡ []
  typed_adds_none name (err e) typed (errs, out) h n = absurd (cc)
  typed_adds_none name (ok other) typed (errs, out) h n = n

  with_adds_none :
      (name : String) (o : Option (Node → Result D)) (rest : List Err × List (String × D))
      → lookup name reg ≡ o
      → IsDescribed name
      → rest.0 ≡ []
      → (describe_with reg rc name o rest).0 ≡ []
  with_adds_none name none rest e (d, typed, l, t) n = absurd (cc (sym e ∙ l))
  with_adds_none name (some f) rest e (d, typed, l, t) n =
      let same : f ≡ d = cc (sym e ∙ l) in
      typed_adds_none name (f (block_or_zero (lookup name rc.drivers))) typed rest
        (ap (λ g. g (block_or_zero (lookup name rc.drivers))) same ∙ t) n

  all_right : (names : List String) → All IsDescribed names → (describe_all reg rc names).0 ≡ []
  unfolding describe_all
  all_right [] h = refl
  all_right (name ∷ names) (own, others) =
      with_adds_none name (lookup name reg) (describe_all reg rc names) refl own
        (all_right names others)

  no_error :
      (o : Option Err) (out blocks : List (String × D)) → unless_wrong o out ≡ ok blocks → o ≡ none
  no_error none out blocks h = refl
  no_error (some e) out blocks h = absurd (cc)

  pub describe_sound :
      (blocks : List (String × D))
      → describe reg rc ≡ ok blocks
      → All IsDescribed (described_names rc)
  unfolding describe
  describe_sound blocks h =
      let all = describe_all reg rc (sort before (described_names rc)) in
      All-sort before IsDescribed (described_names rc) (
        none_wrong (sort before (described_names rc))
          (join_nil all.0 (no_error (join all.0) all.1 blocks h)))

  pub describe_complete :
      All IsDescribed (described_names rc)
      → (blocks : List (String × D)) × (describe reg rc ≡ ok blocks)
  unfolding describe join
  describe_complete h =
      let all = describe_all reg rc (sort before (described_names rc)) in
      let right =
        all_right (sort before (described_names rc))
          (sort-All before IsDescribed (described_names rc) h) in
      (all.1, ap (λ es. unless_wrong (join es) all.1) right)

  found_block :
      (blocks : List (String × Node))
      → is_some (lookup rc.driver blocks) ≡ true
      → All IsDescribed (map (λ (name, block). name) blocks)
      → IsDescribed rc.driver
  unfolding lookup
  found_block [] h a = absurd (cc)
  found_block ((name, block) ∷ blocks) h (own, others) = elim (Bool-cases (str_eq name rc.driver)) [
    | inl same ↦ subst (λ n. IsDescribed n) ((eq_iff name rc.driver).0 same) own
    | inr other ↦ found_block blocks (rw other at h) others
  ]

  -- The names that describe looks up are those of the blocks and of the selected driver.
  pub block_names-IsDescribed :
      rc.driver ≢ ""
      → All IsDescribed (described_names rc)
      → All IsDescribed (block_names rc) × IsDescribed rc.driver
  unfolding described_names
  block_names-IsDescribed selected h =
      let named : str_eq rc.driver "" ≡ false = ground (arith, eq_iff rc.driver "") in
      elim (Bool-cases (is_some (lookup rc.driver rc.drivers))) [
        | inl present ↦
            let (blocks, rest) = All-split IsDescribed (block_names rc) _ h in
            (blocks, found_block rc.drivers present blocks)
        | inr absent ↦
            let (blocks, own) =
              All-split IsDescribed (block_names rc) (rc.driver ∷ []) (rw (named, absent) at h) in
            (blocks, own.0)
      ]

  pub described_names-IsDescribed :
      All IsDescribed (block_names rc)
      → IsDescribed rc.driver
      → All IsDescribed (described_names rc)
  unfolding described_names
  described_names-IsDescribed blocks own =
      elim (Bool-cases (not (str_eq rc.driver "") && not (is_some (lookup rc.driver rc.drivers)))) [
        | inl absent ↦
            rw absent (All-append IsDescribed (block_names rc) (rc.driver ∷ []) blocks (own, tt))
        | inr present ↦ rw present (All-append IsDescribed (block_names rc) [] blocks tt)
      ]

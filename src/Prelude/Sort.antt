-- ===== src/Prelude/Sort.antt =====
-- sort.Slice: the elements of a list in the order of a comparison.
use mathlib.Core.List.{Perm}
use mathlib.Core.List.Perm
use antwatcher.Prelude.{
  ◌≡◌, Bool, true, false, List, [], ◌∷◌, arith, Bool-cases, inl, inr, if◌then◌else◌, All, length,
  suc,
}

module _ {ℓ} {A : Type ℓ} (less : A → A → Bool) where
  unfoldable pub insert_sorted : A → List A → List A
  insert_sorted e [] = e ∷ []
  insert_sorted e (f ∷ l) = let rest = insert_sorted e l in if less f e then f ∷ rest else e ∷ f ∷ l

  unfoldable pub sort : List A → List A
  unfolding insert_sorted
  sort [] = []
  sort (e ∷ l) = insert_sorted e (sort l)

  -- No element is less than the one in front of it.
  abbrev pub IsSorted : List A → Type 0
  IsSorted [] = Unit
  IsSorted (e ∷ []) = Unit
  IsSorted (e ∷ f ∷ l) = (less f e ≡ false) × IsSorted (f ∷ l)

  insert_sorted-perm : (e : A) (l : List A) → Perm (insert_sorted e l) (e ∷ l)
  unfolding insert_sorted
  insert_sorted-perm e [] = Perm.refl (e ∷ [])
  insert_sorted-perm e (f ∷ l) = elim (Bool-cases (less f e)) [
    | inl p ↦ rw p (Perm.trans (Perm.cons f (insert_sorted-perm e l)) (Perm.swap e f l))
    | inr p ↦ rw p (Perm.refl (e ∷ f ∷ l))
  ]

  pub sort-perm : (l : List A) → Perm (sort l) l
  unfolding sort
  sort-perm [] = Perm.refl []
  sort-perm (e ∷ l) = Perm.trans (insert_sorted-perm e (sort l)) (Perm.cons e (sort-perm l))

  length-insert_sorted : (e : A) (l : List A) → length (insert_sorted e l) ≡ suc (length l)
  unfolding insert_sorted
  length-insert_sorted e [] = omega arith
  length-insert_sorted e (f ∷ l) = ground (arith, length-insert_sorted e l)

  pub length-sort : (l : List A) → length (sort l) ≡ length l
  unfolding sort
  length-sort [] = omega arith
  length-sort (e ∷ l) = omega (arith, length-insert_sorted e (sort l), length-sort l)

  module _ (asymm : (a b : A) → less a b ≡ true → less b a ≡ false) where
    insert_sorted-IsSorted : (e : A) (l : List A) → IsSorted l → IsSorted (insert_sorted e l)
    unfolding insert_sorted
    insert_sorted-IsSorted e [] h = tt
    insert_sorted-IsSorted e (f ∷ []) h = ground (arith, asymm f e)
    insert_sorted-IsSorted e (f ∷ g ∷ l) h =
        ground (arith, asymm f e, asymm g e, insert_sorted-IsSorted e (g ∷ l))

    pub sort-IsSorted : (l : List A) → IsSorted (sort l)
    unfolding sort
    sort-IsSorted [] = tt
    sort-IsSorted (e ∷ l) = insert_sorted-IsSorted e (sort l) (sort-IsSorted l)

module _ {ℓ κ} {A : Type ℓ} (less : A → A → Bool) (P : A → Type κ) where
  insert_sorted-All : (e : A) (l : List A) → P e → All P l → All P (insert_sorted less e l)
  unfolding insert_sorted
  insert_sorted-All e [] p h = (p, tt)
  insert_sorted-All e (f ∷ l) p (q, h) = elim (Bool-cases (less f e)) [
    | inl x ↦ rw x (q, insert_sorted-All e l p h)
    | inr x ↦ rw x (p, (q, h))
  ]

  pub sort-All : (l : List A) → All P l → All P (sort less l)
  unfolding sort
  sort-All [] h = tt
  sort-All (e ∷ l) (p, h) = insert_sorted-All e (sort less l) p (sort-All l h)

  All-insert_sorted : (e : A) (l : List A) → All P (insert_sorted less e l) → P e × All P l
  unfolding insert_sorted
  All-insert_sorted e [] h = h
  All-insert_sorted e (f ∷ l) h = elim (Bool-cases (less f e)) [
    | inl x ↦
        let (q, rest) : P f × All P (insert_sorted less e l) = rw x at h in
        let (p, others) = All-insert_sorted e l rest in (p, (q, others))
    | inr x ↦ rw x at h
  ]

  pub All-sort : (l : List A) → All P (sort less l) → All P l
  unfolding sort
  All-sort [] h = tt
  All-sort (e ∷ l) h = let (p, rest) = All-insert_sorted e (sort less l) h in (p, All-sort l rest)

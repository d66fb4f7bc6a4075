-- ===== src/Prelude/Sets.antt =====
-- Sets as lists without repetitions, under sorting.
use mathlib.Core.Path.{◌≡◌, refl, ◌∙◌}
use mathlib.Core.Logic.{inl, inr}
use mathlib.Core.Bool.{Bool, false, ◌||◌}
use mathlib.Core.List.{List, [], ◌∷◌}
use native.Mathlib.Omega.{arith}
use vocabulary_micro.Prelude.Tests.{Bool-cases}
use vocabulary_micro.Prelude.Equality.{HasEquality, ◌==◌, contains, Distinct}
use vocabulary_micro.Prelude.Sorting.{insert_sorted, sort}

module _ {ℓ} {A : Type ℓ} ⦃e : HasEquality A⦄ (before : A → A → Bool) where
  contains-insert_sorted :
      (x : A) (xs : List A) (a : A)
      → contains (insert_sorted before x xs) a ≡ (x == a || contains xs a)
  unfolding contains insert_sorted
  contains-insert_sorted x [] a = refl
  contains-insert_sorted x (y ∷ xs) a = ground (arith, contains-insert_sorted x xs a)

  pub contains-sort : (xs : List A) (a : A) → contains (sort before xs) a ≡ contains xs a
  unfolding contains sort
  contains-sort [] a = refl
  contains-sort (x ∷ xs) a =
      ground (arith, contains-insert_sorted x (sort before xs) a, contains-sort xs a)

  insert_sorted-Distinct :
      (x : A) (xs : List A)
      → contains xs x ≡ false
      → Distinct xs
      → Distinct (insert_sorted before x xs)
  unfolding contains insert_sorted
  insert_sorted-Distinct x [] h d = (refl, tt)
  insert_sorted-Distinct x (y ∷ xs) h d = elim (Bool-cases (before y x)) [
    | inl b ↦ rw b (
      ground (arith, contains-insert_sorted x xs y, e.same_iff x y, e.same_iff y x),
      insert_sorted-Distinct x xs (ground (arith, h)) d.1,
    )
    | inr b ↦ rw b (h, d)
  ]

  pub sort-Distinct : (xs : List A) → Distinct xs → Distinct (sort before xs)
  unfolding sort
  sort-Distinct [] d = tt
  sort-Distinct (x ∷ xs) d =
      insert_sorted-Distinct x (sort before xs) (contains-sort xs x ∙ d.0) (sort-Distinct xs d.1)

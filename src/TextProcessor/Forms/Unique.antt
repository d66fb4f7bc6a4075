-- ===== src/TextProcessor/Forms/Unique.antt =====
-- Which items `unique` keeps.
use vocabulary_micro.Prelude.{
  ◌≡◌, refl, All, inl, inr, true, false, ◌||◌, List, [], ◌∷◌, arith, HasEquality, Bool-cases,
  contains, Distinct, beq_refl,
}
use vocabulary_micro.TextProcessor.Forms.{unique, unique_from}

-- `xs` in the order of `ys`, with some items left out.
pub data Subsequence {ℓ} {A : Type ℓ} : List A → List A → Type ℓ where
  end : Subsequence [] []
  keep : {xs ys : List A} (x : A) → Subsequence xs ys → Subsequence (x ∷ xs) (x ∷ ys)
  skip : {xs ys : List A} (y : A) → Subsequence xs ys → Subsequence xs (y ∷ ys)

module _ {ℓ} {A : Type ℓ} ⦃e : HasEquality A⦄ where
  unique_from-fresh :
      (seen : List A) (x : A) (xs : List A)
      → contains seen x ≡ false
      → unique_from seen (x ∷ xs) ≡ x ∷ unique_from (x ∷ seen) xs
  unfolding unique_from
  unique_from-fresh seen x xs h = rw h

  unique_from-again :
      (seen : List A) (x : A) (xs : List A)
      → contains seen x ≡ true
      → unique_from seen (x ∷ xs) ≡ unique_from seen xs
  unfolding unique_from
  unique_from-again seen x xs h = rw h

  -- What is kept is what the list holds and `seen` does not.
  contains-unique_from :
      (seen xs : List A) (a : A)
      → (contains seen a || contains (unique_from seen xs) a) ≡ (contains seen a || contains xs a)
  unfolding contains
  contains-unique_from seen [] a = unfold unique_from in refl
  contains-unique_from seen (x ∷ xs) a = elim (Bool-cases (contains seen x)) [
    | inl h ↦
        rw (unique_from-again seen x xs h)
          (ground (arith, contains-unique_from seen xs a, e.same_iff x a))
    | inr h ↦
        rw (unique_from-fresh seen x xs h) (ground (arith, contains-unique_from (x ∷ seen) xs a))
  ]

  unique_from-avoids :
      (seen xs : List A) (a : A) → contains seen a ≡ true → contains (unique_from seen xs) a ≡ false
  unfolding contains
  unique_from-avoids seen [] a k = unfold unique_from in refl
  unique_from-avoids seen (x ∷ xs) a k = elim (Bool-cases (contains seen x)) [
    | inl h ↦ rw (unique_from-again seen x xs h) (unique_from-avoids seen xs a k)
    | inr h ↦
        rw (unique_from-fresh seen x xs h)
          (ground (arith, unique_from-avoids (x ∷ seen) xs a, e.same_iff x a))
  ]

  unique_from-Distinct : (seen xs : List A) → Distinct (unique_from seen xs)
  unique_from-Distinct seen [] = unfold unique_from in tt
  unique_from-Distinct seen (x ∷ xs) = elim (Bool-cases (contains seen x)) [
    | inl h ↦ rw (unique_from-again seen x xs h) (unique_from-Distinct seen xs)
    | inr h ↦ rw (unique_from-fresh seen x xs h) (
      unique_from-avoids (x ∷ seen) xs x (unfold contains in rw (beq_refl x)),
      unique_from-Distinct (x ∷ seen) xs,
    )
  ]

  unique_from-Subsequence : (seen xs : List A) → Subsequence (unique_from seen xs) xs
  unique_from-Subsequence seen [] = unfold unique_from in end
  unique_from-Subsequence seen (x ∷ xs) = elim (Bool-cases (contains seen x)) [
    | inl h ↦ rw (unique_from-again seen x xs h) (skip x (unique_from-Subsequence seen xs))
    | inr h ↦ rw (unique_from-fresh seen x xs h) (keep x (unique_from-Subsequence (x ∷ seen) xs))
  ]

  -- The result holds no item twice, holds an item exactly when the list does, and keeps the
  -- list's order.
  unique_lem :
      (xs : List A)
      → Distinct (unique xs)
        × ((a : A) → contains (unique xs) a ≡ contains xs a)
        × Subsequence (unique xs) xs
  unfolding unique
  unique_lem xs = (
    unique_from-Distinct [] xs,
    λ a. unfold contains in contains-unique_from [] xs a,
    unique_from-Subsequence [] xs,
  )

  pub unique-Distinct : (xs : List A) → Distinct (unique xs)
  unique-Distinct xs = (unique_lem xs).0

  pub contains-unique : (xs : List A) (a : A) → contains (unique xs) a ≡ contains xs a
  contains-unique xs a = (unique_lem xs).1 a

  All-Subsequence {κ} : (P : A → Type κ) {xs ys : List A} → Subsequence xs ys → All P ys → All P xs
  All-Subsequence P end h = tt
  All-Subsequence P (keep x s) h = (h.0, All-Subsequence P s h.1)
  All-Subsequence P (skip y s) h = All-Subsequence P s h.1

  pub All-unique {κ} : (P : A → Type κ) (xs : List A) → All P xs → All P (unique xs)
  All-unique P xs h = All-Subsequence P (unique_lem xs).2 h

-- ===== src/LruCache/Window.antt =====
-- The last elements of a list, which a bounded cache keeps.
use vocabulary_micro.Prelude.{
  ℕ, suc, ◌-◌, ◌≤◌, ◌≡◌, refl, sym, ap, ◌∙◌, ◌⊎◌, inl, inr, List, [], ◌∷◌, ◌++◌, arith, leb,
  Bool-cases, length, drop, length-append, nat_equality, list_equality, pair_equality,
}

module _ {ℓ} {A : Type ℓ} where
  -- The last `n` elements.
  abbrev pub last : ℕ → List A → List A
  last n xs = drop (length xs - n) xs

  pub last_cons : (n : ℕ) (x : A) (xs : List A) → n ≤ length xs → last n (x ∷ xs) ≡ last n xs
  last_cons n x xs h = let e : suc (length xs) - n ≡ suc (length xs - n) = omega arith in rw e

  pub last_all : (n : ℕ) (xs : List A) → length xs ≤ n → last n xs ≡ xs
  last_all n xs h = let e : length xs - n ≡ 0 = omega arith in rw e

  pub last-append : (n : ℕ) (xs ys : List A) → n ≤ length ys → last n (xs ++ ys) ≡ last n ys
  last-append n [] ys h = refl
  last-append n (x ∷ xs) ys h =
      last_cons n x (xs ++ ys) (omega (arith, length-append xs ys)) ∙ last-append n xs ys h

  pub length-last : (n : ℕ) (xs : List A) → n ≤ length xs → length (last n xs) ≡ n
  length-last n [] h = ap length (last_all n [] (omega arith)) ∙ omega arith
  length-last n (x ∷ xs) h = elim (Bool-cases (leb n (length xs))) [
    | inl b ↦ ap length (last_cons n x xs (ground arith)) ∙ length-last n xs (ground arith)
    | inr b ↦ ap length (last_all n (x ∷ xs) (ground arith)) ∙ ground arith
  ]

  -- A list is its last elements behind others, of which there are some only if these are `n`.
  pub split_last :
      (n : ℕ) (xs : List A)
      → (old : List A) × (xs ≡ old ++ last n xs) × ((old ≡ []) ⊎ (n ≤ length (last n xs)))
  split_last n [] = ([], sym (last_all n [] (omega arith)), inl refl)
  split_last n (x ∷ xs) = elim (Bool-cases (leb n (length xs))) [
    | inl b ↦
        let (old, e, s) = split_last n xs in
        let shorter = last_cons n x xs (ground arith) in
        (
          x ∷ old,
          ap (◌∷◌ x) (e ∙ ap (λ l. old ++ l) (sym shorter)),
          inr (ground (arith, length-last n (x ∷ xs))),
        )
    | inr b ↦ ([], sym (last_all n (x ∷ xs) (ground arith)), inl refl)
  ]

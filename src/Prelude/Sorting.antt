-- ===== src/Prelude/Sorting.antt =====
-- Python's stable `sorted`, by insertion, for a key that is given by its strict order.
use mathlib.Core.Path.{◌≡◌, refl}
use mathlib.Core.Logic.{inl, inr}
use Prim.Native.Nat.{ℕ}
use mathlib.Core.Bool.{Bool, true, false, ◌&&◌, ◌||◌, not}
use mathlib.Core.List.{List, [], ◌∷◌, map, Perm}
use mathlib.Core.List.Perm
use native.Mathlib.Omega.{arith}
use vocabulary_micro.Prelude.Tests.{if◌then◌else◌, Bool-cases, ltb}
use vocabulary_micro.Prelude.Lists.{any, All, All-map, All-of_map}

-- A strict order of keys in which being neither before nor behind is an equivalence.
pub record IsWeakOrder {ℓ} {A : Type ℓ} (before : A → A → Bool) : Type ℓ where
  pub asymmetric : (a b : A) → before a b ≡ true → before b a ≡ false
  pub negative : (a b c : A) → before a b ≡ false → before b c ≡ false → before a c ≡ false

module _ {ℓ} {A : Type ℓ} (before : A → A → Bool) where
  -- `x`, which stands left of the list's elements, goes ahead of its equals.
  unfoldable pub insert_sorted : A → List A → List A
  insert_sorted x [] = x ∷ []
  insert_sorted x (y ∷ ys) = if before y x then y ∷ insert_sorted x ys else x ∷ y ∷ ys

  -- `sorted(xs, key=…)`: `before a b` says that the key of `a` is less than that of `b`.
  unfoldable pub sort : List A → List A
  unfolding insert_sorted
  sort [] = []
  sort (x ∷ xs) = insert_sorted x (sort xs)

  -- No element stands strictly before one to its left.
  abbrev pub IsSorted : List A → Type 0
  IsSorted [] = Unit
  IsSorted (x ∷ xs) = All (λ y. before y x ≡ false) xs × IsSorted xs

  insert_sorted-perm : (x : A) (xs : List A) → Perm (insert_sorted x xs) (x ∷ xs)
  unfolding insert_sorted
  insert_sorted-perm x [] = Perm.refl (x ∷ [])
  insert_sorted-perm x (y ∷ ys) = elim (Bool-cases (before y x)) [
    | inl h ↦ rw h (Perm.trans (Perm.cons y (insert_sorted-perm x ys)) (Perm.swap x y ys))
    | inr h ↦ rw h (Perm.refl (x ∷ y ∷ ys))
  ]

  sort-perm : (xs : List A) → Perm (sort xs) xs
  unfolding sort
  sort-perm [] = Perm.refl []
  sort-perm (x ∷ xs) = Perm.trans (insert_sorted-perm x (sort xs)) (Perm.cons x (sort-perm xs))

  any-insert_sorted :
      (p : A → Bool) (x : A) (xs : List A) → any p (insert_sorted x xs) ≡ (p x || any p xs)
  unfolding insert_sorted
  any-insert_sorted p x [] = refl
  any-insert_sorted p x (y ∷ ys) = ground (arith, any-insert_sorted p x ys)

  pub any-sort : (p : A → Bool) (xs : List A) → any p (sort xs) ≡ any p xs
  unfolding sort
  any-sort p [] = refl
  any-sort p (x ∷ xs) = ground (arith, any-insert_sorted p x (sort xs), any-sort p xs)

  module _ {κ} (P : A → Type κ) where
    pub All-insert_sorted : (x : A) (xs : List A) → P x → All P xs → All P (insert_sorted x xs)
    unfolding insert_sorted
    All-insert_sorted x [] p h = (p, tt)
    All-insert_sorted x (y ∷ ys) p h = elim (Bool-cases (before y x)) [
      | inl b ↦ rw b (h.0, All-insert_sorted x ys p h.1)
      | inr b ↦ rw b (p, h)
    ]

    pub All-sort : (xs : List A) → All P xs → All P (sort xs)
    unfolding sort
    All-sort [] h = tt
    All-sort (x ∷ xs) h = All-insert_sorted x (sort xs) h.0 (All-sort xs h.1)

    All-of_insert_sorted : (x : A) (xs : List A) → All P (insert_sorted x xs) → P x × All P xs
    unfolding insert_sorted
    All-of_insert_sorted x [] h = h
    All-of_insert_sorted x (y ∷ ys) h = elim (Bool-cases (before y x)) [
      | inl b ↦
          let h' : P y × All P (insert_sorted x ys) = rw b at h in
          let k = All-of_insert_sorted x ys h'.1 in (k.0, (h'.0, k.1))
      | inr b ↦ rw b at h
    ]

    pub All-of_sort : (xs : List A) → All P (sort xs) → All P xs
    unfolding sort
    All-of_sort [] h = tt
    All-of_sort (x ∷ xs) h = let k = All-of_insert_sorted x (sort xs) h in (k.0, All-of_sort xs k.1)

  module _ (order : IsWeakOrder before) where
    insert_sorted-IsSorted : (x : A) (xs : List A) → IsSorted xs → IsSorted (insert_sorted x xs)
    unfolding insert_sorted
    insert_sorted-IsSorted x [] h = (tt, tt)
    insert_sorted-IsSorted x (y ∷ ys) h = elim (Bool-cases (before y x)) [
      | inl b ↦ rw b (
        All-insert_sorted (λ z. before z y ≡ false) x ys (order.asymmetric y x b) h.0,
        insert_sorted-IsSorted x ys h.1,
      )
      | inr b ↦ rw b ((b, All-map (λ z k. order.negative z y x k b) ys h.0), h)
    ]

    pub sort-IsSorted : (xs : List A) → IsSorted (sort xs)
    unfolding sort
    sort-IsSorted [] = tt
    sort-IsSorted (x ∷ xs) = insert_sorted-IsSorted x (sort xs) (sort-IsSorted xs)

module _ {ℓ} {A : Type ℓ} where
  -- The order of pairs of keys, compared one after the other.
  unfoldable pub then_by : (A → A → Bool) → (A → A → Bool) → A → A → Bool
  then_by f g a b = f a b || (not (f b a) && g a b)

  pub then_by-IsWeakOrder :
      {f g : A → A → Bool} → IsWeakOrder f → IsWeakOrder g → IsWeakOrder (then_by f g)
  unfolding then_by
  then_by-IsWeakOrder {f} {g} o p = record {
    asymmetric = λ a b h. ground (arith, o.asymmetric a b, o.asymmetric b a, p.asymmetric a b);
    negative = λ a b c h k. ground (
      arith,
      o.negative a b c,
      o.negative c b a,
      o.negative b a c,
      o.negative b c a,
      o.negative c a b,
      o.negative a c b,
      o.asymmetric a b,
      o.asymmetric b c,
      o.asymmetric a c,
      o.asymmetric b a,
      o.asymmetric c b,
      o.asymmetric c a,
      p.negative a b c,
    );
  }

  pub descending-IsWeakOrder : (key : A → ℕ) → IsWeakOrder (λ a b. ltb (key b) (key a))
  descending-IsWeakOrder key = record {
    asymmetric = λ a b h. ground arith;
    negative = λ a b c h k. ground arith;
  }

  pub ascending-IsWeakOrder : (key : A → ℕ) → IsWeakOrder (λ a b. ltb (key a) (key b))
  ascending-IsWeakOrder key = record {
    asymmetric = λ a b h. ground arith;
    negative = λ a b c h k. ground arith;
  }

  pub by_key-IsWeakOrder {κ} :
      {K : Type κ} (before : K → K → Bool) (key : A → K)
      → IsWeakOrder before
      → IsWeakOrder {A = A} (λ a b. before (key a) (key b))
  by_key-IsWeakOrder before key o = record {
    asymmetric = λ a b. o.asymmetric (key a) (key b);
    negative = λ a b c. o.negative (key a) (key b) (key c);
  }

pub IsSorted-map {ℓ κ} :
    {A : Type ℓ} {B : Type κ} (before : B → B → Bool) (f : A → B) (xs : List A)
    → IsSorted (λ a b. before (f a) (f b)) xs
    → IsSorted before (map f xs)
IsSorted-map before f [] h = tt
IsSorted-map before f (x ∷ xs) h =
    (All-of_map (λ y. before y (f x) ≡ false) f xs h.0, IsSorted-map before f xs h.1)

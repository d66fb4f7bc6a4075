-- ===== src/Prelude/Equality.antt =====
-- HasEquality tests as an interface, and Python's sets and dictionaries over it: a set is the list of
-- its elements, a dictionary the list of its items in insertion order.
use Prim.Native.Nat.{ℕ}
use mathlib.Core.Path.{◌≡◌, refl}
use mathlib.Core.Logic.{◌↔◌}
use mathlib.Core.Bool.{Bool, true, false, ◌&&◌, ◌||◌}
use mathlib.Core.Option.{Option, none, some}
use mathlib.Core.List.{List, [], ◌∷◌, ◌++◌}
use native.Mathlib.Omega.{arith}
use vocabulary_micro.Prelude.Tests.{nat_beq, nat_beq_iff, if◌then◌else◌}

-- Types whose `__eq__` is decided, and agrees with equality.
pub record HasEquality {ℓ} (X : Type ℓ) : Type ℓ where
  pub same : X → X → Bool
  pub same_iff : (x y : X) → (same x y ≡ true) ↔ (x ≡ y)

-- Python's `==`
infix 50 ◌==◌
abbrev pub ◌==◌ {ℓ} : {X : Type ℓ} ⦃decided : HasEquality X⦄ → X → X → Bool
◌==◌ ⦃decided⦄ x y = decided.same x y

instance abbrev pub nat_equality : HasEquality ℕ
nat_equality = record { same = nat_beq; same_iff = nat_beq_iff }

module _ {ℓ} {A : Type ℓ} (e : HasEquality A) where
  unfoldable pub list_beq : List A → List A → Bool
  list_beq [] [] = true
  list_beq [] (y ∷ ys) = false
  list_beq (x ∷ xs) [] = false
  list_beq (x ∷ xs) (y ∷ ys) = e.same x y && list_beq xs ys

  pub list_beq_iff : (xs ys : List A) → (list_beq xs ys ≡ true) ↔ (xs ≡ ys)
  unfolding list_beq
  list_beq_iff [] [] = ground arith
  list_beq_iff [] (y ∷ ys) = ground arith
  list_beq_iff (x ∷ xs) [] = ground arith
  list_beq_iff (x ∷ xs) (y ∷ ys) = ground (arith, e.same_iff x y, list_beq_iff xs ys)

instance abbrev pub list_equality {ℓ} : {A : Type ℓ} ⦃e : HasEquality A⦄ → HasEquality (List A)
list_equality ⦃e⦄ = record { same = list_beq e; same_iff = list_beq_iff e }

module _ {ℓ} {A B : Type ℓ} (e : HasEquality A) (d : HasEquality B) where
  unfoldable pub pair_beq : A × B → A × B → Bool
  pair_beq p q = e.same p.0 q.0 && d.same p.1 q.1

  pub pair_beq_iff : (p q : A × B) → (pair_beq p q ≡ true) ↔ (p ≡ q)
  unfolding pair_beq
  pair_beq_iff p q = ground (arith, e.same_iff p.0 q.0, d.same_iff p.1 q.1)

instance abbrev pub pair_equality {ℓ} :
    {A B : Type ℓ} ⦃e : HasEquality A⦄ ⦃d : HasEquality B⦄ → HasEquality (A × B)
pair_equality ⦃e⦄ ⦃d⦄ = record { same = pair_beq e d; same_iff = pair_beq_iff e d }

module _ {ℓ} {A : Type ℓ} ⦃e : HasEquality A⦄ where
  pub beq_refl : (a : A) → (a == a) ≡ true
  beq_refl a = (e.same_iff a a).1 refl

  -- `a in xs`
  unfoldable pub contains : List A → A → Bool
  contains [] a = false
  contains (x ∷ xs) a = x == a || contains xs a

  -- No element occurs twice.
  abbrev pub Distinct : List A → Type 0
  Distinct [] = Unit
  Distinct (x ∷ xs) = (contains xs x ≡ false) × Distinct xs

  pub contains-append :
      (xs ys : List A) (a : A) → contains (xs ++ ys) a ≡ (contains xs a || contains ys a)
  unfolding contains
  contains-append [] ys a = refl
  contains-append (x ∷ xs) ys a = ground (arith, contains-append xs ys a)

  pub Distinct-concat :
      (xs : List A) (a : A) → Distinct xs → contains xs a ≡ false → Distinct (xs ++ a ∷ [])
  unfolding contains
  Distinct-concat [] a d h = (refl, tt)
  Distinct-concat (x ∷ xs) a d h = ground (
    arith,
    contains-append xs (a ∷ []) x,
    Distinct-concat xs a d.1,
    e.same_iff x a,
    e.same_iff a x,
  )

  pub Distinct-append :
      (xs ys : List A)
      → Distinct xs
      → Distinct ys
      → ((a : A) → contains ys a ≡ true → contains xs a ≡ false)
      → Distinct (xs ++ ys)
  unfolding contains
  Distinct-append [] ys d k h = k
  Distinct-append (x ∷ xs) ys d k h = (
    ground (arith, contains-append xs ys x, d.0, h x, beq_refl x),
    Distinct-append xs ys d.1 k (λ a q. ground (arith, h a q)),
  )

abbrev pub all_values {ℓ} : {K V : Type ℓ} → (V → Bool) → List (K × V) → Bool
all_values p [] = true
all_values p ((k, v) ∷ m) = p v && all_values p m

module _ {ℓ} {K V : Type ℓ} ⦃e : HasEquality K⦄ where
  -- `d.get(k)`
  unfoldable pub lookup : List (K × V) → K → Option V
  lookup [] k = none
  lookup ((j, v) ∷ m) k = if j == k then some v else lookup m k

  -- `d.setdefault(k, v)`
  unfoldable pub set_default : List (K × V) → K → V → List (K × V)
  set_default [] k v = (k, v) ∷ []
  set_default ((j, w) ∷ m) k v = if j == k then (j, w) ∷ m else (j, w) ∷ set_default m k v

  lookup-set_default :
      (m : List (K × V)) (k : K) (v : V) (j : K)
      → lookup (set_default m k v) j
        ≡ elim (lookup m j) [ some w ↦ some w | none ↦ if k == j then some v else none ]
  unfolding lookup set_default
  lookup-set_default [] k v j = ground arith
  lookup-set_default ((i, w) ∷ m) k v j =
      ground (arith, e.same_iff i k, e.same_iff i j, e.same_iff k j, lookup-set_default m k v j)

  -- What a lookup finds passes a test that every value passes.
  pub lookup-all :
      (p : V → Bool) (m : List (K × V)) (k : K) (v : V)
      → all_values p m ≡ true
      → lookup m k ≡ some v
      → p v ≡ true
  unfolding lookup
  lookup-all p [] k v h f = ground arith
  lookup-all p ((j, w) ∷ m) k v h f = ground (arith, lookup-all p m k v)

  -- `d[k] = f(d.get(k))`
  unfoldable pub upsert : List (K × V) → K → (Option V → V) → List (K × V)
  upsert [] k f = (k, f none) ∷ []
  upsert ((j, w) ∷ m) k f = if j == k then (j, f (some w)) ∷ m else (j, w) ∷ upsert m k f

  pub lookup-upsert :
      (m : List (K × V)) (k : K) (f : Option V → V) (j : K)
      → lookup (upsert m k f) j ≡ (if k == j then some (f (lookup m k)) else lookup m j)
  unfolding lookup upsert
  lookup-upsert [] k f j = ground arith
  lookup-upsert ((i, w) ∷ m) k f j =
      ground (
        arith,
        e.same_iff i k,
        e.same_iff i j,
        e.same_iff k j,
        e.same_iff k k,
        lookup-upsert m k f j,
      )

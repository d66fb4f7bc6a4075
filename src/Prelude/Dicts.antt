-- ===== src/Prelude/Dicts.antt =====
-- Dictionaries as item lists whose keys are distinct.
use mathlib.Core.Path.{◌≡◌, refl, ap, ◌∙◌}
use mathlib.Core.Logic.{inl, inr}
use mathlib.Core.Bool.{Bool, true, false, ◌||◌}
use mathlib.Core.Option.{Option, none, some}
use mathlib.Core.List.{List, [], ◌∷◌, ◌++◌}
use native.Mathlib.Omega.{arith}
use vocabulary_micro.Prelude.Tests.{Bool-cases}
use vocabulary_micro.Prelude.Equality.{
  HasEquality, ◌==◌, contains, Distinct, lookup, upsert, set_default,
}
use vocabulary_micro.Prelude.Lists.{All, All-map}
use vocabulary_micro.Prelude.Sorting.{insert_sorted, sort}

module _ {ℓ} {K V : Type ℓ} ⦃e : HasEquality K⦄ where
  abbrev pub keys : List (K × V) → List K
  keys [] = []
  keys ((k, v) ∷ m) = k ∷ keys m

  pub keys-append : (m n : List (K × V)) → keys (m ++ n) ≡ keys m ++ keys n
  keys-append [] n = refl
  keys-append ((k, v) ∷ m) n = ap (λ l. k ∷ l) (keys-append m n)

  pub lookup-append :
      (m n : List (K × V)) (k : K)
      → lookup (m ++ n) k ≡ elim (lookup m k) [ none ↦ lookup n k | some v ↦ some v ]
  unfolding lookup
  lookup-append [] n k = refl
  lookup-append ((i, w) ∷ m) n k = ground (arith, lookup-append m n k)

  contains-keys-upsert :
      (m : List (K × V)) (k : K) (f : Option V → V) (j : K)
      → contains (keys (upsert m k f)) j ≡ (contains (keys m) j || k == j)
  unfolding contains upsert
  contains-keys-upsert [] k f j = ground arith
  contains-keys-upsert ((i, w) ∷ m) k f j =
      ground (arith, e.same_iff i k, e.same_iff i j, e.same_iff k j, contains-keys-upsert m k f j)

  pub upsert-Distinct :
      (m : List (K × V)) (k : K) (f : Option V → V)
      → Distinct (keys m)
      → Distinct (keys (upsert m k f))
  unfolding contains upsert
  upsert-Distinct [] k f d = (refl, tt)
  upsert-Distinct ((i, w) ∷ m) k f d = elim (Bool-cases (i == k)) [
    | inl h ↦ rw h d
    | inr h ↦ rw h (
      ground (arith, contains-keys-upsert m k f i, e.same_iff i k, e.same_iff k i),
      upsert-Distinct m k f d.1,
    )
  ]

  pub contains-keys-set_default :
      (m : List (K × V)) (k : K) (v : V) (j : K)
      → contains (keys (set_default m k v)) j ≡ (contains (keys m) j || k == j)
  unfolding contains set_default
  contains-keys-set_default [] k v j = ground arith
  contains-keys-set_default ((i, w) ∷ m) k v j =
      ground
        (arith, e.same_iff i k, e.same_iff i j, e.same_iff k j, contains-keys-set_default m k v j)

  pub set_default-Distinct :
      (m : List (K × V)) (k : K) (v : V) → Distinct (keys m) → Distinct (keys (set_default m k v))
  unfolding contains set_default
  set_default-Distinct [] k v d = (refl, tt)
  set_default-Distinct ((i, w) ∷ m) k v d = elim (Bool-cases (i == k)) [
    | inl h ↦ rw h d
    | inr h ↦ rw h (
      ground (arith, contains-keys-set_default m k v i, e.same_iff i k, e.same_iff k i),
      set_default-Distinct m k v d.1,
    )
  ]

  pub All-set_default {κ} :
      (P : K × V → Type κ) (m : List (K × V)) (k : K) (v : V)
      → P (k, v)
      → All P m
      → All P (set_default m k v)
  unfolding set_default
  All-set_default P [] k v p h = (p, tt)
  All-set_default P ((i, w) ∷ m) k v p h = elim (Bool-cases (i == k)) [
    | inl e ↦ rw e h
    | inr e ↦ rw e (h.0, All-set_default P m k v p h.1)
  ]

  pub lookup_absent : (m : List (K × V)) (k : K) → contains (keys m) k ≡ false → lookup m k ≡ none
  unfolding contains lookup
  lookup_absent [] k h = refl
  lookup_absent ((j, w) ∷ m) k h = ground (arith, lookup_absent m k)

  pub lookup_present :
      (m : List (K × V)) (k : K) (v : V) → lookup m k ≡ some v → contains (keys m) k ≡ true
  unfolding contains lookup
  lookup_present [] k v h = ground arith
  lookup_present ((j, w) ∷ m) k v h = ground (arith, lookup_present m k v)

  pub contains_of_lookup :
      (m : List (K × V)) (k : K) → lookup m k ≡ none → contains (keys m) k ≡ false
  unfolding contains lookup
  contains_of_lookup [] k h = refl
  contains_of_lookup ((j, w) ∷ m) k h = ground (arith, contains_of_lookup m k)

  skip_key :
      (i : K) (w : V) (m : List (K × V)) (j : K)
      → contains (keys m) i ≡ false
      → contains (keys m) j ≡ true
      → lookup ((i, w) ∷ m) j ≡ lookup m j
  unfolding lookup
  skip_key i w m j h k = ground (arith, e.same_iff i j)

  own_tail :
      (i : K) (w : V) (m n : List (K × V))
      → contains (keys m) i ≡ false
      → All (λ x. lookup m x.0 ≡ some x.1) n
      → All (λ x. lookup ((i, w) ∷ m) x.0 ≡ some x.1) n
  own_tail i w m n h k = All-map (λ x q. skip_key i w m x.0 h (lookup_present m x.0 x.1 q) ∙ q) n k

  -- With distinct keys every item is what a lookup of its key finds.
  pub lookup_own : (m : List (K × V)) → Distinct (keys m) → All (λ x. lookup m x.0 ≡ some x.1) m
  lookup_own [] d = tt
  lookup_own ((i, w) ∷ m) d =
      (unfold lookup in ground (arith, e.same_iff i i), own_tail i w m m d.0 (lookup_own m d.1))

  module _ (before : K × V → K × V → Bool) where
    contains-keys-insert_sorted :
        (x : K × V) (m : List (K × V)) (k : K)
        → contains (keys (insert_sorted before x m)) k ≡ (x.0 == k || contains (keys m) k)
    unfolding contains insert_sorted
    contains-keys-insert_sorted x [] k = refl
    contains-keys-insert_sorted x (y ∷ m) k = ground (arith, contains-keys-insert_sorted x m k)

    pub contains-keys-sort :
        (m : List (K × V)) (k : K) → contains (keys (sort before m)) k ≡ contains (keys m) k
    unfolding contains sort
    contains-keys-sort [] k = refl
    contains-keys-sort (x ∷ m) k =
        ground (arith, contains-keys-insert_sorted x (sort before m) k, contains-keys-sort m k)

-- ===== src/LruCache/Values.antt =====
-- Predicates on the items of a cache, under reading and writing.
use vocabulary_micro.Prelude.{
  ℕ, ◌≡◌, refl, ap, ◌∙◌, inl, inr, Option, none, some, [], ◌∷◌, arith, ltb, Bool-cases, length, All,
  All-append, ◌==◌, nat_equality, list_equality, pair_equality, lookup,
}
use vocabulary_micro.Text.{Text, same_text}
use mathlib.Core.Path.{subst}
use vocabulary_micro.LruCache.{
  BoundedCache, without_key, move_to_end, drop_oldest, refresh, cache_get, cache_put,
}

module _ {V : Type 0} (P : Text × V → Type 0) where
  All-without_key : (m : BoundedCache V) (key : Text) → All P m → All P (without_key m key)
  unfolding without_key
  All-without_key [] key h = tt
  All-without_key (x ∷ m) key h = elim (Bool-cases (x.0 == key)) [
    | inl e ↦ rw e (All-without_key m key h.1)
    | inr e ↦ rw e (h.0, All-without_key m key h.1)
  ]

  All-move_to_end :
      (m : BoundedCache V) (key : Text) (v : V) → P (key, v) → All P m → All P (move_to_end m key v)
  unfolding move_to_end
  All-move_to_end m key v p h =
      All-append P (without_key m key) ((key, v) ∷ []) (All-without_key m key h) (p, tt)

  All-drop_oldest : (n : ℕ) (m : BoundedCache V) → All P m → All P (drop_oldest n m)
  unfolding drop_oldest
  All-drop_oldest n [] h = tt
  All-drop_oldest n (x ∷ m) h = elim (Bool-cases (ltb n (length (x ∷ m)))) [
    | inl e ↦ rw e (All-drop_oldest n m h.1)
    | inr e ↦ rw e h
  ]

  pub All-lookup :
      (m : BoundedCache V) (key : Text) (v : V) → lookup m key ≡ some v → All P m → P (key, v)
  unfolding lookup
  All-lookup [] key v e h = absurd (ground (arith, e))
  All-lookup (x ∷ m) key v e h = elim (Bool-cases (x.0 == key)) [
    | inl b ↦
        let found : x.1 ≡ v = ground (arith, b, e) in
        let same : x.0 ≡ key = (same_text x.0 key).0 b in
        subst P (ap (λ k. (k, x.1)) same ∙ ap (λ w. (key, w)) found) h.0
    | inr b ↦ All-lookup m key v (ground (arith, b, e)) h.1
  ]

  All-refresh :
      (m : BoundedCache V) (key : Text) (o : Option V)
      → lookup m key ≡ o
      → All P m
      → All P (refresh m key o)
  unfolding refresh
  All-refresh m key none e h = h
  All-refresh m key (some v) e h = All-move_to_end m key v (All-lookup m key v e h) h

  pub All-cache_get : (m : BoundedCache V) (key : Text) → All P m → All P (cache_get m key)
  unfolding cache_get
  All-cache_get m key h = All-refresh m key (lookup m key) refl h

  pub All-cache_put :
      (n : ℕ) (m : BoundedCache V) (key : Text) (v : V)
      → P (key, v)
      → All P m
      → All P (cache_put n m key v)
  unfolding cache_put
  All-cache_put n m key v p h =
      All-drop_oldest n (move_to_end m key v) (All-move_to_end m key v p h)

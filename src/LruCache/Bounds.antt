-- ===== src/LruCache/Bounds.antt =====
-- The bound of a cache under reading and writing.
use vocabulary_micro.Prelude.{
  keys-append, ℕ, suc, ◌≡◌, refl, ◌∙◌, inl, inr, true, ◌&&◌, not, Option, none, some, [], ◌∷◌,
  arith, ltb, leb, Bool-cases, length, length-append, ◌==◌, nat_equality, list_equality,
  pair_equality, contains, Distinct, Distinct-concat, lookup, keys, lookup_present,
}
use vocabulary_micro.Text.{Text, same_text}
use vocabulary_micro.LruCache.{
  BoundedCache, refresh, without_key, move_to_end, drop_oldest, cache_get, cache_put,
}

module _ {V : Type 0} where
  -- A cache with distinct keys and no more than `n` entries.
  abbrev pub IsBounded : ℕ → BoundedCache V → Type 0
  IsBounded n m = Distinct (keys m) × (leb (length m) n ≡ true)

  contains-without_key :
      (m : BoundedCache V) (key j : Text)
      → contains (keys (without_key m key)) j ≡ (contains (keys m) j && not (key == j))
  unfolding contains without_key
  contains-without_key [] key j = refl
  contains-without_key ((k, v) ∷ m) key j =
      ground (arith, contains-without_key m key j, same_text k key, same_text k j, same_text key j)

  Distinct-without_key :
      (m : BoundedCache V) (key : Text) → Distinct (keys m) → Distinct (keys (without_key m key))
  unfolding contains without_key
  Distinct-without_key [] key d = tt
  Distinct-without_key ((k, v) ∷ m) key d = elim (Bool-cases (k == key)) [
    | inl h ↦ rw h (Distinct-without_key m key d.1)
    | inr h ↦
        rw h (ground (arith, contains-without_key m key k, d.0), Distinct-without_key m key d.1)
  ]

  pub move_to_end-Distinct :
      (m : BoundedCache V) (key : Text) (value : V)
      → Distinct (keys m)
      → Distinct (keys (move_to_end m key value))
  unfolding move_to_end
  move_to_end-Distinct m key value d = rw (keys-append (without_key m key) ((key, value) ∷ [])) (
      Distinct-concat (keys (without_key m key)) key (Distinct-without_key m key d)
        (ground (arith, contains-without_key m key key, same_text key key)))

  -- Without its key a cache that has it is shorter.
  pub length-without_key :
      (m : BoundedCache V) (key : Text)
      → (leb (length (without_key m key)) (length m) ≡ true)
        × (contains (keys m) key ≡ true → ltb (length (without_key m key)) (length m) ≡ true)
  unfolding contains without_key
  length-without_key [] key = (refl, λ h. ground (arith, h))
  length-without_key ((k, v) ∷ m) key =
      let rest = length-without_key m key in
      elim (Bool-cases (k == key)) [
        | inl h ↦ rw h (ground (arith, rest.0), λ q. ground (arith, rest.0))
        | inr h ↦ rw h (ground (arith, rest.0), λ q. ground (arith, rest.1 q))
      ]

  pub length-move_to_end :
      (m : BoundedCache V) (key : Text) (value : V)
      → length (move_to_end m key value) ≡ suc (length (without_key m key))
  unfolding move_to_end
  length-move_to_end m key value =
      length-append (without_key m key) ((key, value) ∷ []) ∙ omega arith

  drop_oldest-IsBounded :
      (n : ℕ) (m : BoundedCache V) → Distinct (keys m) → IsBounded n (drop_oldest n m)
  unfolding drop_oldest
  drop_oldest-IsBounded n [] d = (tt, ground arith)
  drop_oldest-IsBounded n (x ∷ m) d = elim (Bool-cases (ltb n (length (x ∷ m)))) [
    | inl h ↦ rw h (drop_oldest-IsBounded n m d.1)
    | inr h ↦ rw h (d, ground (arith, h))
  ]

  pub cache_put-IsBounded :
      (n : ℕ) (m : BoundedCache V) (key : Text) (value : V)
      → Distinct (keys m)
      → IsBounded n (cache_put n m key value)
  unfolding cache_put
  cache_put-IsBounded n m key value d =
      drop_oldest-IsBounded n (move_to_end m key value) (move_to_end-Distinct m key value d)

  refresh-IsBounded :
      (n : ℕ) (m : BoundedCache V) (key : Text) (o : Option V)
      → lookup m key ≡ o
      → IsBounded n m
      → IsBounded n (refresh m key o)
  unfolding refresh
  refresh-IsBounded n m key none e h = h
  refresh-IsBounded n m key (some value) e h = (
    move_to_end-Distinct m key value h.0,
    ground (
      arith,
      length-move_to_end m key value,
      (length-without_key m key).1 (lookup_present m key value e),
      h.1,
    ),
  )

  pub cache_get-IsBounded :
      (n : ℕ) (m : BoundedCache V) (key : Text) → IsBounded n m → IsBounded n (cache_get m key)
  unfolding cache_get
  cache_get-IsBounded n m key h = refresh-IsBounded n m key (lookup m key) refl h

-- ===== src/LruCache/History.antt =====
-- A bounded cache against the history of all that was written to it.
use vocabulary_micro.Prelude.{
  true, ◌||◌, contains-append, if◌then◌else◌, keys-append, ℕ, suc, ◌≤◌, ◌<◌, ◌≡◌, refl, sym, ap,
  ◌∙◌, ◌⊎◌, inl, inr, false, Option, none, some, List, [], ◌∷◌, ◌++◌, append_assoc, arith, ltb, leb,
  Bool-cases, length, length-append, ◌==◌, nat_equality, list_equality, pair_equality, contains,
  Distinct, lookup, keys, lookup_present,
}
use vocabulary_micro.LruCache.Window.{
  last, last_all, last_cons, last-append, length-last, split_last,
}
use vocabulary_micro.Text.{Text, same_text}
use vocabulary_micro.LruCache.{
  BoundedCache, without_key, move_to_end, drop_oldest, refresh, cache_get, cache_put,
}
use vocabulary_micro.LruCache.Bounds.{move_to_end-Distinct, length-without_key, length-move_to_end}

Distinct-of_append : (xs ys : List Text) → Distinct (xs ++ ys) → Distinct ys
Distinct-of_append [] ys d = d
Distinct-of_append (x ∷ xs) ys d = Distinct-of_append xs ys d.1

module _ {V : Type 0} where
  drop_oldest-last : (n : ℕ) (m : BoundedCache V) → drop_oldest n m ≡ last n m
  unfolding drop_oldest
  drop_oldest-last n [] = sym (last_all n [] (omega arith))
  drop_oldest-last n (x ∷ m) = elim (Bool-cases (ltb n (length (x ∷ m)))) [
    | inl b ↦ rw b (drop_oldest-last n m ∙ sym (last_cons n x m (ground arith)))
    | inr b ↦ rw b (sym (last_all n (x ∷ m) (ground arith)))
  ]

  without_key-append :
      (m l : BoundedCache V) (key : Text)
      → without_key (m ++ l) key ≡ without_key m key ++ without_key l key
  unfolding without_key
  without_key-append [] l key = refl
  without_key-append (x ∷ m) l key = elim (Bool-cases (x.0 == key)) [
    | inl b ↦ rw b (without_key-append m l key)
    | inr b ↦ rw b (ap (◌∷◌ x) (without_key-append m l key))
  ]

  without_key_absent :
      (m : BoundedCache V) (key : Text) → contains (keys m) key ≡ false → without_key m key ≡ m
  unfolding without_key contains
  without_key_absent [] key h = refl
  without_key_absent (x ∷ m) key h = ground (arith, without_key_absent m key)

  -- Of distinct keys one goes at most.
  length-le-without_key :
      (m : BoundedCache V) (key : Text)
      → Distinct (keys m)
      → length m ≤ suc (length (without_key m key))
  unfolding without_key
  length-le-without_key [] key d = omega arith
  length-le-without_key (x ∷ m) key d = elim (Bool-cases (x.0 == key)) [
    | inl b ↦
        let absent : contains (keys m) key ≡ false =
          ap (contains (keys m)) (sym ((same_text x.0 key).0 b)) ∙ d.0 in
        rw b (omega (arith, ap length (without_key_absent m key absent)))
    | inr b ↦ rw b (omega (arith, length-le-without_key m key d.1))
  ]

  -- To make an entry the newest, the last `n` entries are all that matter.
  last-move_to_end :
      (n : ℕ) (h : BoundedCache V) (key : Text) (v : V)
      → Distinct (keys h)
      → last n (move_to_end h key v) ≡ last n (move_to_end (last n h) key v)
  unfolding move_to_end
  last-move_to_end n h key v d =
      let (old, e, s) = split_last n h in
      let window = last n h in
      let own : Distinct (keys window) =
        Distinct-of_append (keys old) (keys window) (rw (keys-append old window) at (rw e at d)) in
      moved old window own e s
    where
      moved :
          (old window : BoundedCache V)
          → Distinct (keys window)
          → h ≡ old ++ window
          → (old ≡ []) ⊎ (n ≤ length window)
          → last n (without_key h key ++ (key, v) ∷ [])
            ≡ last n (without_key window key ++ (key, v) ∷ [])
      moved old window own e (inl nil) =
          ap (λ l. last n (without_key l key ++ (key, v) ∷ [])) (e ∙ ap (λ l. l ++ window) nil)
      moved old window own e (inr full) =
          ap (λ l. last n (l ++ (key, v) ∷ []))
            (ap (λ l. without_key l key) e ∙ without_key-append old window key)
          ∙ ap (last n)
              (append_assoc (without_key old key) (without_key window key) ((key, v) ∷ []))
          ∙ last-append n (without_key old key) (without_key window key ++ (key, v) ∷ []) (
              omega (
                arith,
                length-append (without_key window key) ((key, v) ∷ []),
                length-le-without_key window key own,
              ))

-- A call of `_cache_get` or of `_cache_put`.
pub data Use (V : Type 0) : Type 0 where
  read : Text → Use V
  write : Text → V → Use V

module _ {V : Type 0} where
  -- The uses, of which the last one of each key counts.
  unfoldable pub latest : List (Text × V) → List (Text × V)
  latest [] = []
  latest ((key, v) ∷ uses) =
      let rest = latest uses in if contains (keys uses) key then rest else (key, v) ∷ rest

  abbrev pub use_of : List (Text × V) → Text → Option V → List (Text × V)
  use_of uses key none = uses
  use_of uses key (some v) = uses ++ (key, v) ∷ []

  contains-latest :
      (uses : List (Text × V)) (key : Text)
      → contains (keys (latest uses)) key ≡ contains (keys uses) key
  unfolding latest contains
  contains-latest [] key = refl
  contains-latest ((k, v) ∷ uses) key = elim (Bool-cases (contains (keys uses) k)) [
    | inl b ↦ rw b (elim (Bool-cases (k == key)) [
      | inl e ↦
          let same = (same_text k key).0 e in
          ground (arith, contains-latest uses key, ap (contains (keys uses)) same)
      | inr e ↦ ground (arith, contains-latest uses key)
    ])
    | inr b ↦ rw b (ground (arith, contains-latest uses key))
  ]

  latest-Distinct : (uses : List (Text × V)) → Distinct (keys (latest uses))
  unfolding latest
  latest-Distinct [] = tt
  latest-Distinct ((k, v) ∷ uses) = elim (Bool-cases (contains (keys uses) k)) [
    | inl b ↦ rw b (latest-Distinct uses)
    | inr b ↦ rw b (contains-latest uses k ∙ b, latest-Distinct uses)
  ]

  latest-append :
      (uses : List (Text × V)) (key : Text) (v : V)
      → latest (uses ++ (key, v) ∷ []) ≡ move_to_end (latest uses) key v
  unfolding latest move_to_end without_key contains
  latest-append [] key v = refl
  latest-append ((k, w) ∷ uses) key v =
      let rest = latest-append uses key v in
      let here : contains (keys (uses ++ (key, v) ∷ [])) k
          ≡ (contains (keys uses) k || (key == k)) =
        ap (λ l. contains l k) (keys-append uses ((key, v) ∷ []))
        ∙ contains-append (keys uses) (key ∷ []) k
        ∙ unfold contains in ground arith in
      elim (Bool-cases (contains (keys uses) k)) [
        | inl b ↦
            let c : contains (keys (uses ++ (key, v) ∷ [])) k ≡ true = ground (arith, here, b) in
            rw (b, c) rest
        | inr b ↦ elim (Bool-cases (k == key)) [
          | inl e ↦
              let c : contains (keys (uses ++ (key, v) ∷ [])) k ≡ true =
                ground (arith, here, (same_text k key).0 e, same_text key k) in
              rw (b, c, e) rest
          | inr e ↦
              let c : contains (keys (uses ++ (key, v) ∷ [])) k ≡ false =
                ground (arith, here, b, e, same_text k key, same_text key k) in
              rw (b, c, e) (ap (◌∷◌ (k, w)) rest)
        ]
      ]

  refresh-latest :
      (uses : List (Text × V)) (key : Text) (o : Option V)
      → refresh (latest uses) key o ≡ latest (use_of uses key o)
  unfolding refresh
  refresh-latest uses key none = refl
  refresh-latest uses key (some v) = sym (latest-append uses key v)

module _ {V : Type 0} (n : ℕ) where
  unfoldable pub use_cache : BoundedCache V → List (Use V) → BoundedCache V
  use_cache m [] = m
  use_cache m (read key ∷ calls) = use_cache (cache_get m key) calls
  use_cache m (write key v ∷ calls) = use_cache (cache_put n m key v) calls

  -- The uses of the cache, in order and each with its value: every write, and every read whose key is
  -- among the `n` keys used last.
  unfoldable pub history : List (Text × V) → List (Use V) → List (Text × V)
  history uses [] = uses
  history uses (read key ∷ calls) =
      history (use_of uses key (lookup (last n (latest uses)) key)) calls
  history uses (write key v ∷ calls) = history (uses ++ (key, v) ∷ []) calls

  refresh-last :
      (h : BoundedCache V) (key : Text) (o : Option V)
      → lookup (last n h) key ≡ o
      → Distinct (keys h)
      → length (last n h) ≤ n
      → (last n (refresh h key o) ≡ refresh (last n h) key o) × Distinct (keys (refresh h key o))
  unfolding refresh
  refresh-last h key none e d s = (refl, d)
  refresh-last h key (some v) e d s = (
    last-move_to_end n h key v d
        ∙ last_all n (move_to_end (last n h) key v)
            (omega (arith, length-move_to_end (last n h) key v, shorter)),
    move_to_end-Distinct h key v d,
  )
    where
      shorter : length (without_key (last n h) key) < length (last n h)
      shorter =
          ground (arith, (length-without_key (last n h) key).1 (lookup_present (last n h) key v e))

  length-last-le : (h : BoundedCache V) → length (last n h) ≤ n
  length-last-le h = elim (Bool-cases (leb n (length h))) [
    | inl b ↦ omega (arith, length-last n h (ground arith))
    | inr b ↦ rw (last_all n h (ground arith)) (ground arith)
  ]

  -- A cache that has the `n` keys used last, the oldest first and each with the value of its last
  -- use, still has them after any further calls.
  pub use_cache-history :
      (uses : List (Text × V)) (calls : List (Use V))
      → use_cache (last n (latest uses)) calls ≡ last n (latest (history uses calls))
  unfolding use_cache history cache_get cache_put
  use_cache-history uses [] = refl
  use_cache-history uses (read key ∷ calls) =
      let h = latest uses in
      let found = lookup (last n h) key in
      let r = refresh-last h key found refl (latest-Distinct uses) (length-last-le h) in
      ap (λ m. use_cache m calls) (sym r.0)
      ∙ ap (λ l. use_cache (last n l) calls) (refresh-latest uses key found)
      ∙ use_cache-history (use_of uses key found) calls
  use_cache-history uses (write key v ∷ calls) =
      let h = latest uses in
      ap (λ m. use_cache m calls)
        (drop_oldest-last n (move_to_end (last n h) key v)
          ∙ sym (last-move_to_end n h key v (latest-Distinct uses)))
      ∙ ap (λ l. use_cache (last n l) calls) (sym (latest-append uses key v))
      ∙ use_cache-history (uses ++ (key, v) ∷ []) calls

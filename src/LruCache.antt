-- ===== src/LruCache.antt =====
-- The caches of backend/python_services/infrastructure/nlp/lemma_inflect_matcher.py and
-- wordnet_matcher.py: bounded, with the least recently used entry first.
pub mod Bounds
pub mod Values
pub mod Window
pub mod History
use vocabulary_micro.Prelude.{
  ℕ, Option, none, some, List, [], ◌∷◌, ◌++◌, ltb, if◌then◌else◌, length, ◌==◌, nat_equality,
  list_equality, pair_equality, lookup,
}
use vocabulary_micro.Text.{Text}

-- An OrderedDict by its items.
abbrev pub BoundedCache : Type 0 → Type 0
BoundedCache V = List (Text × V)

module _ {V : Type 0} where
  unfoldable pub without_key : BoundedCache V → Text → BoundedCache V
  without_key [] key = []
  without_key ((k, v) ∷ m) key =
      let rest = without_key m key in if k == key then rest else (k, v) ∷ rest

  -- `d.move_to_end(key)` behind `d[key] = value`
  unfoldable pub move_to_end : BoundedCache V → Text → V → BoundedCache V
  move_to_end m key value = without_key m key ++ (key, value) ∷ []

  -- `while len(d) > n: d.popitem(last=False)`
  unfoldable pub drop_oldest : ℕ → BoundedCache V → BoundedCache V
  drop_oldest n [] = []
  drop_oldest n (x ∷ m) =
      let rest = drop_oldest n m in if ltb n (length (x ∷ m)) then rest else x ∷ m

  -- What was found becomes the newest entry.
  unfoldable pub refresh : BoundedCache V → Text → Option V → BoundedCache V
  refresh m key none = m
  refresh m key (some value) = move_to_end m key value

  -- The cache behind `_cache_get`.
  unfoldable pub cache_get : BoundedCache V → Text → BoundedCache V
  cache_get m key = refresh m key (lookup m key)

  unfoldable pub cache_put : ℕ → BoundedCache V → Text → V → BoundedCache V
  cache_put n m key value = drop_oldest n (move_to_end m key value)

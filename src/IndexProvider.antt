-- ===== src/IndexProvider.antt =====
-- backend/python_services/infrastructure/nlp/index_provider.py: the index of the lexicon that the
-- matchers read, and the provider that keeps it up to date. A time is a number of ticks of the
-- monotonic clock, and an operation takes as arguments what the clock and the two loaders give it.
-- `is_letter` is the class `[^\W\d_]` of Python's regular expressions, `sha1` the digest in
-- hexadecimal of `hashlib`.
pub mod Pieces
pub mod Build
pub mod Provider
use vocabulary_micro.IndexProvider.Pieces.{pieces}
use vocabulary_micro.Prelude.{
  ℕ, ◌*◌, Bool, Option, none, some, List, [], ◌∷◌, ◌++◌, map, fold, sort, HasEquality, nat_equality,
  list_equality, pair_equality, upsert, keys,
}
use vocabulary_micro.Text.{Text}
use vocabulary_micro.Text.Order.{text_before}
use vocabulary_micro.Text.Sets.{to_set, set_add}
use vocabulary_micro.PhraseMatcher.{PhraseTrieMatcher, from_phrases}

pub record LexiconEntry : Type 0 where
  pub row : ℕ
  pub column : ℕ
  pub category : Text
  pub value : Text

pub record LexiconIndexSnapshot : Type 0 where
  pub version : ℕ
  pub single_word : List (Text × List Text)
  pub multi_word : List (List Text × List Text)
  pub phrase_matcher : PhraseTrieMatcher
  pub candidate_hash : Text

-- The two dictionaries that are built, a set of categories for each key.
pub record Maps : Type 0 where
  pub singles : List (Text × List Text)
  pub multis : List (List Text × List Text)

abbrev pub empty_maps : Maps
empty_maps = record { singles = []; multis = [] }

abbrev pub or_empty : Option (List Text) → List Text
or_empty none = []
or_empty (some xs) = xs

-- `m[key].add(category)` on a `defaultdict(set)`, and `m.setdefault(key, set()).add(category)`.
unfoldable pub add_category :
    {K : Type 0} ⦃e : HasEquality K⦄ → List (K × List Text) → K → Text → List (K × List Text)
add_category m key category = upsert m key (λ o. set_add (or_empty o) category)

unfoldable pub add_pieces : Maps → List Text → Text → Maps
add_pieces maps [] category = maps
add_pieces maps (p ∷ []) category = record {
  singles = add_category maps.singles p category;
  multis = maps.multis;
}
add_pieces maps (p ∷ q ∷ ps) category = record {
  singles = maps.singles;
  multis = add_category maps.multis (p ∷ q ∷ ps) category;
}

-- `{key: f(value) for key, value in m.items()}`
unfoldable pub map_values :
    {K : Type 0} → (List Text → List Text) → List (K × List Text) → List (K × List Text)
map_values f m = map (λ x. (x.0, f x.1)) m

-- `"\x1f".join(xs)`
unfoldable pub join_units : List Text → Text
join_units [] = []
join_units (x ∷ []) = x
join_units (x ∷ y ∷ xs) = x ++ 31 ∷ join_units (y ∷ xs)

-- `{key: set(value) for key, value in ...}`, the start of `_apply_entries_to_snapshot`.
unfoldable pub maps_of : LexiconIndexSnapshot → Maps
maps_of snapshot = record {
  singles = map_values to_set snapshot.single_word;
  multis = map_values to_set snapshot.multi_word;
}

module _ (is_letter : ℕ → Bool) where
  unfoldable pub index_entry : Maps → LexiconEntry → Maps
  index_entry maps entry = add_pieces maps (pieces is_letter entry.value) entry.category

module _ (is_letter : ℕ → Bool) (sha1 : Text → Text) where
  unfoldable pub hash_candidates : List Text → Text
  hash_candidates candidates = sha1 (join_units (sort text_before candidates))

  unfoldable pub snapshot_from_maps : Maps → ℕ → LexiconIndexSnapshot
  snapshot_from_maps maps version =
      let single_sorted = map_values (sort text_before) maps.singles in
      let multi_sorted = map_values (sort text_before) maps.multis in
      record {
        version = version;
        single_word = single_sorted;
        multi_word = multi_sorted;
        phrase_matcher = from_phrases multi_sorted;
        candidate_hash = hash_candidates (keys single_sorted);
      }

  unfoldable pub build_snapshot : List LexiconEntry → ℕ → LexiconIndexSnapshot
  build_snapshot entries version =
      snapshot_from_maps (fold (index_entry is_letter) empty_maps entries) version

  unfoldable pub apply_entries_to_snapshot :
      LexiconIndexSnapshot → List LexiconEntry → ℕ → LexiconIndexSnapshot
  apply_entries_to_snapshot snapshot entries new_version =
      snapshot_from_maps (fold (index_entry is_letter) (maps_of snapshot) entries) new_version

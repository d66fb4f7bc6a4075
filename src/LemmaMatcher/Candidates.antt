-- ===== src/LemmaMatcher/Candidates.antt =====
-- `_lemma_inflect_candidates` of lemma_inflect_matcher.py with its two caches, and which tokens the
-- stage skips. `getAllLemmas` and `getAllInflections` are functions that give the lists of forms, or
-- none where the library is missing; `is_letter` is the class `[^\W\d_]`.
use vocabulary_micro.Prelude.{
  ℕ, Bool, false, ◌&&◌, ◌||◌, not, Option, none, some, List, [], ◌∷◌, ◌++◌, ltb, leb, if◌then◌else◌,
  length, take, is_empty, any, ◌==◌, nat_equality, list_equality, pair_equality, contains, lookup,
  upsert,
}
use vocabulary_micro.Text.{Text, codes, lower}
use vocabulary_micro.TextProcessor.Admission.{is_digit_text}
use vocabulary_micro.IndexProvider.Pieces.{normalize_whitespace, find_pieces, outside}
use vocabulary_micro.ExactMatcher.{TokenRecord}
use vocabulary_micro.LruCache.{BoundedCache, cache_get, cache_put}

abbrev pub lemma_skip_words : List Text
lemma_skip_words =
    codes "a"
    ∷ codes "an"
    ∷ codes "and"
    ∷ codes "or"
    ∷ codes "the"
    ∷ codes "this"
    ∷ codes "that"
    ∷ codes "these"
    ∷ codes "those"
    ∷ []

-- WEIRD_UNICODE_PATTERN of text_utils.py
unfoldable pub is_weird_code : ℕ → Bool
is_weird_code c = leb 8203 c && leb c 8207 || (leb 8234 c && leb c 8238 || c == 65279)

pub record LemmaMatcher : Type 0 where
  pub enabled : Bool
  pub max_unknown_tokens : ℕ
  pub max_candidates : ℕ
  pub cache_max_entries : ℕ
  pub all_lemmas : Option (Text → List (List Text))
  pub all_inflections : Option (Text → List (List Text))
  pub is_letter : ℕ → Bool

unfoldable pub is_available : LemmaMatcher → Bool
is_available self = elim self.all_lemmas [
  | none ↦ false
  | some f ↦ elim self.all_inflections [ none ↦ false | some g ↦ self.enabled ]
]

-- `_skip_token`; a text matches TOKEN_PATTERN in full exactly if it is its own only match.
unfoldable pub skip_token : LemmaMatcher → TokenRecord → Bool
skip_token self t =
    is_empty t.normalized
    || (ltb (length t.normalized) 2
        || (contains lemma_skip_words t.normalized
            || (is_digit_text t.normalized
                || (any is_weird_code t.normalized
                    || not
                        (find_pieces self.is_letter outside t.normalized == t.normalized ∷ [])))))

-- `_unique_candidates`, from what was seen on.
unfoldable pub unique_candidates : List Text → List Text → List Text
unique_candidates seen [] = []
unique_candidates seen (item ∷ items) =
    let normalized = lower (normalize_whitespace item) in
    let skipped = is_empty normalized || contains seen normalized in
    let rest = unique_candidates (if skipped then seen else normalized ∷ seen) items in
    if skipped then rest else normalized ∷ rest

abbrev pub concat_forms : List (List Text) → List Text
concat_forms [] = []
concat_forms (f ∷ fs) = f ++ concat_forms fs

-- The inner loop over the inflections of a base, which ends once there are enough candidates.
unfoldable pub extend_forms : ℕ → List Text → List (List Text) → List Text
extend_forms limit bases [] = bases
extend_forms limit bases (f ∷ fs) =
    let rest = extend_forms limit (bases ++ f) fs in
    if leb limit (length (bases ++ f)) then bases ++ f else rest

-- The outer loop, over a copy of the bases.
unfoldable pub extend_bases : ℕ → (Text → List (List Text)) → List Text → List Text → List Text
extend_bases limit inflections bases [] = bases
extend_bases limit inflections bases (b ∷ bs) =
    let grown = extend_forms limit bases (inflections b) in
    let rest = extend_bases limit inflections grown bs in
    if leb limit (length grown) then grown else rest

-- `_lemma_inflect_candidates` where neither cache has the key.
unfoldable pub compute_candidates : LemmaMatcher → TokenRecord → List Text
compute_candidates self t =
    let lemmas : List Text = elim self.all_lemmas [
      | none ↦ []
      | some f ↦ concat_forms (f t.token)
    ] in
    let bases = unique_candidates [] (t.normalized ∷ t.lemma ∷ lemmas) in
    let grown : List Text = elim self.all_inflections [
      | none ↦ bases
      | some g ↦ extend_bases self.max_candidates g bases bases
    ] in
    take self.max_candidates (unique_candidates [] grown)

abbrev pub cache_key : TokenRecord → Text
cache_key t = lower t.token ++ b'|' ∷ lower t.lemma ++ b'|' ∷ lower t.normalized

-- The cache of the request, and that of the stage.
pub record Caches : Type 0 where
  pub request_cache : List (Text × List Text)
  pub global_cache : BoundedCache (List Text)

abbrev pub remember : Caches → Text → List Text → BoundedCache (List Text) → Caches
remember c key value cache = record {
  request_cache = upsert c.request_cache key (λ o. value);
  global_cache = cache;
}

-- `_lemma_inflect_candidates`, with what the cache of the request and that of the stage have.
unfoldable pub recall_candidates :
    LemmaMatcher
    → TokenRecord
    → Caches
    → Option (List Text)
    → Option (List Text)
    → List Text × Caches
recall_candidates self t c (some found) cached = (found, c)
recall_candidates self t c none (some found) =
    (found, remember c (cache_key t) found (cache_get c.global_cache (cache_key t)))
recall_candidates self t c none none =
    let result = compute_candidates self t in
    (
      result,
      remember c (cache_key t) result
          (cache_put self.cache_max_entries c.global_cache (cache_key t) result),
    )

unfoldable pub lemma_inflect_candidates : LemmaMatcher → TokenRecord → Caches → List Text × Caches
lemma_inflect_candidates self t c =
    recall_candidates self t c (lookup c.request_cache (cache_key t))
      (lookup c.global_cache (cache_key t))

-- ===== src/WordNetMatcher.antt =====
-- backend/python_services/infrastructure/nlp/wordnet_matcher.py: unknown tokens that WordNet has an
-- entry for become known. What nltk answers are the fields of `Nltk`.
pub mod Availability
pub mod DataPath
pub mod Laws
use vocabulary_micro.Prelude.{
  ℕ, ◌+◌, ◌*◌, Bool, true, false, ◌&&◌, ◌||◌, not, Option, none, some, List, [], ◌∷◌, ◌++◌, ltb,
  if◌then◌else◌, length, is_empty, any, ◌==◌, nat_equality, list_equality, pair_equality, contains,
  lookup,
}
use vocabulary_micro.Text.{Text, codes, lower, strip, or_else}
use vocabulary_micro.TextProcessor.Admission.{is_digit_text}
use vocabulary_micro.IndexProvider.Pieces.{find_pieces, outside}
use vocabulary_micro.ExactMatcher.{TokenRecord}
use vocabulary_micro.LemmaMatcher.{count_unknown_tokens}
use vocabulary_micro.LemmaMatcher.Candidates.{is_weird_code}
use vocabulary_micro.LruCache.{BoundedCache, cache_get, cache_put}
use vocabulary_micro.WordNetMatcher.Availability.{Nltk, WordNetState, ensure_available}

abbrev wordnet_skip_words : List Text
wordnet_skip_words =
    codes "a"
    ∷ codes "an"
    ∷ codes "and"
    ∷ codes "or"
    ∷ codes "the"
    ∷ codes "this"
    ∷ codes "that"
    ∷ codes "these"
    ∷ codes "those"
    ∷ []

pub record WordNetSettings : Type 0 where
  pub enable_wordnet : Bool
  pub max_unknown_tokens : ℕ
  pub cache_max_entries : ℕ
  pub is_letter : ℕ → Bool

-- `_skip_token`
unfoldable pub skip_probe : WordNetSettings → TokenRecord → Bool
skip_probe self t =
    is_empty t.normalized
    || (ltb (length t.normalized) 2
        || (contains wordnet_skip_words t.normalized
            || (is_digit_text t.normalized
                || (any is_weird_code t.normalized
                    || not
                        (find_pieces self.is_letter outside t.normalized == t.normalized ∷ [])))))

-- `_build_probe_forms`, for the two forms it has.
unfoldable pub build_probe_forms : TokenRecord → List Text
build_probe_forms t =
    let first = strip (lower t.lemma) in
    let second = strip (lower t.normalized) in
    (if is_empty first then [] else first ∷ [])
    ++ (if is_empty second || (not (is_empty first) && first == second) then [] else second ∷ [])

-- `_wordnet_lookup`; a call that raises answers none.
unfoldable pub wordnet_lookup : Nltk → Text → Bool
wordnet_lookup nltk value = if not nltk.imported then false else elim (nltk.synsets value) [
  | none ↦ false
  | some found ↦ if found then true else elim (nltk.morphy value) [
    | none ↦ false
    | some form ↦
        if is_empty form then false else elim (nltk.synsets form) [ none ↦ false | some x ↦ x ]
  ]
]

abbrev pub EntryCache : Type 0
EntryCache = BoundedCache Bool

-- `_has_wordnet_entry`, with what the cache has.
unfoldable pub recall_entry : Nltk → ℕ → EntryCache → Text → Option Bool → Bool × EntryCache
recall_entry nltk n cache value (some cached) = (cached, cache_get cache value)
recall_entry nltk n cache value none =
    let exists = wordnet_lookup nltk value in (exists, cache_put n cache value exists)

unfoldable pub has_wordnet_entry : Nltk → ℕ → EntryCache → Text → Bool × EntryCache
has_wordnet_entry nltk n cache value = recall_entry nltk n cache value (lookup cache value)

-- The loop over the forms, which ends at the first that has an entry.
unfoldable pub first_entry : Nltk → ℕ → EntryCache → List Text → Text × EntryCache
first_entry nltk n cache [] = ([], cache)
first_entry nltk n cache (form ∷ forms) =
    let asked = has_wordnet_entry nltk n cache form in
    let rest = first_entry nltk n asked.1 forms in if asked.0 then (form, asked.1) else rest

unfoldable pub set_wordnet_match : TokenRecord → Text → TokenRecord
set_wordnet_match t form = record {
  token = t.token;
  normalized = t.normalized;
  lemma = t.lemma;
  pos = t.pos;
  start = t.start;
  stop = t.stop;
  categories = t.categories;
  known = true;
  match_source = codes "wordnet";
  matched_form = form;
  bert_score = t.bert_score;
}

-- What the first form with an entry makes of a token; no such form is the empty text.
unfoldable pub match_form : TokenRecord → Text → TokenRecord
match_form t form = if is_empty form then t else set_wordnet_match t form

-- The body of the loop, which known tokens do not enter.
unfoldable pub match_wordnet :
    Nltk → WordNetSettings → TokenRecord → EntryCache → TokenRecord × Bool × EntryCache
match_wordnet nltk self t cache =
    let found = first_entry nltk self.cache_max_entries cache (build_probe_forms t) in
    if t.known || skip_probe self t
    then (t, false, cache)
    else (match_form t found.0, not (is_empty found.0), found.1)

-- The loop, with the tokens it matched counted.
unfoldable pub match_all_wordnet :
    Nltk → WordNetSettings → List TokenRecord → EntryCache → List TokenRecord × ℕ × EntryCache
match_all_wordnet nltk self [] cache = ([], 0, cache)
match_all_wordnet nltk self (t ∷ ts) cache =
    let first = match_wordnet nltk self t cache in
    let rest = match_all_wordnet nltk self ts first.2 in
    (first.0 ∷ rest.0, (if first.1 then 1 else 0) + rest.1, rest.2)

pub record WordNetReport : Type 0 where
  pub wordnet_status : Text
  pub wordnet_reason : Text
  pub unknown_tokens : ℕ
  pub matched_tokens : Option ℕ

abbrev or_unavailable : Option Text → Text
or_unavailable none = codes "wordnet_unavailable"
or_unavailable (some r) = or_else r (codes "wordnet_unavailable")

-- `apply`; the availability that the report repeats is in the state.
unfoldable pub apply_wordnet :
    Nltk
    → WordNetSettings
    → WordNetState
    → List TokenRecord
    → EntryCache
    → List TokenRecord × WordNetState × EntryCache × WordNetReport
apply_wordnet nltk self s tokens cache =
    let unknown = count_unknown_tokens tokens in
    let ready = ensure_available nltk self.enable_wordnet s in
    let done = match_all_wordnet nltk self tokens cache in
    if ltb self.max_unknown_tokens unknown
    then (
      tokens,
      ready,
      cache,
      record {
        wordnet_status = codes "skipped";
        wordnet_reason = codes "max_unknown_tokens_exceeded";
        unknown_tokens = unknown;
        matched_tokens = none;
      },
    )
    else if not ready.available
    then (
      tokens,
      ready,
      cache,
      record {
        wordnet_status = codes "skipped";
        wordnet_reason = or_unavailable ready.unavailable_reason;
        unknown_tokens = unknown;
        matched_tokens = none;
      },
    )
    else (
      done.0,
      ready,
      done.2,
      record {
        wordnet_status = codes "ok";
        wordnet_reason = [];
        unknown_tokens = unknown;
        matched_tokens = some done.1;
      },
    )

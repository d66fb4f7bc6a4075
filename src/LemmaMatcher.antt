-- ===== src/LemmaMatcher.antt =====
-- backend/python_services/infrastructure/nlp/lemma_inflect_matcher.py: unknown tokens are matched
-- by their lemmas and inflections, which Candidates.antt computes.
pub mod Candidates
pub mod Laws
pub mod Faithful
use vocabulary_micro.LemmaMatcher.Candidates.{
  Caches, LemmaMatcher, cache_key, compute_candidates, concat_forms, extend_bases, extend_forms,
  is_available, is_weird_code, lemma_inflect_candidates, lemma_skip_words, recall_candidates,
  remember, skip_token, unique_candidates,
}
use vocabulary_micro.Prelude.{
  ℕ, ◌+◌, ◌-◌, ◌*◌, Bool, true, false, ◌&&◌, ◌||◌, not, Option, none, some, List, [], ◌∷◌, ◌++◌,
  ltb, leb, if◌then◌else◌, length, take, is_empty, any, ◌==◌, nat_equality, list_equality,
  pair_equality, contains, lookup, upsert,
}
use vocabulary_micro.Text.{Text, codes, space, lower}
use vocabulary_micro.Text.Sets.{sorted_set}
use vocabulary_micro.TextProcessor.Admission.{is_digit_text}
use vocabulary_micro.IndexProvider.{or_empty}
use vocabulary_micro.IndexProvider.Pieces.{normalize_whitespace, find_pieces, outside}
use vocabulary_micro.ExactMatcher.{TokenRecord}
use vocabulary_micro.LruCache.{BoundedCache, cache_get, cache_put}

-- The candidates that the lexicon has categories for, and those categories.
unfoldable pub matched_forms : List (Text × List Text) → List Text → List Text
matched_forms single_word [] = []
matched_forms single_word (c ∷ cs) =
    let rest = matched_forms single_word cs in
    if is_empty (or_empty (lookup single_word c)) then rest else c ∷ rest

unfoldable pub matched_categories : List (Text × List Text) → List Text → List Text
matched_categories single_word [] = []
matched_categories single_word (c ∷ cs) =
    or_empty (lookup single_word c) ++ matched_categories single_word cs

-- `", ".join(xs)`
unfoldable pub join_commas : List Text → Text
join_commas [] = []
join_commas (x ∷ []) = x
join_commas (x ∷ y ∷ xs) = x ++ b',' ∷ space ∷ join_commas (y ∷ xs)

unfoldable pub set_lemma_match : TokenRecord → List Text → List Text → TokenRecord
set_lemma_match t categories forms = record {
  token = t.token;
  normalized = t.normalized;
  lemma = t.lemma;
  pos = t.pos;
  start = t.start;
  stop = t.stop;
  categories = sorted_set categories;
  known = true;
  match_source = codes "lemma_inflect";
  matched_form = join_commas (sorted_set forms);
  bert_score = t.bert_score;
}

-- What the candidates of a token make of it.
unfoldable pub match_candidates : List (Text × List Text) → TokenRecord → List Text → TokenRecord
match_candidates single_word t candidates =
    if is_empty (matched_categories single_word candidates)
    then t
    else set_lemma_match t (matched_categories single_word candidates)
        (matched_forms single_word candidates)

-- The body of the loop, which known tokens do not enter: the token, whether it was matched, and
-- the caches.
unfoldable pub match_lemma :
    LemmaMatcher → List (Text × List Text) → TokenRecord → Caches → TokenRecord × Bool × Caches
match_lemma self single_word t c =
    let found = lemma_inflect_candidates self t c in
    if t.known || skip_token self t then (t, false, c) else (
      match_candidates single_word t found.0,
      not (is_empty (matched_categories single_word found.0)),
      found.1,
    )

-- The loop, with the tokens it matched counted.
unfoldable pub match_lemmas :
    LemmaMatcher
    → List (Text × List Text)
    → List TokenRecord
    → Caches
    → List TokenRecord × ℕ × Caches
match_lemmas self single_word [] c = ([], 0, c)
match_lemmas self single_word (t ∷ ts) c =
    let first = match_lemma self single_word t c in
    let rest = match_lemmas self single_word ts first.2 in
    (first.0 ∷ rest.0, (if first.1 then 1 else 0) + rest.1, rest.2)

abbrev pub count_unknown_tokens : List TokenRecord → ℕ
count_unknown_tokens [] = 0
count_unknown_tokens (t ∷ ts) = (if t.known then 0 else 1) + count_unknown_tokens ts

pub record LemmaReport : Type 0 where
  pub lemma_status : Text
  pub lemma_reason : Text
  pub unknown_tokens : ℕ
  pub matched_tokens : ℕ

abbrev lemma_skipped : Text → ℕ → LemmaReport
lemma_skipped reason unknown = record {
  lemma_status = codes "skipped";
  lemma_reason = reason;
  unknown_tokens = unknown;
  matched_tokens = 0;
}

-- `apply`
unfoldable pub apply_lemmas :
    LemmaMatcher
    → List (Text × List Text)
    → List TokenRecord
    → BoundedCache (List Text)
    → List TokenRecord × BoundedCache (List Text) × LemmaReport
apply_lemmas self single_word tokens cache =
    let unknown = count_unknown_tokens tokens in
    let done =
      match_lemmas self single_word tokens (record { request_cache = []; global_cache = cache }) in
    if ltb self.max_unknown_tokens unknown
    then (tokens, cache, lemma_skipped (codes "max_unknown_tokens_exceeded") unknown)
    else if not (is_available self)
    then (tokens, cache, lemma_skipped (codes "lemminflect_unavailable") unknown)
    else (
      done.0,
      done.2.global_cache,
      record {
        lemma_status = codes "ok";
        lemma_reason = [];
        unknown_tokens = unknown;
        matched_tokens = done.1;
      },
    )

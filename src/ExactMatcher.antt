-- ===== src/ExactMatcher.antt =====
-- backend/python_services/infrastructure/nlp/exact_matcher.py, with the records `TokenRecord` and
-- `PhraseMatchRecord` of backend/python_services/core/domain/models.py. The stage changes the token
-- records in place; here it returns the changed list.
pub mod Laws
use vocabulary_micro.Prelude.{
  ℕ, ◌+◌, ◌-◌, ◌*◌, Bool, true, ◌&&◌, Option, none, some, List, [], ◌∷◌, ◌++◌, map, ltb, leb,
  if◌then◌else◌, get_elem?, take, drop, is_empty, nat_equality, list_equality, pair_equality,
  lookup,
}
use vocabulary_micro.Text.{Text, codes}
use vocabulary_micro.Text.Sets.{sorted_set}
use vocabulary_micro.PhraseMatcher.{PhraseMatch, longest_matches}
use vocabulary_micro.IndexProvider.{LexiconIndexSnapshot, or_empty}

-- A score is kept as it is printed.
pub record TokenRecord : Type 0 where
  pub token : Text
  pub normalized : Text
  pub lemma : Text
  pub pos : Text
  pub start : ℕ
  pub stop : ℕ
  pub categories : List Text
  pub known : Bool
  pub match_source : Text
  pub matched_form : Text
  pub bert_score : Option Text

pub record PhraseMatchRecord : Type 0 where
  pub matched_text : Text
  pub normalized : Text
  pub start_token_index : ℕ
  pub end_token_index : ℕ
  pub categories : List Text

-- `list(snapshot.single_word.get(token_info.normalized, ()))`
abbrev exact_categories : LexiconIndexSnapshot → TokenRecord → List Text
exact_categories snapshot t = or_empty (lookup snapshot.single_word t.normalized)

unfoldable pub match_token : LexiconIndexSnapshot → TokenRecord → TokenRecord
match_token snapshot t = if is_empty (exact_categories snapshot t) then t else record {
  token = t.token;
  normalized = t.normalized;
  lemma = t.lemma;
  pos = t.pos;
  start = t.start;
  stop = t.stop;
  categories = exact_categories snapshot t;
  known = true;
  match_source = codes "exact";
  matched_form = t.normalized;
  bert_score = t.bert_score;
}

unfoldable pub apply_token_matching : LexiconIndexSnapshot → List TokenRecord → List TokenRecord
apply_token_matching snapshot tokens = map (match_token snapshot) tokens

-- The body of the inner loop of `apply_phrase_matching`.
unfoldable pub mark_token : PhraseMatch → TokenRecord → TokenRecord
mark_token m t = record {
  token = t.token;
  normalized = t.normalized;
  lemma = t.lemma;
  pos = t.pos;
  start = t.start;
  stop = t.stop;
  categories = sorted_set (t.categories ++ m.match_categories);
  known = true;
  match_source = if t.known then t.match_source else codes "exact_phrase";
  matched_form = if t.known then t.matched_form else m.normalized;
  bert_score = t.bert_score;
}

-- `token_idx in range(start_idx, end_idx + 1)`
abbrev pub covers : PhraseMatch → ℕ → Bool
covers m i = leb m.start_index i && ltb i (m.end_index + 1)

-- The inner loop, on the tokens from index `i` on.
unfoldable pub mark_tokens : PhraseMatch → ℕ → List TokenRecord → List TokenRecord
mark_tokens m i [] = []
mark_tokens m i (t ∷ ts) = (if covers m i then mark_token m t else t) ∷ mark_tokens m (i + 1) ts

-- `text[a:b]`
unfoldable pub slice : Text → ℕ → ℕ → Text
slice text a b = take (b - a) (drop a text)

-- `text[tokens[start_idx].start : tokens[end_idx].end]`; the indices of a match are in range.
unfoldable pub phrase_text : Text → List TokenRecord → PhraseMatch → Text
phrase_text text tokens m = elim (get_elem? tokens m.start_index) [
  | none ↦ []
  | some first ↦ elim (get_elem? tokens m.end_index) [
    | none ↦ []
    | some last ↦ slice text first.start last.stop
  ]
]

unfoldable pub phrase_record : Text → List TokenRecord → PhraseMatch → PhraseMatchRecord
phrase_record text tokens m = record {
  matched_text = phrase_text text tokens m;
  normalized = m.normalized;
  start_token_index = m.start_index;
  end_token_index = m.end_index;
  categories = m.match_categories;
}

-- The outer loop, over the matches that are left.
unfoldable pub mark_matches :
    Text → List PhraseMatch → List TokenRecord → List TokenRecord × List PhraseMatchRecord
mark_matches text [] tokens = (tokens, [])
mark_matches text (m ∷ ms) tokens =
    let rest = mark_matches text ms (mark_tokens m 0 tokens) in
    (rest.0, phrase_record text tokens m ∷ rest.1)

unfoldable pub apply_phrase_matching :
    Text → List TokenRecord → LexiconIndexSnapshot → List TokenRecord × List PhraseMatchRecord
apply_phrase_matching text tokens snapshot =
    mark_matches text (longest_matches snapshot.phrase_matcher (map (λ t. t.normalized) tokens))
      tokens

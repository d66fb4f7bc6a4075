-- ===== src/LexiconEngine/Hints.antt =====
-- `_apply_pos_category_hints` of lexicon_engine.py.
pub mod Laws
use vocabulary_micro.Prelude.{
  ◌*◌, ◌&&◌, Option, none, some, List, [], ◌∷◌, map, if◌then◌else◌, is_empty, ◌==◌, nat_equality,
  list_equality, pair_equality, lookup,
}
use vocabulary_micro.Text.{Text, codes, lower, upper, strip}
use vocabulary_micro.TextProcessor.Tables.{pos_category_hints}
use vocabulary_micro.ExactMatcher.{TokenRecord}

-- `str(category).strip().casefold()`
abbrev pub fold_category : Text → Text
fold_category category = lower (strip category)

-- `next((category for category in categories if ... == hinted), None)`
unfoldable pub matched_category : Text → List Text → Option Text
matched_category hinted [] = none
matched_category hinted (c ∷ cs) =
    if fold_category c == hinted then some c else matched_category hinted cs

unfoldable pub without_category : Text → List Text → List Text
without_category hinted [] = []
without_category hinted (c ∷ cs) =
    let rest = without_category hinted cs in if fold_category c == hinted then rest else c ∷ rest

-- The categories of a token whose part of speech hints at a category.
unfoldable pub hinted_categories : Text → List Text → List Text
hinted_categories hinted [] = hinted ∷ []
hinted_categories hinted (c ∷ cs) = elim (matched_category (lower hinted) (c ∷ cs)) [
  | none ↦ c ∷ cs
  | some matched ↦ matched ∷ without_category (lower hinted) (c ∷ cs)
]

unfoldable pub hint_token : TokenRecord → TokenRecord
hint_token t = elim (lookup pos_category_hints (upper (strip t.pos))) [
  | none ↦ t
  | some hinted ↦ record {
    token = t.token;
    normalized = t.normalized;
    lemma = t.lemma;
    pos = t.pos;
    start = t.start;
    stop = t.stop;
    categories = hinted_categories hinted t.categories;
    known = t.known;
    match_source =
        if is_empty t.categories && t.match_source == codes "none"
        then codes "spacy_pos_hint"
        else t.match_source;
    matched_form = t.matched_form;
    bert_score = t.bert_score;
  }
]

unfoldable pub apply_pos_category_hints : List TokenRecord → List TokenRecord
apply_pos_category_hints tokens = map hint_token tokens

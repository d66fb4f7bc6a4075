-- ===== src/Tests/Rows.antt =====
-- parse_table_builder.py: the table of two tokens, with an occurrence and a phrase appended.
use vocabulary_micro.Prelude.{
  ◌≡◌, refl, false, Option, none, some, List, [], ◌∷◌, nat_equality, list_beq, list_equality,
  pair_equality, contains,
}
use vocabulary_micro.Text.{codes, lower, strip}
use vocabulary_micro.TextProcessor.Tokens.{ParsedToken, Occurrence, many, missing}
use vocabulary_micro.TableBuilder.{Table, build_table, distinct_categories}

abbrev two_tokens : List ParsedToken
two_tokens =
    record {
      token = codes "Gave";
      normalized = codes "gave";
      lemma = codes "give";
      pos = codes "VERB";
      dep = [];
      categories = many (codes "Verb" ∷ codes " verb" ∷ codes "Noun" ∷ []);
      match_source = codes "lemma";
      matched_form = codes "give";
      bert_score = none;
    }
    ∷ record {
      token = codes "up";
      normalized = codes "up";
      lemma = codes "up";
      pos = codes "ADP";
      dep = codes "prt";
      categories = missing;
      match_source = codes "none";
      matched_form = [];
      bert_score = none;
    }
    ∷ []

-- Categories that differ in case alone are one.
two_categories :
    distinct_categories (codes "Verb" ∷ codes " verb" ∷ codes "Noun" ∷ []) []
    ≡ codes "Verb" ∷ codes "Noun" ∷ []
unfolding distinct_categories contains list_beq lower strip
two_categories = refl

abbrev found : List (Option Occurrence)
found =
    some (record {
      canonical_form = codes "give up";
      surface = codes "gave up";
      expression_type = codes "phrasal-verb";
      usage_label = codes "idiomatic";
      source = [];
      score = none;
      status = [];
      gloss = [];
      sentence_text = [];
      is_separable = false;
    })
    ∷ none
    ∷ []

abbrev first_table : Table
first_table = build_table two_tokens (codes "give" ∷ [])

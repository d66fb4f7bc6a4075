-- ===== src/TextProcessor/Tokens.antt =====
-- The candidates that `TextProcessor` reads from parsed tokens and occurrences: `extract_lexemes`,
-- `category_from_token`, `should_split_homonym_rows`, `build_candidate_categories`,
-- `extract_occurrence_sync_candidates` and `format_sync_message`. `casefold` is `lower`.
pub mod Phrasal
pub mod PhrasalLaws
pub mod Laws
use vocabulary_micro.Prelude.{
  ◌-◌, Bool, false, ◌||◌, not, Option, none, some, List, [], ◌∷◌, ◌++◌, map, ltb, leb,
  if◌then◌else◌, length, is_empty, fold, ◌==◌, nat_equality, list_equality, pair_equality, contains,
  lookup, set_default,
}
use vocabulary_micro.Text.{Text, codes, lower, upper, strip, or_else}
use vocabulary_micro.TextProcessor.Tables.{pos_category_hints, pos_disambiguation_categories}
use vocabulary_micro.TextProcessor.Patterns.{matches_word}
use vocabulary_micro.TextProcessor.Forms.{unique, normalize_lexeme, canonicalize_expression}

-- The value under "categories": missing, a single value, or a list or tuple.
pub data Categories : Type 0 where
  missing : Categories
  single : Text → Categories
  many : List Text → Categories

-- A token of the parser; a missing key reads as "".
pub record ParsedToken : Type 0 where
  pub token : Text
  pub normalized : Text
  pub lemma : Text
  pub pos : Text
  pub dep : Text
  pub categories : Categories
  pub match_source : Text
  pub matched_form : Text
  pub bert_score : Option Text

-- An occurrence of an expression in the summary of a later pass; a missing key reads as "".
pub record Occurrence : Type 0 where
  pub canonical_form : Text
  pub surface : Text
  pub expression_type : Text
  pub usage_label : Text
  pub source : Text
  pub score : Option Text
  pub status : Text
  pub gloss : Text
  pub sentence_text : Text
  pub is_separable : Bool

unfoldable pub tag_of : ParsedToken → Text
tag_of t = upper (strip t.pos)

-- `lemma or self.normalize_lexeme(normalized)` of `extract_lexemes`
unfoldable pub lexeme_of : ParsedToken → Text
lexeme_of t = or_else (normalize_lexeme t.lemma) (normalize_lexeme (lower (strip t.normalized)))

-- The loop of `extract_lexemes`.
unfoldable pub lexemes_of : List ParsedToken → List Text
lexemes_of [] = []
lexemes_of (t ∷ ts) =
    let rest = lexemes_of ts in
    let candidate = lexeme_of t in
    if is_empty candidate || not (matches_word candidate) then rest else candidate ∷ rest

unfoldable pub extract_lexemes : List ParsedToken → List Text
extract_lexemes tokens = unique (lexemes_of tokens)

-- The values of a list that are neither blank nor "-", stripped.
unfoldable pub kept_categories : List Text → List Text
kept_categories [] = []
kept_categories (c ∷ cs) =
    let rest = kept_categories cs in
    let category = strip c in
    if is_empty category || category == codes "-" then rest else category ∷ rest

abbrev pub listed_categories : Categories → List Text
listed_categories missing = []
listed_categories (single c) = []
listed_categories (many cs) = cs

-- The first category that reads like the hint.
unfoldable pub hinted : Text → List Text → Option Text
hinted hint [] = none
hinted hint (c ∷ cs) = let rest = hinted hint cs in if lower c == lower hint then some c else rest

abbrev hint_of : ParsedToken → Text
hint_of t = elim (lookup pos_category_hints (tag_of t)) [ some hint ↦ hint | none ↦ [] ]

unfoldable pub choose_category : Text → List Text → Text
choose_category hint [] = hint
choose_category hint (c ∷ cs) =
    if is_empty (lower hint)
    then c
    else elim (hinted hint (c ∷ cs)) [ some category ↦ category | none ↦ c ]

unfoldable pub category_from_token : ParsedToken → Text
category_from_token t =
    choose_category (hint_of t) (kept_categories (listed_categories t.categories))

-- The names of the categories that are parts of speech.
unfoldable pub pos_like : List Text → List Text
pos_like [] = []
pos_like (c ∷ cs) =
    let rest = pos_like cs in
    let name = lower (strip c) in
    if contains pos_disambiguation_categories name then name ∷ rest else rest

unfoldable pub should_split_homonym_rows : List Text → Bool
should_split_homonym_rows categories =
    if ltb (length categories) 2 then false else leb 2 (length (unique (pos_like categories)))

-- The first loop of `build_candidate_categories`.
unfoldable pub token_categories : List (Text × Text) → ParsedToken → List (Text × Text)
token_categories categories t =
    let candidate = or_else (normalize_lexeme t.lemma) (normalize_lexeme t.normalized) in
    let category = category_from_token t in
    if is_empty candidate || is_empty category
    then categories
    else set_default categories candidate category

-- The second loop.
unfoldable pub phrase_categories : List (Text × Text) → Text → List (Text × Text)
phrase_categories categories phrase =
    let clean_phrase = canonicalize_expression phrase (codes "phrasal_verb") in
    if is_empty clean_phrase
    then categories
    else set_default categories clean_phrase (codes "Phrasal Verb")

unfoldable pub build_candidate_categories : List ParsedToken → List Text → List (Text × Text)
build_candidate_categories parsed_tokens phrasal_verbs =
    fold phrase_categories (fold token_categories [] parsed_tokens) phrasal_verbs

-- The candidate of an occurrence, "" where the loop passes it over.
unfoldable pub occurrence_candidate : Occurrence → Text
occurrence_candidate o =
    let raw_candidate = lower (strip (or_else o.canonical_form o.surface)) in
    if is_empty raw_candidate
    then []
    else canonicalize_expression raw_candidate (lower (strip o.expression_type))

unfoldable pub occurrence_category : Text → Occurrence → Text
occurrence_category auto_add_category o =
    let expression_type = lower (strip o.expression_type) in
    if expression_type == codes "phrasal_verb"
    then codes "Phrasal Verb"
    else if expression_type == codes "idiom"
    then codes "Idiom"
    else if lower (strip o.usage_label) == codes "idiomatic"
    then codes "Idiom"
    else auto_add_category

abbrev pub Gathered : Type 0
Gathered = List Text × List (Text × Text)

-- The body of the loop; none is an item that is no dictionary.
unfoldable pub gather_occurrence : Text → Gathered → Option Occurrence → Gathered
gather_occurrence auto_add_category g none = g
gather_occurrence auto_add_category g (some o) =
    let candidate = occurrence_candidate o in
    if is_empty candidate then g else (
      g.0 ++ candidate ∷ [],
      set_default g.1 candidate (occurrence_category auto_add_category o),
    )

-- `occurrences` is none where it is no list.
unfoldable pub extract_occurrence_sync_candidates :
    Option (List (Option Occurrence)) → Text → Gathered
extract_occurrence_sync_candidates none auto_add_category = ([], [])
extract_occurrence_sync_candidates (some occurrences) auto_add_category =
    let g = fold (gather_occurrence auto_add_category) ([], []) occurrences in (unique g.0, g.1)

abbrev pub item_line : Text → Text
item_line item = codes "- " ++ item

-- `"\n".join(lines)`
unfoldable pub join_lines : List Text → Text
join_lines [] = []
join_lines (line ∷ []) = line
join_lines (line ∷ next ∷ lines) = line ++ 10 ∷ join_lines (next ∷ lines)

unfoldable pub format_sync_message : List Text → List Text → Text
format_sync_message added already_existed = join_lines (
    codes "added:" ∷ map item_line added
    ++ codes "already existed:" ∷ map item_line already_existed)

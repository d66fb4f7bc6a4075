-- ===== src/TableBuilder.antt =====
-- core/use_cases/parse_table_builder.py: `ParseTableBuilder`. A row's first field is its number,
-- whose `str` the code stores, and its last says "yes" or "no".
pub mod Numbers
pub mod Phrases
use vocabulary_micro.Prelude.{
  ℕ, ◌+◌, ◌-◌, Bool, ◌&&◌, ◌||◌, not, Option, none, some, List, [], ◌∷◌, ◌++◌, if◌then◌else◌,
  length, is_empty, fold, ◌==◌, nat_equality, list_equality, pair_equality, contains,
}
use vocabulary_micro.Text.{Text, codes, space, lower, strip, first_part, or_else, replace_code}
use vocabulary_micro.TextProcessor.Forms.{normalize_lexeme, normalize_term, canonicalize_expression}
use vocabulary_micro.TextProcessor.Tokens.{
  ParsedToken, Occurrence, Categories, missing, single, many, should_split_homonym_rows,
}
use vocabulary_micro.CandidateResolver.{normed}

pub record TableRow : Type 0 where
  pub row_index : ℕ
  pub token : Text
  pub normalized : Text
  pub lemma : Text
  pub category : Text
  pub match_source : Text
  pub matched_form : Text
  pub score : Text
  pub known_in_db : Bool

-- The loop over a list of raw categories.
unfoldable pub distinct_categories : List Text → List Text → List Text
distinct_categories [] seen = []
distinct_categories (raw ∷ raws) seen =
    let category = strip raw in
    let skipped = distinct_categories raws seen in
    let rest = distinct_categories raws (lower category ∷ seen) in
    if is_empty category || category == codes "-"
    then skipped
    else if contains seen (lower category)
    then skipped
    else category ∷ rest

unfoldable pub raw_categories : Categories → List Text
raw_categories missing = []
raw_categories (many cs) = distinct_categories cs []
raw_categories (single c) = if is_empty (strip c) || strip c == codes "-" then [] else strip c ∷ []

-- `", ".join(categories)`
unfoldable pub join_categories : List Text → Text
join_categories [] = []
join_categories (c ∷ []) = c
join_categories (c ∷ d ∷ cs) = c ++ b',' ∷ space ∷ join_categories (d ∷ cs)

unfoldable pub categories_for_rows : Categories → List Text
categories_for_rows raw =
    let categories = raw_categories raw in
    if is_empty categories
    then codes "-" ∷ []
    else if not (should_split_homonym_rows categories)
    then join_categories categories ∷ []
    else categories

abbrev pub Table : Type 0
Table = List TableRow

-- The table and the number of the next row.
abbrev pub Numbering : Type 0
Numbering = Table × ℕ

unfoldable pub token_row : List Text → ParsedToken → Numbering → Text → Numbering
token_row known_lemmas item state category = (
  state.0
      ++ record {
        row_index = state.1;
        token = item.token;
        normalized = item.normalized;
        lemma = item.lemma;
        category = category;
        match_source = item.match_source;
        matched_form = item.matched_form;
        score = elim item.bert_score [ some s ↦ s | none ↦ [] ];
        known_in_db =
            not (is_empty (normalize_lexeme item.lemma))
            && contains known_lemmas (normalize_lexeme item.lemma);
      }
        ∷ [],
  state.1 + 1,
)

unfoldable pub token_rows : List Text → Numbering → ParsedToken → Numbering
token_rows known_lemmas state item =
    fold (token_row known_lemmas item) state (categories_for_rows item.categories)

unfoldable pub build_table : List ParsedToken → List Text → Table
build_table tokens known_lemmas = (fold (token_rows known_lemmas) ([], 1) tokens).0

-- `expression_type` of an occurrence, with "_" for "-".
unfoldable pub row_type : Occurrence → Text
row_type o = replace_code b'-' b'_' (lower (strip o.expression_type))

abbrev pub is_row_type : Text → Bool
is_row_type t = t == codes "phrasal_verb" || t == codes "idiom"

unfoldable pub row_form : Occurrence → Text
row_form o =
    canonicalize_expression (normalize_term (or_else o.canonical_form o.surface)) (row_type o)

-- `canonical.split(" ", 1)[0] if " " in canonical else canonical`
unfoldable pub head_of : Text → Text
head_of canonical = if contains canonical space then first_part canonical else canonical

-- The state of the loop over occurrences: `seen` holds the markers, of one source label.
pub record OccurrenceRows : Type 0 where
  pub table : Table
  pub next_index : ℕ
  pub seen : List (Text × Text)

module _ (render_score : Text → Text) (source_label : Text) (known : List Text) where
  -- The row of an occurrence; `render_score` is what `round` and `str` make of a score.
  unfoldable pub occurrence_row : Occurrence → ℕ → TableRow
  occurrence_row o index =
      let canonical = row_form o in
      let usage_label = lower (strip o.usage_label) in
      record {
        row_index = index;
        token = or_else (strip (or_else o.surface canonical)) canonical;
        normalized = canonical;
        lemma = if row_type o == codes "phrasal_verb" then head_of canonical else canonical;
        category =
            if row_type o == codes "phrasal_verb" then codes "Phrasal Verb" else codes "Idiom";
        match_source = or_else (strip (or_else o.source source_label)) source_label;
        matched_form =
            if is_empty usage_label then row_type o else row_type o ++ b':' ∷ usage_label;
        score = elim o.score [ some s ↦ render_score s | none ↦ [] ];
        known_in_db = contains known canonical;
      }

  unfoldable pub add_occurrence : OccurrenceRows → Option Occurrence → OccurrenceRows
  add_occurrence s none = s
  add_occurrence s (some o) =
      if not (is_row_type (row_type o))
      then s
      else if is_empty (row_form o)
      then s
      else if contains s.seen (row_form o, row_type o)
      then s
      else record {
        table = s.table ++ occurrence_row o s.next_index ∷ [];
        next_index = s.next_index + 1;
        seen = (row_form o, row_type o) ∷ s.seen;
      }

-- `append_occurrence_rows`; `occurrences` is none where it is no list, an item none where it is no
-- dictionary.
unfoldable pub append_occurrence_rows :
    (Text → Text) → Text → List Text → Table → Option (List (Option Occurrence)) → Table
append_occurrence_rows render_score source_label known_terms table none = table
append_occurrence_rows render_score source_label known_terms table (some occurrences) =
    (fold (add_occurrence render_score source_label (normed normalize_term known_terms))
      (record { table = table; next_index = length table + 1; seen = [] }) occurrences).table

-- `existing_phrasal_forms`
unfoldable pub phrasal_forms : Table → List Text
phrasal_forms [] = []
phrasal_forms (r ∷ rs) =
    let rest = phrasal_forms rs in
    let form = normalize_term r.normalized in
    if lower (strip r.category) == codes "phrasal verb" && not (is_empty form)
    then form ∷ rest
    else rest

pub record PhrasalRows : Type 0 where
  pub table : Table
  pub next_index : ℕ
  pub forms : List Text

abbrev pub heuristic_row : List Text → Text → ℕ → TableRow
heuristic_row known canonical index = record {
  row_index = index;
  token = canonical;
  normalized = canonical;
  lemma = head_of canonical;
  category = codes "Phrasal Verb";
  match_source = codes "phrasal_heuristic";
  matched_form = codes "adjacent_verb_particle";
  score = [];
  known_in_db = contains known canonical;
}

unfoldable pub add_heuristic : List Text → PhrasalRows → Text → PhrasalRows
add_heuristic known s candidate =
    let canonical = canonicalize_expression candidate (codes "phrasal_verb") in
    if is_empty canonical then s else if contains s.forms canonical then s else record {
      table = s.table ++ heuristic_row known canonical s.next_index ∷ [];
      next_index = s.next_index + 1;
      forms = canonical ∷ s.forms;
    }

unfoldable pub append_heuristic_phrasal_rows : List Text → Table → List Text → Table
append_heuristic_phrasal_rows known_terms table phrasal_verbs =
    if is_empty phrasal_verbs
    then table
    else (fold (add_heuristic (normed normalize_term known_terms))
        (record { table = table; next_index = length table + 1; forms = phrasal_forms table })
        phrasal_verbs).table

-- ===== src/AssignmentScanner/Matches.antt =====
-- `_normalize_known_statuses`, `_filter_known_rows`, `_build_ngram_counters` and `_match_terms`.
pub mod Sound
pub mod Windows
pub mod Complete
use vocabulary_micro.Prelude.{
  ℕ, zero, suc, ◌+◌, ◌-◌, max, min, Bool, true, false, ◌&&◌, ◌||◌, not, List, [], ◌∷◌, ◌++◌, Option,
  none, some, leb, ltb, ◌==◌, nat_equality, list_equality, if◌then◌else◌, length, take, is_empty,
  contains, upsert, lookup, sort, then_by, map,
}
use vocabulary_micro.Text.{Text, codes, lower, strip, split_words, join, or_else}
use vocabulary_micro.Text.Order.{text_before}

-- The columns of `LexiconEntryRecord` that the scanner reads.
pub record Row : Type 0 where
  pub id : ℕ
  pub category : Text
  pub normalized : Text
  pub source : Text
  pub status : Text

-- `AssignmentLexiconMatch`
pub record Match : Type 0 where
  pub entry_id : ℕ
  pub term : Text
  pub category : Text
  pub source : Text
  pub occurrences : ℕ

abbrev pub default_known_statuses : List Text
default_known_statuses = codes "approved" ∷ codes "pending_review" ∷ []

abbrev pub allowed_known_statuses : List Text
allowed_known_statuses = codes "approved" ∷ codes "pending_review" ∷ codes "rejected" ∷ []

-- The loop of `_normalize_known_statuses`; `kept` is `normalized` in order.
unfoldable pub keep_statuses : List Text → List Text → List Text
keep_statuses kept [] = kept
keep_statuses kept (raw ∷ rest) =
    let value = lower (strip raw) in
    keep_statuses
      (if contains allowed_known_statuses value && not (contains kept value)
        then kept ++ value ∷ []
        else kept)
      rest

abbrev pub or_default_statuses : List Text → List Text
or_default_statuses [] = default_known_statuses
or_default_statuses (s ∷ ss) = s ∷ ss

-- `_normalize_known_statuses`
unfoldable pub normalize_known_statuses : Option (List Text) → List Text
unfolding keep_statuses
normalize_known_statuses none = or_default_statuses (keep_statuses [] default_known_statuses)
normalize_known_statuses (some source) = or_default_statuses (keep_statuses [] source)

-- `_filter_known_rows`
unfoldable pub filter_known_rows : List Text → List Row → List Row
filter_known_rows known [] = []
filter_known_rows known (row ∷ rows) =
    let rest = filter_known_rows known rows in
    if contains known (lower (strip row.status)) then row ∷ rest else rest

abbrev pub term_of : Row → Text
term_of row = lower (strip row.normalized)

abbrev pub append_row : Row → Option (List Row) → List Row
append_row row none = row ∷ []
append_row row (some rows) = rows ++ row ∷ []

-- The first loop of `_match_terms`: the rows by term, in order of first appearance.
unfoldable pub group_rows : List (Text × List Row) → List Row → List (Text × List Row)
group_rows groups [] = groups
group_rows groups (row ∷ rows) =
    group_rows
      (if is_empty (term_of row) then groups else upsert groups (term_of row) (append_row row)) rows

-- `max_term_length` behind that loop.
unfoldable pub longest_term : ℕ → List Row → ℕ
longest_term longest [] = longest
longest_term longest (row ∷ rows) =
    longest_term
      (if is_empty (term_of row) then longest else max longest (length (split_words (term_of row))))
      rows

-- The joined windows of `size` tokens, from left to right.
unfoldable pub windows : ℕ → List Text → List Text
windows size [] = []
windows size (t ∷ ts) =
    let rest = windows size ts in
    if leb size (length (t ∷ ts)) then join (take size (t ∷ ts)) ∷ rest else rest

-- `Counter(items).get(item, 0)`
unfoldable pub count_of : List Text → Text → ℕ
count_of [] item = 0
count_of (x ∷ xs) item = (if x == item then 1 else 0) + count_of xs item

-- `ngram_counters.get(size, Counter()).get(term, 0)`: there is a counter for every size from 1 up
-- to `max_length` that does not exceed the number of tokens.
unfoldable pub ngram_count : List Text → ℕ → ℕ → Text → ℕ
unfolding windows count_of
ngram_count tokens max_length size term =
    if leb 1 size && (leb size max_length && leb size (length tokens))
    then count_of (windows size tokens) term
    else 0

abbrev pub match_of : Text → ℕ → Row → Match
match_of term n row = record {
  entry_id = row.id;
  term = term;
  category = row.category;
  source = row.source;
  occurrences = n;
}

-- The second loop of `_match_terms`.
unfoldable pub collect_matches : List Text → ℕ → List (Text × List Row) → List Match
collect_matches tokens max_length [] = []
collect_matches tokens max_length ((term, rows) ∷ groups) =
    let rest = collect_matches tokens max_length groups in
    let n = ngram_count tokens max_length (length (split_words term)) term in
    if n == 0 then rest else map (match_of term n) rows ++ rest

-- The key `(-occurrences, term, category, entry_id)`.
abbrev pub match_before : Match → Match → Bool
match_before =
    then_by (λ a b. ltb b.occurrences a.occurrences)
      (then_by (λ a b. text_before a.term b.term)
        (then_by (λ a b. text_before a.category b.category) (λ a b. ltb a.entry_id b.entry_id)))

-- `max(1, min(max_term_length, 6))`
abbrev pub capped : ℕ → ℕ
capped n = max 1 (min n 6)

-- `_match_terms`
unfoldable pub match_terms : List Row → List Text → List Match
unfolding group_rows longest_term collect_matches
match_terms rows tokens =
    if is_empty rows || is_empty tokens
    then []
    else sort match_before
        (collect_matches tokens (capped (longest_term 1 rows)) (group_rows [] rows))

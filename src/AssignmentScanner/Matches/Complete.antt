-- ===== src/AssignmentScanner/Matches/Complete.antt =====
-- Which rows `_match_terms` finds.
use mathlib.Core.Path.{subst}
use vocabulary_micro.AssignmentScanner.Matches.Windows.{occurrences_of, too_long, ngram_count_lem}
use vocabulary_micro.Prelude.{
  All-map, All-unit, All-both, nat_beq_iff, ◌≤◌, ◌∙◌, any, any-sort, any-append, max, ℕ, ◌<◌, ◌≡◌,
  sym, inl, inr, Bool, true, false, ◌&&◌, List, [], ◌∷◌, ◌++◌, arith, ◌==◌, nat_equality,
  list_equality, if◌then◌else◌, if_case, Bool-cases, length, is_empty, upsert, map, All, &&_true,
}
use vocabulary_micro.Text.{Text, same_text, lower, strip, split_words}
use vocabulary_micro.AssignmentScanner.Matches.{
  Row, Match, term_of, append_row, group_rows, longest_term, ngram_count, match_of, collect_matches,
  match_before, match_terms, capped,
}

-- The row stands in a group of its term.
filed : Row → List (Text × List Row) → Bool
filed row groups = any (λ g. g.0 == term_of row && any (λ r. r.id == row.id) g.1) groups

module _ (row : Row) where
  filed-upsert :
      (groups : List (Text × List Row)) (r : Row)
      → filed row groups ≡ true
      → filed row (upsert groups (term_of r) (append_row r)) ≡ true
  unfolding filed upsert
  filed-upsert [] r h = absurd (ground (arith, h))
  filed-upsert ((term, rows) ∷ groups) r h = elim (Bool-cases (term == term_of r)) [
    | inl e ↦ rw e (ground (arith, h, any-append (λ (x : Row). x.id == row.id) rows (r ∷ [])))
    | inr e ↦ rw e (ground (arith, h, filed-upsert groups r))
  ]

  upsert-filed :
      (groups : List (Text × List Row))
      → filed row (upsert groups (term_of row) (append_row row)) ≡ true
  unfolding filed upsert
  upsert-filed [] = ground (arith, same_text (term_of row) (term_of row), nat_beq_iff row.id row.id)
  upsert-filed ((term, rows) ∷ groups) = elim (Bool-cases (term == term_of row)) [
    | inl e ↦ rw e (
        ground (
          arith,
          any-append (λ (x : Row). x.id == row.id) rows (row ∷ []),
          nat_beq_iff row.id row.id,
          e,
        ))
    | inr e ↦ rw e (ground (arith, upsert-filed groups))
  ]

  group_rows-filed :
      (groups : List (Text × List Row)) (rows : List Row)
      → filed row groups ≡ true
      → filed row (group_rows groups rows) ≡ true
  unfolding group_rows
  group_rows-filed groups [] h = h
  group_rows-filed groups (r ∷ rows) h =
      group_rows-filed
        (if is_empty (term_of r) then groups else upsert groups (term_of r) (append_row r)) rows
        (if_case (λ g. filed row g ≡ true) (is_empty (term_of r)) groups
          (upsert groups (term_of r) (append_row r)) (λ e. h) (λ e. filed-upsert groups r h))

  -- A match of the row.
  abbrev pub is_match : Match → Bool
  is_match m = m.entry_id == row.id && m.term == lower (strip row.normalized)

  any-match_of :
      (term : Text) (n : ℕ) (rows : List Row)
      → (term == term_of row) ≡ true
      → any (λ r. r.id == row.id) rows ≡ true
      → any is_match (map (match_of term n) rows) ≡ true
  any-match_of term n [] e h = absurd (ground (arith, h))
  any-match_of term n (r ∷ rows) e h = ground (arith, e, h, any-match_of term n rows e)

  collect_matches-is_match :
      (tokens : List Text) (limit : ℕ) (groups : List (Text × List Row))
      → 0 < ngram_count tokens limit (length (split_words (term_of row))) (term_of row)
      → filed row groups ≡ true
      → any is_match (collect_matches tokens limit groups) ≡ true
  unfolding filed collect_matches
  collect_matches-is_match tokens limit [] p h = absurd (ground (arith, h))
  collect_matches-is_match tokens limit ((term, rows) ∷ groups) p h =
      let n = ngram_count tokens limit (length (split_words term)) term in
      let rest = collect_matches tokens limit groups in
      let later = collect_matches-is_match tokens limit groups p in
      let appended = any-append is_match (map (match_of term n) rows) rest in
      elim (Bool-cases (term == term_of row && any (λ r. r.id == row.id) rows)) [
        | inl b ↦
            let both = &&_true (term == term_of row) (any (λ r. r.id == row.id) rows) b in
            let same : term ≡ term_of row = (same_text term (term_of row)).0 both.0 in
            let positive : 0 < n =
              subst (λ t. 0 < ngram_count tokens limit (length (split_words t)) t) (sym same) p in
            let some_left : (n == 0) ≡ false = ground (arith, positive) in
            rw some_left (ground (arith, appended, any-match_of term n rows both.0 both.1))
        | inr b ↦
            let more : any is_match rest ≡ true = later (ground (arith, h, b)) in
            if_case (λ ms. any is_match ms ≡ true) (n == 0) rest
              (map (match_of term n) rows ++ rest) (λ e. more) (λ e. ground (arith, appended, more))
      ]

-- Every row with a term is filed.
all_filed :
    (groups : List (Text × List Row)) (rows : List Row)
    → All (λ row. is_empty (term_of row) ≡ false → filed row (group_rows groups rows) ≡ true) rows
unfolding group_rows
all_filed groups [] = tt
all_filed groups (row ∷ rows) = (
  λ e. rw e (
      group_rows-filed row (upsert groups (term_of row) (append_row row)) rows
        (upsert-filed row groups)),
  all_filed
      (if is_empty (term_of row) then groups else upsert groups (term_of row) (append_row row))
      rows,
)

longest-le : (longest : ℕ) (rows : List Row) → longest ≤ longest_term longest rows
unfolding longest_term
longest-le longest [] = omega arith
longest-le longest (row ∷ rows) =
    let next =
      if is_empty (term_of row)
      then longest
      else max longest (length (split_words (term_of row))) in
    let step : longest ≤ next =
      if_case (λ n. longest ≤ n) (is_empty (term_of row)) longest
        (max longest (length (split_words (term_of row)))) (λ e. omega arith) (λ e. omega arith) in
    omega (arith, step, longest-le next rows)

all_shorter :
    (longest : ℕ) (rows : List Row)
    → All
        (λ row.
          is_empty (term_of row) ≡ false
          → length (split_words (term_of row)) ≤ longest_term longest rows)
        rows
unfolding longest_term
all_shorter longest [] = tt
all_shorter longest (row ∷ rows) = (
  λ e. rw e (omega (arith, longest-le (max longest (length (split_words (term_of row)))) rows)),
  all_shorter
      (if is_empty (term_of row) then longest else max longest (length (split_words (term_of row))))
      rows,
)

-- The row's term has from one to six words, and as many tokens in a row spell it.
pub record IsSpelled (tokens : List Text) (row : Row) : Type 0 where
  pub filled : is_empty (lower (strip row.normalized)) ≡ false
  pub worded : 0 < length (split_words (lower (strip row.normalized)))
  pub short : length (split_words (lower (strip row.normalized))) ≤ 6
  pub occurs :
      0
      < occurrences_of
          (length (split_words (lower (strip row.normalized))))
          tokens
          (lower (strip row.normalized))

-- Each row that is spelled somewhere has a match.
pub match_terms-IsComplete :
    (rows : List Row) (tokens : List Text)
    → All (λ row. IsSpelled tokens row → any (is_match row) (match_terms rows tokens) ≡ true) rows
unfolding match_terms
match_terms-IsComplete [] tokens = tt
match_terms-IsComplete (r ∷ rs) [] =
    All-map
      (λ row u h. absurd (
        omega (
          arith,
          h.occurs,
          too_long (length (split_words (term_of row))) [] (term_of row) h.worded,
        )))
      (r ∷ rs) (All-unit (r ∷ rs))
match_terms-IsComplete (r ∷ rs) (t ∷ ts) =
    let rows = r ∷ rs in
    let tokens = t ∷ ts in
    let limit = capped (longest_term 1 rows) in
    let matches = collect_matches tokens limit (group_rows [] rows) in
    All-map
      (λ row both h.
        let size = length (split_words (term_of row)) in
        let shorter : size ≤ longest_term 1 rows = both.1 h.filled in
        let positive : 0 < ngram_count tokens limit size (term_of row) = ground (
          arith,
          ngram_count_lem tokens limit size (term_of row),
          shorter,
          h.worded,
          h.short,
          h.occurs,
        ) in
        any-sort match_before (is_match row) matches
        ∙ collect_matches-is_match row tokens limit (group_rows [] rows) positive (both.0 h.filled))
      rows
      (All-both (λ row. is_empty (term_of row) ≡ false → filed row (group_rows [] rows) ≡ true)
        (λ row.
          is_empty (term_of row) ≡ false → length (split_words (term_of row)) ≤ longest_term 1 rows)
        rows (all_filed [] rows) (all_shorter 1 rows))

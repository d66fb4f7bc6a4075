-- ===== src/AssignmentScanner/Matches/Sound.antt =====
-- What the matches of `_match_terms` are.
use vocabulary_micro.Prelude.{
  any, ℕ, ◌<◌, ◌≡◌, refl, sym, inl, inr, Bool, true, false, ◌&&◌, ◌||◌, not, List, [], ◌∷◌, ◌++◌,
  Option, none, some, arith, ◌==◌, nat_equality, list_equality, if◌then◌else◌, if_case, Bool-cases,
  length, is_empty, upsert, contains, map, list_beq_iff, All, All-append, All-sort, IsSorted,
  sort-IsSorted, IsWeakOrder, then_by-IsWeakOrder, descending-IsWeakOrder, ascending-IsWeakOrder,
  by_key-IsWeakOrder, Distinct, Distinct-concat, &&_true, list_beq,
}
use vocabulary_micro.AssignmentScanner.Matches.Windows.{occurrences_of, ngram_count_lem}
use vocabulary_micro.AssignmentScanner.Matches.Complete.{
  is_match, IsSpelled, match_terms-IsComplete,
}
use vocabulary_micro.Text.{Text, lower, strip, split_words}
use vocabulary_micro.Text.Order.{text_before, text_before-IsWeakOrder}
use vocabulary_micro.AssignmentScanner.Matches.{
  Row, Match, term_of, append_row, group_rows, longest_term, ngram_count, match_of, collect_matches,
  match_before, match_terms, capped, normalize_known_statuses, keep_statuses, or_default_statuses,
  allowed_known_statuses, default_known_statuses,
}

match_before-IsWeakOrder : IsWeakOrder match_before
match_before-IsWeakOrder = then_by-IsWeakOrder (descending-IsWeakOrder (λ m. m.occurrences)) (
    then_by-IsWeakOrder (by_key-IsWeakOrder text_before (λ m. m.term) text_before-IsWeakOrder) (
      then_by-IsWeakOrder (by_key-IsWeakOrder text_before (λ m. m.category) text_before-IsWeakOrder)
        (ascending-IsWeakOrder (λ m. m.entry_id))))

module _ {κ} (P : Row → Type κ) where
  -- A group of rows that have the group's term.
  abbrev Grouped : Text × List Row → Type κ
  Grouped g = All (λ r. P r × (term_of r ≡ g.0)) g.1

  upsert-Grouped :
      (groups : List (Text × List Row)) (row : Row)
      → P row
      → All Grouped groups
      → All Grouped (upsert groups (term_of row) (append_row row))
  unfolding upsert
  upsert-Grouped [] row p h = (((p, refl), tt), tt)
  upsert-Grouped ((term, rows) ∷ groups) row p h = elim (Bool-cases (term == term_of row)) [
    | inl e ↦ rw e (
      All-append (λ r. P r × (term_of r ≡ term)) rows (row ∷ []) h.0
          ((p, sym ((list_beq_iff nat_equality term (term_of row)).0 e)), tt),
      h.1,
    )
    | inr e ↦ rw e (h.0, upsert-Grouped groups row p h.1)
  ]

  group_rows-Grouped :
      (rows : List Row) (groups : List (Text × List Row))
      → All P rows
      → All Grouped groups
      → All Grouped (group_rows groups rows)
  unfolding group_rows
  group_rows-Grouped [] groups ps h = h
  group_rows-Grouped (row ∷ rows) groups ps h = group_rows-Grouped rows _ ps.1 (
      if_case (All Grouped) (is_empty (term_of row)) _ _ (λ _. h)
        (λ _. upsert-Grouped groups row ps.0 h))

  -- A match of a row with the property, with its number of occurrences, which is not 0.
  pub record IsMatch (tokens : List Text) (m : Match) : Type κ where
    pub row : Row
    pub fits : P row
    pub id : m.entry_id ≡ row.id
    pub term : m.term ≡ lower (strip row.normalized)
    pub category : m.category ≡ row.category
    pub source : m.source ≡ row.source
    pub counted : m.occurrences ≡ occurrences_of (length (split_words m.term)) tokens m.term
    pub positive : 0 < m.occurrences

  module _ (tokens : List Text) (limit : ℕ) where
    group_matches :
        (term : Text) (n : ℕ) (rows : List Row)
        → n ≡ occurrences_of (length (split_words term)) tokens term
        → 0 < n
        → Grouped (term, rows)
        → All (IsMatch tokens) (map (match_of term n) rows)
    group_matches term n [] e p h = tt
    group_matches term n (row ∷ rows) e p h = (
      record {
        row = row;
        fits = h.0.0;
        id = refl;
        term = sym h.0.1;
        category = refl;
        source = refl;
        counted = e;
        positive = p;
      },
      group_matches term n rows e p h.1,
    )

    collect_matches-IsMatch :
        (groups : List (Text × List Row))
        → All Grouped groups
        → All (IsMatch tokens) (collect_matches tokens limit groups)
    unfolding collect_matches
    collect_matches-IsMatch [] h = tt
    collect_matches-IsMatch ((term, rows) ∷ groups) h =
        let n = ngram_count tokens limit (length (split_words term)) term in
        if_case (All (IsMatch tokens)) (n == 0) _ _ (λ _. collect_matches-IsMatch groups h.1)
          (λ z.
            All-append (IsMatch tokens) _ _
              (group_matches term n rows
                (ground (arith, z, ngram_count_lem tokens limit (length (split_words term)) term))
                (ground arith) h.0)
              (collect_matches-IsMatch groups h.1))

  -- The matches are in the order of their key; each is of a row, with the number of places at which
  -- as many tokens as the row's term has words spell the term, which is not 0; and each row whose
  -- term has from one to six words and is spelled somewhere has a match.
  pub match_terms-IsMatch :
      (rows : List Row) (tokens : List Text)
      → All P rows
      → IsSorted match_before (match_terms rows tokens)
        × All (IsMatch tokens) (match_terms rows tokens)
        × All
            (λ row. IsSpelled tokens row → any (is_match row) (match_terms rows tokens) ≡ true)
            rows
  unfolding match_terms
  match_terms-IsMatch rows tokens ps = (
    if_case (IsSorted match_before) (is_empty rows || is_empty tokens) _ _ (λ _. tt)
        (λ _. sort-IsSorted match_before match_before-IsWeakOrder _),
    if_case (All (IsMatch tokens)) (is_empty rows || is_empty tokens) _ _ (λ _. tt)
        (λ _. All-sort match_before (IsMatch tokens) _ (
          collect_matches-IsMatch tokens (capped (longest_term 1 rows)) (group_rows [] rows)
            (group_rows-Grouped rows [] ps tt))),
    match_terms-IsComplete rows tokens,
  )

IsAllowed : Text → Type 0
IsAllowed s = contains allowed_known_statuses s ≡ true

module _ (raw : Text) (kept : List Text) where
  value : Text
  value = lower (strip raw)

  next_kept : List Text
  next_kept =
      if contains allowed_known_statuses value && not (contains kept value)
      then kept ++ value ∷ []
      else kept

  next_kept-IsAllowed : All IsAllowed kept → All IsAllowed next_kept
  unfolding next_kept IsAllowed
  next_kept-IsAllowed h =
      if_case (All IsAllowed) (contains allowed_known_statuses value && not (contains kept value)) _
        _ (λ b. All-append IsAllowed kept (value ∷ []) h ((&&_true _ _ b).0, tt)) (λ _. h)

  next_kept-Distinct : Distinct kept → Distinct next_kept
  unfolding next_kept
  next_kept-Distinct d =
      if_case Distinct (contains allowed_known_statuses value && not (contains kept value)) _ _
        (λ b. Distinct-concat kept value d (not_true (contains kept value) (&&_true _ _ b).1))
        (λ _. d)
    where
      not_true : (b : Bool) → not b ≡ true → b ≡ false
      not_true b h = ground arith

keep_statuses-keeps :
    (source kept : List Text)
    → All IsAllowed kept
    → Distinct kept
    → All IsAllowed (keep_statuses kept source) × Distinct (keep_statuses kept source)
unfolding keep_statuses next_kept value
keep_statuses-keeps [] kept h d = (h, d)
keep_statuses-keeps (raw ∷ rest) kept h d =
    keep_statuses-keeps rest (next_kept raw kept) (next_kept-IsAllowed raw kept h)
      (next_kept-Distinct raw kept d)

defaults_fit : All IsAllowed default_known_statuses × Distinct default_known_statuses
unfolding IsAllowed contains list_beq
defaults_fit = ((refl, (refl, tt)), (refl, (refl, tt)))

-- The statuses of a list, or the defaults if the list has none.
abbrev pub Fits : List Text → Type 0
Fits ss =
    (is_empty ss ≡ false) × All (λ s. contains allowed_known_statuses s ≡ true) ss × Distinct ss

or_default_statuses-Fits :
    (ss : List Text) → All IsAllowed ss → Distinct ss → Fits (or_default_statuses ss)
unfolding IsAllowed
or_default_statuses-Fits [] h d = (refl, defaults_fit.0, defaults_fit.1)
or_default_statuses-Fits (s ∷ ss) h d = (refl, h, d)

-- Whatever statuses are configured, the scanner uses a non-empty list of distinct allowed ones.
normalize_known_statuses_lem :
    (source : Option (List Text)) → Fits (normalize_known_statuses source)
unfolding normalize_known_statuses
normalize_known_statuses_lem none =
    let (h, d) = keep_statuses-keeps default_known_statuses [] tt tt in
    or_default_statuses-Fits _ h d
normalize_known_statuses_lem (some source) =
    let (h, d) = keep_statuses-keeps source [] tt tt in or_default_statuses-Fits _ h d

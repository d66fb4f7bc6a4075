-- ===== src/AssignmentScanner/Scan/Laws.antt =====
-- The counts of `scan` against its tokens.
use mathlib.Core.Path.{subst}
use vocabulary_micro.Prelude.{
  contains, if◌then◌else◌, nat_equality, list_equality, ℕ, ◌+◌, ◌≤◌, ◌≡◌, refl, Bool, true, false,
  List, [], ◌∷◌, Option, some, arith, length, length-map,
}
use vocabulary_micro.Text.{Text, lower, strip}
use vocabulary_micro.AssignmentScanner.Matches.{Row, normalize_known_statuses, filter_known_rows}
use vocabulary_micro.AssignmentScanner.Tokens.{tokenize, normalize_tokens}
use vocabulary_micro.AssignmentScanner.Mask.{mask_terms}
use vocabulary_micro.AssignmentScanner.Mask.Greedy.{Greedy, build_known_mask-Greedy, mask_limit}
use vocabulary_micro.AssignmentScanner.Scan.{
  Answer, found, failed, ScanResult, Opcode, count_true, known_rows, result_of, answer_message,
  scan,
}

count_true-le : (m : List Bool) → count_true m ≤ length m
unfolding count_true
count_true-le [] = omega arith
count_true-le (true ∷ m) = omega (arith, count_true-le m)
count_true-le (false ∷ m) = omega (arith, count_true-le m)

-- How many flags of a mask are `b`.
abbrev pub count_flags : Bool → List Bool → ℕ
count_flags b [] = 0
count_flags true (true ∷ m) = 1 + count_flags true m
count_flags true (false ∷ m) = count_flags true m
count_flags false (true ∷ m) = count_flags false m
count_flags false (false ∷ m) = 1 + count_flags false m

count_true_lem : (m : List Bool) → count_true m ≡ count_flags true m
unfolding count_true
count_true_lem [] = refl
count_true_lem (true ∷ m) = omega (arith, count_true_lem m)
count_true_lem (false ∷ m) = omega (arith, count_true_lem m)

count_flags_both : (m : List Bool) → count_flags true m + count_flags false m ≡ length m
count_flags_both [] = omega arith
count_flags_both (true ∷ m) = omega (arith, count_flags_both m)
count_flags_both (false ∷ m) = omega (arith, count_flags_both m)

-- The rows of an answer that are known: those with one of the statuses.
abbrev pub has_status : List Text → Row → Bool
has_status known row = contains known (lower (strip row.status))

abbrev pub rows_of : Answer → List Row
rows_of (found rows) = rows
rows_of (failed message) = []

abbrev pub chosen : (Row → Bool) → List Row → List Row
chosen p [] = []
chosen p (row ∷ rows) = if p row then row ∷ chosen p rows else chosen p rows

filter_known_rows_lem :
    (known : List Text) (rows : List Row)
    → filter_known_rows known rows ≡ chosen (has_status known) rows
unfolding filter_known_rows
filter_known_rows_lem known [] = refl
filter_known_rows_lem known (row ∷ rows) = rw (filter_known_rows_lem known rows) refl

known_rows_lem :
    (statuses : Option (List Text)) (answer : Answer)
    → known_rows statuses answer
      ≡ chosen (has_status (normalize_known_statuses statuses)) (rows_of answer)
known_rows_lem statuses (found rows) =
    filter_known_rows_lem (normalize_known_statuses statuses) rows
known_rows_lem statuses (failed message) = refl

module _ {Percent : Type 0} (no_percent : Percent) (percent : ℕ → ℕ → Percent)
    (opcodes : List Text → List Text → List Opcode) where
  -- For every configuration, answer of the lexicon and texts the scan ends with a result: its words
  -- are the tokens of the completed text, the known ones are those that the greedy cover by the
  -- rows with a configured status marks, and the unknown ones are the others; a failed answer has
  -- no row.
  pub scan_counts :
      (statuses : Option (List Text)) (answer : Answer) (completed original title : Text)
      → (r : ScanResult Percent) × (mask : List Bool) × (scan no_percent percent opcodes statuses
            answer completed original title
          ≡ some r)
        × (r.word_count ≡ length (tokenize completed))
        × (r.known_token_count + r.unknown_token_count ≡ r.word_count)
        × (r.known_token_count ≡ count_flags true mask)
        × (r.unknown_token_count ≡ count_flags false mask)
        × (let known = chosen (has_status (normalize_known_statuses statuses)) (rows_of answer) in
            Greedy
              (mask_terms known)
              (mask_limit known)
              (normalize_tokens (tokenize completed))
              mask)
  unfolding scan
  scan_counts statuses answer completed original title =
      let tokens = normalize_tokens (tokenize completed) in
      let rows = known_rows statuses answer in
      let (mask, e, g, l) = build_known_mask-Greedy rows tokens in
      let same : length tokens ≡ length (tokenize completed) =
        unfold normalize_tokens in length-map (tokenize completed) _ in
      (
        result_of no_percent percent opcodes completed original title rows (answer_message answer)
            tokens mask,
        mask,
        rw (e, scan),
        same,
        omega (arith, count_true-le mask, l),
        count_true_lem mask,
        omega (arith, count_true_lem mask, count_flags_both mask, l),
        subst (λ rows. Greedy (mask_terms rows) (mask_limit rows) tokens mask)
            (known_rows_lem statuses answer) g,
      )

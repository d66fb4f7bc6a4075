-- ===== src/Tests/Scanner.antt =====
-- assignment_scanner_service.py on small inputs.
use vocabulary_micro.Prelude.{
  any, ℕ, ◌+◌, ◌≤◌, ◌<◌, ◌≡◌, refl, Bool, true, false, none, some, List, [], ◌∷◌, arith, length,
  All, IsSorted, nat_equality, list_beq, list_equality, pair_equality, contains,
}
use vocabulary_micro.Text.{Text, codes, is_space, lower, strip, runs}
use vocabulary_micro.AssignmentScanner.Tokens.{tokenize, normalize_tokens}
use vocabulary_micro.AssignmentScanner.Matches.{
  Row, match_before, match_terms, normalize_known_statuses,
}
use vocabulary_micro.AssignmentScanner.Matches.Complete.{IsSpelled, is_match}
use vocabulary_micro.AssignmentScanner.Matches.Sound.{IsMatch, match_terms-IsMatch}
use vocabulary_micro.AssignmentScanner.Mask.{build_known_mask, mask_terms}
use vocabulary_micro.AssignmentScanner.Mask.Greedy.{Greedy, mask_limit, build_known_mask-Greedy}
use vocabulary_micro.AssignmentScanner.Missing.{collect_missing_words}
use vocabulary_micro.AssignmentScanner.Missing.Laws.{
  unknown_occurrences, word_before, terms_of, collect_missing_words_lem,
}
use vocabulary_micro.AssignmentScanner.Scan.{found, ScanResult, Opcode, scan}
use vocabulary_micro.AssignmentScanner.Scan.Laws.{count_flags, has_status, chosen, scan_counts}

abbrev row : ℕ → Text → Row
row id term = record {
  id = id;
  category = codes "Verb";
  normalized = term;
  source = codes "auto";
  status = codes "approved";
}

abbrev rows : List Row
rows = row 1 (codes "give up") ∷ row 2 (codes "give") ∷ []

abbrev tokens : List Text
tokens = codes "give" ∷ codes "up" ∷ codes "hope" ∷ codes "give" ∷ []

tokenize_test : tokenize (codes "Don't GIVE up-") ≡ codes "don't" ∷ codes "give" ∷ codes "up" ∷ []
unfolding tokenize
tokenize_test = refl

mask_test : build_known_mask rows tokens ≡ some (true ∷ true ∷ false ∷ true ∷ [])
unfolding build_known_mask strip lower is_space runs contains list_beq
mask_test = refl

build_known_mask-Greedy_example :
    (m : List Bool) × (build_known_mask rows tokens ≡ some m)
    × Greedy (mask_terms rows) (mask_limit rows) tokens m
    × (length m ≡ length tokens)
build_known_mask-Greedy_example = build_known_mask-Greedy rows tokens

match_terms-IsMatch_example :
    IsSorted match_before (match_terms rows tokens)
    × All (IsMatch (λ r. r.id ≤ 2) tokens) (match_terms rows tokens)
    × All (λ row. IsSpelled tokens row → any (is_match row) (match_terms rows tokens) ≡ true) rows
match_terms-IsMatch_example = match_terms-IsMatch (λ r. r.id ≤ 2) rows tokens (omega arith)

collect_missing_words_lem_example :
    let words =
      collect_missing_words (codes "Give up hope.") tokens (true ∷ true ∷ false ∷ true ∷ []) in
    IsSorted word_before words
    × All
        (λ x.
          (x.occurrences ≡ unknown_occurrences x.term tokens (true ∷ true ∷ false ∷ true ∷ []))
          × (0 < x.occurrences))
        words
    × ((w : Text)
        → 0 < unknown_occurrences w tokens (true ∷ true ∷ false ∷ true ∷ [])
        → contains (terms_of words) w ≡ true)
collect_missing_words_lem_example =
    collect_missing_words_lem (codes "Give up hope.") tokens (true ∷ true ∷ false ∷ true ∷ [])

abbrev no_opcodes : List Text → List Text → List Opcode
no_opcodes original completed = []

scan_counts_example :
    (r : ScanResult ℕ) × (mask : List Bool) × (scan 0
        (λ k n. k)
        no_opcodes
        none
        (found rows)
        (codes "Give up hope")
        []
        []
      ≡ some r)
    × (r.word_count ≡ length (tokenize (codes "Give up hope")))
    × (r.known_token_count + r.unknown_token_count ≡ r.word_count)
    × (r.known_token_count ≡ count_flags true mask)
    × (r.unknown_token_count ≡ count_flags false mask)
    × (let known = chosen (has_status (normalize_known_statuses none)) rows in
        Greedy
          (mask_terms known)
          (mask_limit known)
          (normalize_tokens (tokenize (codes "Give up hope")))
          mask)
scan_counts_example =
    scan_counts 0 (λ k n. k) no_opcodes none (found rows) (codes "Give up hope") [] []

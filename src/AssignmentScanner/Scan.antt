-- ===== src/AssignmentScanner/Scan.antt =====
-- `scan`, with the lexicon's answer and the diff of `difflib` as arguments.
pub mod Laws
use vocabulary_micro.Prelude.{
  ℕ, zero, suc, ◌+◌, ◌-◌, Bool, true, false, List, [], ◌∷◌, Option, none, some, if◌then◌else◌,
  length, map,
}
use vocabulary_micro.Text.{Text, codes, strip, join, or_else}
use vocabulary_micro.AssignmentScanner.Tokens.{tokenize, normalize_tokens}
use vocabulary_micro.AssignmentScanner.Matches.{
  Row, Match, normalize_known_statuses, filter_known_rows, match_terms,
}
use vocabulary_micro.AssignmentScanner.Mask.{build_known_mask}
use vocabulary_micro.AssignmentScanner.Missing.{MissingWord, collect_missing_words}

-- `AssignmentDiffChunk`
pub record DiffChunk : Type 0 where
  pub operation : Text
  pub original_text : Text
  pub completed_text : Text

-- The fields of `AssignmentScanResultDTO`, without the durations; the coverage is in percent, as
-- the arguments of `scan` round it.
pub record ScanResult (Percent : Type 0) : Type 0 where
  pub title : Text
  pub content_original : Text
  pub content_completed : Text
  pub word_count : ℕ
  pub matches : List Match
  pub diff_chunks : List DiffChunk
  pub message : Text
  pub missing_words : List MissingWord
  pub known_token_count : ℕ
  pub unknown_token_count : ℕ
  pub coverage : Percent

-- An answer of `LexiconSearchPort.search`: its rows, or its error message.
pub data Answer : Type 0 where
  found : List Row → Answer
  failed : Text → Answer

-- `sum(1 for flag in known_mask if flag)`
unfoldable pub count_true : List Bool → ℕ
count_true [] = 0
count_true (b ∷ m) = (if b then 1 else 0) + count_true m

abbrev pub known_rows : Option (List Text) → Answer → List Row
known_rows statuses (found rows) = filter_known_rows (normalize_known_statuses statuses) rows
known_rows statuses (failed message) = []

abbrev pub answer_message : Answer → Text
answer_message (found rows) = codes "Assignment scan completed."
answer_message (failed message) =
    or_else message (codes "Assignment scan completed with lexicon fallback.")

-- An opcode of `SequenceMatcher.get_opcodes`, with the tokens of its two ranges.
pub record Opcode : Type 0 where
  pub operation : Text
  pub original : List Text
  pub completed : List Text

module _ {Percent : Type 0} (no_percent : Percent) (percent : ℕ → ℕ → Percent)
    (opcodes : List Text → List Text → List Opcode) where
  -- `_build_diff_chunks`
  unfoldable pub build_diff_chunks : List Text → List Text → List DiffChunk
  build_diff_chunks original completed =
      map
        (λ o. record {
          operation = o.operation;
          original_text = strip (join o.original);
          completed_text = strip (join o.completed);
        })
        (opcodes original completed)

  abbrev coverage_of : ℕ → ℕ → Percent
  coverage_of known zero = no_percent
  coverage_of known (suc n) = percent known (suc n)

  abbrev pub result_of :
      Text → Text → Text → List Row → Text → List Text → List Bool → ScanResult Percent
  result_of completed original title rows message tokens mask = record {
    title = strip title;
    content_original = original;
    content_completed = completed;
    word_count = length tokens;
    matches = match_terms rows tokens;
    diff_chunks = build_diff_chunks (tokenize original) (tokenize completed);
    message = message;
    missing_words = collect_missing_words completed tokens mask;
    known_token_count = count_true mask;
    unknown_token_count = length tokens - count_true mask;
    coverage = coverage_of (count_true mask) (length tokens);
  }

  -- `scan`; `none` would be a mask whose loop does not end.
  unfoldable pub scan :
      Option (List Text) → Answer → Text → Text → Text → Option (ScanResult Percent)
  scan statuses answer completed original title =
      let tokens = normalize_tokens (tokenize completed) in
      let rows = known_rows statuses answer in
      elim (build_known_mask rows tokens) [
        | none ↦ none
        | some mask ↦
            some (result_of completed original title rows (answer_message answer) tokens mask)
      ]

-- ===== src/IndexProvider/Pieces.antt =====
-- TOKEN_PATTERN and normalize_whitespace of backend/python_services/infrastructure/nlp/text_utils.py; the
-- pattern finds the runs of letters, joined by single hyphens or apostrophes.
use vocabulary_micro.Prelude.{
  ℕ, Bool, ◌||◌, List, [], ◌∷◌, ◌++◌, map, if◌then◌else◌, ◌==◌, nat_equality, list_equality,
  pair_equality,
}
use vocabulary_micro.Text.{Text, lower, strip, collapse}

-- `normalize_whitespace`
unfoldable pub normalize_whitespace : Text → Text
normalize_whitespace value = strip (collapse value)

-- Where a search of the pattern stands: outside a match, in a run of letters, or behind a joint
-- that belongs to the match only if a letter follows.
pub data Search : Type 0 where
  outside : Search
  in_run : Text → Search
  at_joint : Text → ℕ → Search

unfoldable pub joins_words : ℕ → Bool
joins_words c = c == b'-' || c == b'\''

unfoldable pub finish : Search → List Text
finish outside = []
finish (in_run w) = w ∷ []
finish (at_joint w j) = w ∷ []

unfoldable pub take_letter : Search → ℕ → Search
take_letter outside c = in_run (c ∷ [])
take_letter (in_run w) c = in_run (w ++ c ∷ [])
take_letter (at_joint w j) c = in_run (w ++ (j ∷ c ∷ []))

unfoldable pub take_other : Search → ℕ → Search × List Text
take_other (in_run w) c = if joins_words c then (at_joint w c, []) else (outside, w ∷ [])
take_other search c = (outside, finish search)

module _ (is_letter : ℕ → Bool) where
  -- `TOKEN_PATTERN.findall(s)`
  unfoldable pub find_pieces : Search → Text → List Text
  find_pieces search [] = finish search
  find_pieces search (c ∷ s) =
      let step = if is_letter c then (take_letter search c, []) else take_other search c in
      step.1 ++ find_pieces step.0 s

  -- `[token.lower() for token in TOKEN_PATTERN.findall(value)]`
  unfoldable pub pieces : Text → List Text
  pieces value = map lower (find_pieces outside value)

-- ===== src/AssignmentScanner/Tokens.antt =====
-- `_tokenize` and `_normalize_tokens`.
use vocabulary_micro.Prelude.{
  ℕ, Bool, ◌&&◌, ◌||◌, List, [], ◌∷◌, ◌++◌, map, leb, ◌==◌, nat_equality, if◌then◌else◌,
}
use vocabulary_micro.Text.{Text, lower, or_else}
use vocabulary_micro.TextProcessor.Forms.{normalize_lexeme}

-- `[A-Za-z]`
unfoldable pub is_alpha : ℕ → Bool
is_alpha c = leb b'A' c && leb c b'Z' || (leb b'a' c && leb c b'z')

-- Where a search for TOKEN_PATTERN stands: outside a token, in its first run of letters, behind
-- the joint that may follow it, or in its second run.
pub data Mode : Type 0 where
  outside : Mode
  first : Text → Mode
  pending : Text → ℕ → Mode
  second : Text → Mode

-- The token that is complete when the search meets the end, or a character that ends it.
unfoldable emitted : Mode → List Text
emitted outside = []
emitted (first w) = w ∷ []
emitted (pending w j) = w ∷ []
emitted (second w) = w ∷ []

-- A character that is no letter.
unfoldable on_other : Mode → ℕ → Mode × List Text
on_other outside c = (outside, [])
on_other (first w) c = if c == 39 || c == 45 then (pending w c, []) else (outside, w ∷ [])
on_other (pending w j) c = (outside, w ∷ [])
on_other (second w) c = (outside, w ∷ [])

unfoldable on_letter : Mode → ℕ → Mode
on_letter outside c = first (c ∷ [])
on_letter (first w) c = first (w ++ c ∷ [])
on_letter (pending w j) c = second (w ++ (j ∷ c ∷ []))
on_letter (second w) c = second (w ++ c ∷ [])

unfoldable find_tokens : Mode → Text → List Text
unfolding is_alpha emitted on_other on_letter
find_tokens mode [] = emitted mode
find_tokens mode (c ∷ s) =
    let step = if is_alpha c then (on_letter mode c, []) else on_other mode c in
    step.1 ++ find_tokens step.0 s

-- `_tokenize`: the matches of TOKEN_PATTERN in order, casefolded.
unfoldable pub tokenize : Text → List Text
unfolding find_tokens lower
tokenize content = map lower (find_tokens outside content)

-- `_normalize_tokens`
unfoldable pub normalize_tokens : List Text → List Text
normalize_tokens tokens = map (λ t. or_else (normalize_lexeme t) t) tokens

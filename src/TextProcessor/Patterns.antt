-- ===== src/TextProcessor/Patterns.antt =====
-- The patterns WORD_RE and SAFE_TERM_RE, run by an automaton, and the grammars that they spell out.
pub mod Grammar
use vocabulary_micro.Prelude.{
  ℕ, ◌≡◌, refl, sym, ap, ◌∙◌, ◌↔◌, ◌⊎◌, inl, inr, Bool, true, false, ◌&&◌, ◌||◌, not, List, [], ◌∷◌,
  ◌++◌, arith, All, if◌then◌else◌, Bool-cases, is_empty, leb, ◌==◌, nat_equality,
}
use vocabulary_micro.Text.{Text, space}

-- `[a-z]`
unfoldable pub is_letter : ℕ → Bool
is_letter c = leb b'a' c && leb c b'z'

-- `[-']`
unfoldable pub is_joint : ℕ → Bool
is_joint c = c == 45 || c == 39

-- Where the automaton stands: before a letter that must come, behind a letter, or lost.
pub data Scan : Type 0 where
  wanting behind lost : Scan

module _ (joint : ℕ → Bool) where
  unfoldable advance : Scan → ℕ → Scan
  unfolding is_letter
  advance wanting c = if is_letter c then behind else lost
  advance behind c = if is_letter c then behind else if joint c then wanting else lost
  advance lost c = lost

  unfoldable pub matches_from : Scan → Text → Bool
  unfolding advance
  matches_from wanting [] = false
  matches_from behind [] = true
  matches_from lost [] = false
  matches_from state (c ∷ s) = matches_from (advance state c) s

-- WORD_RE.fullmatch(s) is not None
unfoldable pub matches_word : Text → Bool
unfolding is_joint matches_from
matches_word = matches_from is_joint wanting

-- SAFE_TERM_RE.fullmatch(s) is not None: words whose joints may be spaces too.
unfoldable pub matches_safe_term : Text → Bool
unfolding is_joint matches_from
matches_safe_term = matches_from (λ c. is_joint c || c == space) wanting

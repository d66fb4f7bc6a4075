-- ===== src/TextProcessor/Forms/Terms.antt =====
-- The words of what `normalize_term` returns.
use vocabulary_micro.Prelude.{◌≡◌, refl, ap, ◌∙◌, sym, map}
use vocabulary_micro.Text.{Text, is_space, lower, split_words, join}
use vocabulary_micro.Text.Words.{runs-All, runs-join}
use vocabulary_micro.Text.Normal.{collapse-lower-strip, lowered-IsWord, map-lower_idem}
use vocabulary_micro.TextProcessor.Forms.{normalize_term}

-- For every text, `normalize_term` is the text's words in lower case, joined by single spaces.
pub normalize_term-eq-join : (s : Text) → normalize_term s ≡ join (map lower (split_words s))
unfolding normalize_term
normalize_term-eq-join s = collapse-lower-strip s

split_words-normalize_term : (s : Text) → split_words (normalize_term s) ≡ map lower (split_words s)
split_words-normalize_term s = rw (normalize_term-eq-join s) (
    runs-join is_space (unfold is_space in refl) (map lower (split_words s))
      (lowered-IsWord (split_words s) (runs-All is_space s)))

-- Normalising twice changes nothing.
pub normalize_term_idem : (s : Text) → normalize_term (normalize_term s) ≡ normalize_term s
normalize_term_idem s =
    normalize_term-eq-join (normalize_term s)
    ∙ ap (λ ws. join (map lower ws)) (split_words-normalize_term s)
    ∙ ap join (map-lower_idem (split_words s))
    ∙ sym (normalize_term-eq-join s)

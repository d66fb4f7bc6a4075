-- ===== src/Tests/TextProcessing.antt =====
-- text_processor.py on small inputs.
use vocabulary_micro.Prelude.{
  ℕ, ◌≤◌, ◌≡◌, refl, ◌↔◌, ◌⊎◌, true, false, List, [], ◌∷◌, length, nat_equality, list_beq,
  list_equality, pair_equality, contains, lookup,
}
use vocabulary_micro.Text.{
  Text, codes, is_space, lower, strip, runs, split_words, join, collapse, first_part, ends_with,
  drop_last, replace_code,
}
use vocabulary_micro.Text.Words.{IsWord}
use vocabulary_micro.TextProcessor.Patterns.{matches_word, matches_safe_term}
use vocabulary_micro.TextProcessor.Patterns.Grammar.{SafeTerm, matches_safe_term_iff}
use vocabulary_micro.TextProcessor.Forms.{
  normalize_lexeme, normalize_term, normalize_verb_head, head_form, canonicalize_expression,
  canonical_parts, canonical_parts, normalize_type,
}
use vocabulary_micro.TextProcessor.Forms.Terms.{normalize_term_idem}
use vocabulary_micro.TextProcessor.Forms.Canonical.{words_of, SameButHead, canonicalize-SameButHead}
use vocabulary_micro.TextProcessor.Tables.{auto_add_blocklist}
use vocabulary_micro.TextProcessor.Admission.{allow_auto_add, is_syncable_stopword}
use vocabulary_micro.TextProcessor.Admission.Rules.{allow_auto_add_iff}

abbrev spaced_text : Text
spaced_text = codes "  Took   OFF\n"

normalize_term_test : normalize_term spaced_text ≡ codes "took off"
unfolding normalize_term strip lower collapse is_space
normalize_term_test = refl

canonical_test : canonicalize_expression spaced_text (codes "Phrasal-Verb") ≡ codes "take off"
unfolding canonicalize_expression normalize_term strip lower collapse runs is_space normalize_type
    replace_code canonical_parts list_beq normalize_verb_head head_form matches_word lookup
    first_part join
canonical_test = refl

lexeme_test : normalize_lexeme (codes "Books") ≡ codes "book"
unfolding normalize_lexeme strip lower is_space ends_with drop_last list_beq contains
lexeme_test = refl

-- A lexeme with a space inside may lose more when it is normalised again.
lexeme_test_again :
    (normalize_lexeme (codes "abc s") ≡ codes "abc ")
    × (normalize_lexeme (codes "abc ") ≡ codes "abc")
unfolding normalize_lexeme strip lower is_space ends_with drop_last list_beq contains
lexeme_test_again = (refl, refl)

normalize_term_idem_example :
    normalize_term (normalize_term spaced_text) ≡ normalize_term spaced_text
normalize_term_idem_example = normalize_term_idem spaced_text

books-IsWord : IsWord is_space (codes "Books")
unfolding is_space
books-IsWord = record { filled = refl; solid = (refl, (refl, (refl, (refl, (refl, tt))))) }

abbrev repeated : List ℕ
repeated = 3 ∷ 5 ∷ 3 ∷ []

canonicalize-SameButHead_example :
    SameButHead
      (words_of spaced_text)
      (split_words (canonicalize_expression spaced_text (codes "idiom")))
canonicalize-SameButHead_example = canonicalize-SameButHead spaced_text (codes "idiom")

matches_safe_term_iff_example :
    (matches_safe_term (codes "look up to") ≡ true) ↔ SafeTerm (codes "look up to")
matches_safe_term_iff_example = matches_safe_term_iff (codes "look up to")

allow_auto_add_iff_example :
    let t = lower (strip (codes " Up ")) in
    (allow_auto_add (codes " Up ") (codes "Particle") ≡ true) ↔ (
      SafeTerm t
      × (2 ≤ length t)
      × ((contains auto_add_blocklist t ≡ false)
          ⊎ (is_syncable_stopword t (codes "Particle") ≡ true)))
allow_auto_add_iff_example = allow_auto_add_iff (codes " Up ") (codes "Particle")

-- A head that ends in "ss" loses its last letter.
pass_out_test : canonicalize_expression (codes "pass out") (codes "phrasal_verb") ≡ codes "pas out"
unfolding canonicalize_expression canonical_parts normalize_term lower strip collapse runs
    first_part list_beq contains lookup normalize_type replace_code join normalize_verb_head
    head_form matches_word ends_with drop_last
pass_out_test = refl

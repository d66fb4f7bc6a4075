-- ===== src/Tests/Tokenizing.antt =====
-- Runs of the tokenizer, with what holds of them.
use vocabulary_micro.Prelude.{
  ℕ, ◌≡◌, refl, Bool, false, ◌&&◌, ◌||◌, none, List, [], ◌∷◌, map, leb, All, nat_equality,
  list_equality, pair_equality,
}
use vocabulary_micro.Text.{Text, codes}
use vocabulary_micro.IndexProvider.Pieces.{outside, find_pieces}
use vocabulary_micro.ExactMatcher.{TokenRecord}
use vocabulary_micro.Tokenizer.{
  Spacy, TokenizerState, new_tokenizer, tokenize_with_regex, tokenize_with_doc,
}
use vocabulary_micro.Tokenizer.Spans.{IsToken, tokenize_with_regex-IsToken}

abbrev letter : ℕ → Bool
letter c = leb b'A' c && leb c b'Z' || leb b'a' c && leb c b'z'

abbrev text : Text
text = codes "It's up-- to"

spans : List TokenRecord → List (ℕ × ℕ)
spans ts = map (λ t. (t.start, t.stop)) ts

three_tokens : spans (tokenize_with_regex letter text) ≡ (0, 4) ∷ (5, 7) ∷ (10, 12) ∷ []
unfolding spans tokenize_with_regex tokenize_with_doc vocabulary_micro.Tokenizer.find_matches
    vocabulary_micro.Tokenizer.get_spacy_nlp vocabulary_micro.Tokenizer.set_nlp
    vocabulary_micro.Tokenizer.tokenize_with_spacy_doc vocabulary_micro.IndexProvider.Pieces.finish
    vocabulary_micro.IndexProvider.Pieces.take_letter
    vocabulary_micro.IndexProvider.Pieces.joins_words
    vocabulary_micro.IndexProvider.Pieces.take_other
three_tokens = refl

abbrev no_spacy : Spacy
no_spacy = record { imported = false; load = none; blank = none }

cut : spans (tokenize_with_doc letter no_spacy 2 new_tokenizer text).0 ≡ (0, 4) ∷ (5, 7) ∷ []
unfolding spans tokenize_with_regex tokenize_with_doc vocabulary_micro.Tokenizer.find_matches
    vocabulary_micro.Tokenizer.get_spacy_nlp vocabulary_micro.Tokenizer.set_nlp
    vocabulary_micro.Tokenizer.tokenize_with_spacy_doc vocabulary_micro.IndexProvider.Pieces.finish
    vocabulary_micro.IndexProvider.Pieces.take_letter
    vocabulary_micro.IndexProvider.Pieces.joins_words
    vocabulary_micro.IndexProvider.Pieces.take_other
cut = refl

tokenize_with_regex-IsToken_example :
    All (IsToken letter text) (tokenize_with_regex letter text)
    × (map (λ (t : TokenRecord). t.token) (tokenize_with_regex letter text)
        ≡ find_pieces letter outside text)
tokenize_with_regex-IsToken_example = tokenize_with_regex-IsToken letter text

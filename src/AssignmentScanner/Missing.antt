-- ===== src/AssignmentScanner/Missing.antt =====
-- `_collect_missing_words` and `_find_sentence_for_term`.
pub mod Laws
use vocabulary_micro.Prelude.{
  ℕ, zero, suc, ◌+◌, Bool, true, false, ◌&&◌, ◌||◌, not, List, [], ◌∷◌, ◌++◌, Option, none, some,
  leb, ltb, ◌==◌, nat_equality, list_equality, if◌then◌else◌, length, is_empty, upsert, sort,
  then_by, map,
}
use vocabulary_micro.Text.{Text, is_space, lower, strip}
use vocabulary_micro.Text.Order.{text_before}

-- `AssignmentMissingWord`
pub record MissingWord : Type 0 where
  pub term : Text
  pub occurrences : ℕ
  pub example_usage : Text

-- `unknown_counter[token] += 1`
abbrev pub plus_one : Option ℕ → ℕ
plus_one none = 1
plus_one (some n) = n + 1

-- The loop over `zip(completed_tokens, known_mask)`.
unfoldable pub count_unknown : List (Text × ℕ) → List Text → List Bool → List (Text × ℕ)
count_unknown counter [] mask = counter
count_unknown counter (t ∷ ts) [] = counter
count_unknown counter (t ∷ ts) (known ∷ mask) =
    count_unknown (if known || ltb (length t) 2 then counter else upsert counter t plus_one) ts mask

-- The key `(-occurrences, term)`.
abbrev pub item_before : Text × ℕ → Text × ℕ → Bool
item_before = then_by (λ a b. ltb b.1 a.1) (λ a b. text_before a.0 b.0)

-- `[.!?]`
unfoldable is_mark : ℕ → Bool
is_mark c = c == b'.' || (c == b'!' || c == b'?')

-- `SENTENCE_SPLIT_PATTERN.split(s)` from a place in a sentence whose start is `piece`, with
-- whether the last character is a mark; in a gap the spaces behind a mark are passed over.
unfoldable split_sentences : Bool → Bool → Text → Text → List Text
unfolding is_mark
split_sentences gap marked piece [] = piece ∷ []
split_sentences gap marked piece (c ∷ s) =
    let cuts = is_space c && (gap || marked) in
    let rest =
      split_sentences cuts (not cuts && is_mark c) (if cuts then [] else piece ++ c ∷ []) s in
    if cuts && not gap then piece ∷ rest else rest

unfoldable starts_with : Text → Text → Bool
starts_with [] s = true
starts_with (c ∷ p) [] = false
starts_with (c ∷ p) (d ∷ s) = c == d && starts_with p s

-- `p in s`
unfoldable is_infix : Text → Text → Bool
unfolding starts_with
is_infix p [] = is_empty p
is_infix p (c ∷ s) = starts_with p (c ∷ s) || is_infix p s

-- The loop over the sentences.
unfoldable first_sentence : Text → List Text → Text
first_sentence target [] = []
first_sentence target (sentence ∷ rest) =
    let clean = strip sentence in
    if not (is_empty clean) && is_infix target (lower clean)
    then clean
    else first_sentence target rest

-- `_find_sentence_for_term`
unfoldable pub find_sentence_for_term : Text → Text → Text
unfolding split_sentences first_sentence is_infix
find_sentence_for_term completed_text term =
    let text = strip completed_text in
    if is_empty text || is_empty (strip term)
    then []
    else first_sentence (lower (strip term)) (split_sentences false false [] text)

abbrev missing_of : Text → Text × ℕ → MissingWord
missing_of text item = record {
  term = item.0;
  occurrences = item.1;
  example_usage = find_sentence_for_term text item.0;
}

-- `_collect_missing_words`
unfoldable pub collect_missing_words : Text → List Text → List Bool → List MissingWord
unfolding count_unknown
collect_missing_words text tokens mask =
    map (missing_of text) (sort item_before (count_unknown [] tokens mask))

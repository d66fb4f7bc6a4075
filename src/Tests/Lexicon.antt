-- ===== src/Tests/Lexicon.antt =====
-- Runs of the phrase trie, the index provider and the exact matcher, with what holds of them.
use vocabulary_micro.Prelude.{
  leb, none, if◌then◌else◌, ℕ, ◌*◌, ◌≡◌, refl, not, some, List, [], ◌∷◌, map, length, All, fold,
  sort, nat_equality, list_beq, list_equality, pair_equality, contains, Distinct, lookup, keys,
}
use vocabulary_micro.Text.{Text, codes}
use vocabulary_micro.PhraseMatcher.{
  truthy, PhraseMatch, empty_matcher, from_phrases, longest_matches, add_phrase,
}
use vocabulary_micro.PhraseMatcher.Longest.{
  dictionary_matches, dictionary_phrase, longest_matches-from_phrases,
}
use vocabulary_micro.PhraseMatcher.Iteration.{iter_phrases}
use vocabulary_micro.PhraseMatcher.Iteration.Laws.{iter_phrases-from_phrases}
use vocabulary_micro.Text.Sets.{sorted_set}

abbrev of : Text
of = codes "of"

abbrev course : Text
course = codes "course"

abbrev phrases : List (List Text × List Text)
phrases =
    (of ∷ course ∷ [], codes "Adverb" ∷ codes "Idiom" ∷ codes "Adverb" ∷ [])
    ∷ (of ∷ course ∷ of ∷ [], codes "Idiom" ∷ [])
    ∷ []

sentence : List Text
sentence = of ∷ course ∷ codes "not" ∷ of ∷ course ∷ of ∷ []

spans : List PhraseMatch → List (ℕ × ℕ)
spans ms = map (λ m. (m.start_index, m.end_index)) ms

two_matches : spans (longest_matches (from_phrases phrases) sentence) ≡ (0, 1) ∷ (3, 5) ∷ []
unfolding longest_matches from_phrases sentence spans vocabulary_micro.PhraseMatcher.trie_matches
    vocabulary_micro.PhraseMatcher.longest_from vocabulary_micro.PhraseMatcher.find_child
    vocabulary_micro.Prelude.fold add_phrase vocabulary_micro.PhraseMatcher.add_path
    vocabulary_micro.PhraseMatcher.change_child vocabulary_micro.Prelude.list_beq sorted_set
    vocabulary_micro.Prelude.sort vocabulary_micro.Text.Sets.to_set contains
    vocabulary_micro.Text.Order.text_before
two_matches = refl

Distinct-phrases : Distinct (keys phrases)
unfolding vocabulary_micro.Prelude.list_beq
Distinct-phrases = (unfold contains in (refl, (refl, tt)))

longest_matches-from_phrases_example :
    longest_matches (from_phrases phrases) sentence
    ≡ dictionary_matches (dictionary_phrase phrases) sentence 0
longest_matches-from_phrases_example =
    longest_matches-from_phrases phrases sentence Distinct-phrases

iter_phrases-from_phrases_example :
    Distinct (keys (iter_phrases (from_phrases phrases)))
    × ((us : List Text)
        → lookup (iter_phrases (from_phrases phrases)) us ≡ (
            if leb 2 (length us)
            then elim (lookup phrases us) [ none ↦ none | some c ↦ truthy (some (sorted_set c)) ]
            else none))
iter_phrases-from_phrases_example = iter_phrases-from_phrases phrases Distinct-phrases

two_phrases : map (λ x. length x.0) (iter_phrases (from_phrases phrases)) ≡ 2 ∷ 3 ∷ []
unfolding iter_phrases vocabulary_micro.PhraseMatcher.Iteration.iter_stack
    vocabulary_micro.PhraseMatcher.Iteration.count_nodes from_phrases fold add_phrase
    vocabulary_micro.PhraseMatcher.add_path vocabulary_micro.PhraseMatcher.change_child list_beq
    vocabulary_micro.PhraseMatcher.Iteration.push_children sorted_set sort
    vocabulary_micro.Text.Sets.to_set contains vocabulary_micro.Text.Order.text_before
two_phrases = refl

-- ===== src/PhraseMatcher/Bounds.antt =====
-- Where the matches of phrase_matcher.py lie in the sentence.
use vocabulary_micro.Prelude.{
  ℕ, zero, suc, ◌+◌, ◌≤◌, ◌<◌, ◌≡◌, inl, inr, Option, some, List, [], ◌∷◌, arith, Option-cases,
  length, All, All-map, nat_equality, list_equality, pair_equality,
}
use vocabulary_micro.Text.{Text}
use vocabulary_micro.PhraseMatcher.{PhraseTrieMatcher, PhraseMatch, longest_matches}
use vocabulary_micro.PhraseMatcher.Lookup.{find_path}
use vocabulary_micro.PhraseMatcher.Longest.{
  longest_key, longest_key_positive, dictionary_matches, trie_matches_lem,
}

longest_key_le :
    (look : List Text → Option (List Text)) (m : ℕ) (ts : List Text) (b : ℕ × List Text)
    → longest_key look m ts ≡ some b
    → b.0 ≤ m
unfolding longest_key
longest_key_le look zero ts b h = absurd (ground arith)
longest_key_le look (suc m) ts b h = ground (arith, longest_key_le look m ts b)

-- A match starts at `start` or behind it, and ends before `total`.
abbrev IsWithin : ℕ → ℕ → PhraseMatch → Type 0
IsWithin start total m =
    (start ≤ m.start_index) × (m.start_index ≤ m.end_index) × (m.end_index < total)

dictionary_matches-IsWithin :
    (look : List Text → Option (List Text)) (ts : List Text) (start total : ℕ)
    → start + length ts ≤ total
    → All (IsWithin start total) (dictionary_matches look ts start)
unfolding dictionary_matches
dictionary_matches-IsWithin look [] start total h = tt
dictionary_matches-IsWithin look (t ∷ ts) start total h =
    let rest : All (IsWithin start total) (dictionary_matches look ts (start + 1)) =
      All-map (λ m k. (omega (arith, k.0), k.1, k.2)) (dictionary_matches look ts (start + 1))
        (dictionary_matches-IsWithin look ts (start + 1) total (omega arith)) in
    elim (Option-cases (longest_key look (length (t ∷ ts)) (t ∷ ts))) [
      | inl e ↦ rw (e, dictionary_matches) rest
      | inr (b, e) ↦
          let low = longest_key_positive look (length (t ∷ ts)) (t ∷ ts) b e in
          let high = longest_key_le look (length (t ∷ ts)) (t ∷ ts) b e in
          rw (e, dictionary_matches)
            ((omega arith, omega (arith, low), omega (arith, low, high)), rest)
    ]

-- Every match of a sentence starts at or before its end, and ends at one of the sentence's tokens.
longest_matches-IsWithin :
    (matcher : PhraseTrieMatcher) (tokens : List Text)
    → All (IsWithin 0 (length tokens)) (longest_matches matcher tokens)
unfolding longest_matches
longest_matches-IsWithin matcher tokens =
    rw (trie_matches_lem matcher.root tokens 0)
      (dictionary_matches-IsWithin (find_path matcher.root) tokens 0 (length tokens) (omega arith))

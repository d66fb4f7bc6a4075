-- ===== src/PhraseMatcher/Longest.antt =====
-- `longest_matches` of phrase_matcher.py against a search of the dictionary it was built from.
use mathlib.Core.Path.{fun_ext}
use vocabulary_micro.Prelude.{
  ℕ, zero, suc, ◌+◌, ◌-◌, ◌≤◌, ◌≡◌, refl, ap, ◌∙◌, inl, inr, Option, none, some, List, [], ◌∷◌,
  arith, leb, if◌then◌else◌, Option-cases, length, take, nat_equality, list_equality, pair_equality,
  Distinct, lookup, keys,
}
use vocabulary_micro.Text.{Text, join}
use vocabulary_micro.Text.Sets.{sorted_set}
use vocabulary_micro.PhraseMatcher.{
  TrieNode, node_children, node_categories, find_child, from_phrases, truthy, longest_from,
  PhraseMatch, trie_matches, longest_matches,
}
use vocabulary_micro.PhraseMatcher.Lookup.{find_path, find_phrase-from_phrases}

-- The longest prefix, of at most `k` tokens, that has categories.
unfoldable pub longest_key :
    (List Text → Option (List Text)) → ℕ → List Text → Option (ℕ × List Text)
longest_key look zero ts = none
longest_key look (suc k) ts =
    let rest = longest_key look k ts in
    elim (truthy (look (take (suc k) ts))) [ none ↦ rest | some c ↦ some (suc k, c) ]

longest_key-step :
    (look : List Text → Option (List Text)) (m : ℕ) (t : Text) (ts : List Text)
    → longest_key look (suc m) (t ∷ ts) ≡ elim (longest_key (λ us. look (t ∷ us)) m ts) [
      | some b ↦ some (suc b.0, b.1)
      | none ↦ elim (truthy (look (t ∷ []))) [ none ↦ none | some c ↦ some (1, c) ]
    ]
unfolding longest_key
longest_key-step look zero t ts = refl
longest_key-step look (suc m) t ts = ground (arith, longest_key-step look m t ts)

abbrev find_in : Option TrieNode → List Text → Option (List Text)
find_in none us = none
find_in (some m) us = find_path m us

abbrev find_below : TrieNode → Text → List Text → Option (List Text)
find_below n t us = find_path n (t ∷ us)

longest_key-none : (m : ℕ) (ts : List Text) → longest_key (find_in none) m ts ≡ none
unfolding longest_key
longest_key-none zero ts = refl
longest_key-none (suc m) ts = longest_key-none m ts

child_path :
    (n : TrieNode) (t : Text) (o : Option TrieNode)
    → find_child (node_children n) t ≡ o
    → find_below n t ≡ find_in o
unfolding find_path
child_path n t none h = fun_ext (λ us. ground (arith, h))
child_path n t (some m) h = fun_ext (λ us. ground (arith, h))

path_end : (m : TrieNode) → find_path m [] ≡ node_categories m
unfolding find_path
path_end m = refl

-- From a node the forward scan ends where the longest prefix that the trie has ends.
longest_from_lem :
    (n : TrieNode) (ts : List Text) (end : ℕ) (best : Option (ℕ × List Text))
    → longest_from n ts end best ≡ elim (longest_key (find_path n) (length ts) ts) [
      | none ↦ best
      | some b ↦ some (end + b.0 - 1, b.1)
    ]
unfolding longest_from
longest_from_lem n [] end best = (unfold longest_key in refl)
longest_from_lem n (t ∷ ts) end best =
    let step = longest_key-step (find_path n) (length ts) t ts in
    let below : (o : Option TrieNode)
        → find_child (node_children n) t ≡ o
        → longest_key (find_below n t) (length ts) ts ≡ longest_key (find_in o) (length ts) ts =
      λ o h. ap (λ f. longest_key f (length ts) ts) (child_path n t o h) in
    let here : (o : Option TrieNode)
        → find_child (node_children n) t ≡ o
        → find_below n t [] ≡ find_in o [] =
      λ o h. ap (λ f. f []) (child_path n t o h) in
    elim (Option-cases (find_child (node_children n) t)) [
      | inl h ↦ ground (arith, h, step, below none h, here none h, longest_key-none (length ts) ts)
      | inr (m, h) ↦ ground (
        arith,
        h,
        step,
        below (some m) h,
        here (some m) h,
        path_end m,
        longest_from_lem m ts (end + 1)
            (elim (truthy (node_categories m)) [ none ↦ best | some c ↦ some (end, c) ]),
      )
    ]

pub longest_key_positive :
    (look : List Text → Option (List Text)) (m : ℕ) (ts : List Text) (b : ℕ × List Text)
    → longest_key look m ts ≡ some b
    → 1 ≤ b.0
unfolding longest_key
longest_key_positive look zero ts b h = absurd (ground arith)
longest_key_positive look (suc m) ts b h = ground (arith, longest_key_positive look m ts b)

-- The matches of a sentence by a dictionary that `look` reads: from each token the longest phrase
-- that starts there, if any does.
unfoldable pub dictionary_matches :
    (List Text → Option (List Text)) → List Text → ℕ → List PhraseMatch
dictionary_matches look [] start = []
dictionary_matches look (t ∷ ts) start =
    let rest = dictionary_matches look ts (start + 1) in
    elim (longest_key look (length (t ∷ ts)) (t ∷ ts)) [
      | none ↦ rest
      | some b ↦
          record {
            start_index = start;
            end_index = start + b.0 - 1;
            match_categories = b.1;
            normalized = join (take b.0 (t ∷ ts));
          }
          ∷ rest
    ]

pub trie_matches_lem :
    (n : TrieNode) (ts : List Text) (start : ℕ)
    → trie_matches n ts start ≡ dictionary_matches (find_path n) ts start
unfolding trie_matches dictionary_matches
trie_matches_lem n [] start = refl
trie_matches_lem n (t ∷ ts) start =
    let scan = longest_from_lem n (t ∷ ts) start none in
    elim (Option-cases (longest_key (find_path n) (length (t ∷ ts)) (t ∷ ts))) [
      | inl h ↦ ground (arith, scan, h, trie_matches_lem n ts (start + 1))
      | inr (b, h) ↦
          let wide : start + b.0 - 1 + 1 - start ≡ b.0 =
            omega (arith, longest_key_positive (find_path n) (length (t ∷ ts)) (t ∷ ts) b h) in
          ground (
            arith,
            scan,
            h,
            trie_matches_lem n ts (start + 1),
            ap (λ k. join (take k (t ∷ ts))) wide,
          )
    ]

-- What the lexicon's dictionary of phrases holds for a phrase of two words or more.
unfoldable pub dictionary_phrase : List (List Text × List Text) → List Text → Option (List Text)
dictionary_phrase phrases us =
    if leb 2 (length us)
    then elim (lookup phrases us) [ none ↦ none | some c ↦ some (sorted_set c) ]
    else none

-- For a dictionary with distinct keys, the trie's matches in a sentence are those of a search of
-- the dictionary itself: from each token the longest phrase of two words or more that starts
-- there, over its tokens, with its categories sorted; a phrase without categories is passed over.
pub longest_matches-from_phrases :
    (phrases : List (List Text × List Text)) (tokens : List Text)
    → Distinct (keys phrases)
    → longest_matches (from_phrases phrases) tokens
      ≡ dictionary_matches (dictionary_phrase phrases) tokens 0
unfolding longest_matches dictionary_phrase
longest_matches-from_phrases phrases tokens d =
    trie_matches_lem (from_phrases phrases).root tokens 0
    ∙ ap (λ f. dictionary_matches f tokens 0)
        (fun_ext (λ us. find_phrase-from_phrases phrases us d))

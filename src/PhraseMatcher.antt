-- ===== src/PhraseMatcher.antt =====
-- backend/python_services/infrastructure/nlp/phrase_matcher.py: the trie of the phrases of several
-- words in the lexicon. A node holds the list of its children, in insertion order, and the
-- categories of the phrase that ends there.
pub mod Lookup
pub mod Longest
pub mod Bounds
pub mod Iteration
use vocabulary_micro.Prelude.{
  ℕ, ◌+◌, ◌-◌, ◌*◌, max, Option, none, some, List, [], ◌∷◌, ltb, if◌then◌else◌, length, take, fold,
  ◌==◌, nat_equality, list_equality, pair_equality,
}
use vocabulary_micro.Text.{Text, join}
use vocabulary_micro.Text.Sets.{sorted_set}

mutual
  pub data TrieNode : Type 0 where
    trie_node : Children → Option (List Text) → TrieNode

  pub data Children : Type 0 where
    no_children : Children
    child : Text → TrieNode → Children → Children

abbrev pub node_children : TrieNode → Children
node_children (trie_node cs c) = cs

abbrev pub node_categories : TrieNode → Option (List Text)
node_categories (trie_node cs c) = c

-- `_TrieNode()`
abbrev pub empty_node : TrieNode
empty_node = trie_node no_children none

pub record PhraseTrieMatcher : Type 0 where
  pub root : TrieNode
  pub max_phrase_len : ℕ

-- `PhraseTrieMatcher()`
abbrev pub empty_matcher : PhraseTrieMatcher
empty_matcher = record { root = empty_node; max_phrase_len = 1 }

-- `node.children.get(token)`
unfoldable pub find_child : Children → Text → Option TrieNode
find_child no_children t = none
find_child (child u n cs) t = if u == t then some n else find_child cs t

-- `node.children.setdefault(token, _TrieNode())`, and the change `f` to the node it finds.
unfoldable pub change_child : Text → (TrieNode → TrieNode) → Children → Children
change_child t f no_children = child t (f empty_node) no_children
change_child t f (child u n cs) =
    let rest = change_child t f cs in if u == t then child u (f n) cs else child u n rest

-- The loop of `add_phrase` below the node it stands at.
unfoldable pub add_path : List Text → List Text → TrieNode → TrieNode
add_path [] cats n = trie_node (node_children n) (some cats)
add_path (t ∷ ts) cats n =
    trie_node (change_child t (λ m. add_path ts cats m) (node_children n)) (node_categories n)

unfoldable pub add_phrase : PhraseTrieMatcher → List Text × List Text → PhraseTrieMatcher
add_phrase matcher phrase = if ltb (length phrase.0) 2 then matcher else record {
  root = add_path phrase.0 (sorted_set phrase.1) matcher.root;
  max_phrase_len = max matcher.max_phrase_len (length phrase.0);
}

-- The argument is the dictionary's items.
unfoldable pub from_phrases : List (List Text × List Text) → PhraseTrieMatcher
from_phrases phrases = fold add_phrase empty_matcher phrases

-- `if node.categories:`, where neither None nor the empty tuple counts.
abbrev pub truthy : Option (List Text) → Option (List Text)
truthy none = none
truthy (some []) = none
truthy (some (c ∷ cs)) = some (c ∷ cs)

-- The inner loop of `longest_matches`: the end and the categories of the longest phrase.
unfoldable pub longest_from :
    TrieNode → List Text → ℕ → Option (ℕ × List Text) → Option (ℕ × List Text)
longest_from n [] end best = best
longest_from n (t ∷ ts) end best = elim (find_child (node_children n) t) [
  | none ↦ best
  | some m ↦
      longest_from m ts (end + 1)
        (elim (truthy (node_categories m)) [ none ↦ best | some c ↦ some (end, c) ])
]

pub record PhraseMatch : Type 0 where
  pub start_index : ℕ
  pub end_index : ℕ
  pub match_categories : List Text
  pub normalized : Text

-- The outer loop, from `start`, of which `tokens` are the tokens ahead.
unfoldable pub trie_matches : TrieNode → List Text → ℕ → List PhraseMatch
trie_matches n [] start = []
trie_matches n (t ∷ ts) start =
    let rest = trie_matches n ts (start + 1) in
    elim (longest_from n (t ∷ ts) start none) [
      | none ↦ rest
      | some best ↦
          record {
            start_index = start;
            end_index = best.0;
            match_categories = best.1;
            normalized = join (take (best.0 + 1 - start) (t ∷ ts));
          }
          ∷ rest
    ]

unfoldable pub longest_matches : PhraseTrieMatcher → List Text → List PhraseMatch
longest_matches matcher tokens = trie_matches matcher.root tokens 0

-- ===== src/PhraseMatcher/Iteration.antt =====
-- `iter_phrases` of phrase_matcher.py: the walk over the trie on a stack of nodes, each with the
-- tokens that lead to it. The top of the stack is the head of the list.
pub mod Walk
pub mod Prefixes
pub mod Forked
pub mod Lookups
pub mod Laws
use vocabulary_micro.Prelude.{
  ℕ, zero, suc, ◌+◌, ◌*◌, Option, none, some, List, [], ◌∷◌, ◌++◌, leb, if◌then◌else◌, length,
}
use vocabulary_micro.Text.{Text}
use vocabulary_micro.PhraseMatcher.{
  TrieNode, Children, trie_node, no_children, child, node_children, node_categories, truthy,
  PhraseTrieMatcher,
}

-- What a visit of a node yields.
abbrev pub yielded : List Text → Option (List Text) → List (List Text × List Text)
yielded prefix none = []
yielded prefix (some categories) = if leb 2 (length prefix) then (prefix, categories) ∷ [] else []

abbrev pub Stack : Type 0
Stack = List (List Text × TrieNode)

-- The inner loop, which pushes the children in their order.
unfoldable pub push_children : List Text → Children → Stack → Stack
push_children prefix no_children stack = stack
push_children prefix (child token node cs) stack =
    push_children prefix cs ((prefix ++ token ∷ [], node) ∷ stack)

-- The outer loop, of at most `rounds` rounds.
unfoldable pub iter_stack : ℕ → Stack → List (List Text × List Text)
iter_stack zero stack = []
iter_stack (suc rounds) [] = []
iter_stack (suc rounds) ((prefix, node) ∷ stack) =
    yielded prefix (truthy (node_categories node))
    ++ iter_stack rounds (push_children prefix (node_children node) stack)

-- The number of nodes, which is that of rounds.
unfoldable mutual
  pub count_nodes : TrieNode → ℕ
  count_nodes (trie_node cs c) = suc (count_below cs)

  pub count_below : Children → ℕ
  count_below no_children = 0
  count_below (child t n cs) = count_nodes n + count_below cs

unfoldable pub iter_phrases : PhraseTrieMatcher → List (List Text × List Text)
iter_phrases matcher = iter_stack (count_nodes matcher.root) (([], matcher.root) ∷ [])

-- ===== src/PhraseMatcher/Iteration/Walk.antt =====
-- The walk of `iter_phrases` against the recursion over the trie.
use vocabulary_micro.Prelude.{
  ℕ, zero, suc, ◌+◌, ◌≤◌, ◌≡◌, refl, sym, ap, ◌∙◌, List, [], ◌∷◌, ◌++◌, append_assoc, append-nil,
  arith, nat_equality, list_equality, pair_equality,
}
use vocabulary_micro.Text.{Text}
use vocabulary_micro.PhraseMatcher.{
  TrieNode, Children, trie_node, no_children, child, truthy, PhraseTrieMatcher,
}
use vocabulary_micro.PhraseMatcher.Iteration.{
  yielded, Stack, push_children, iter_stack, count_nodes, count_below, iter_phrases,
}

-- The phrases of a node and of its children, in the order of the walk.
unfoldable mutual
  pub phrases_of : List Text → TrieNode → List (List Text × List Text)
  phrases_of prefix (trie_node cs c) = yielded prefix (truthy c) ++ phrases_in prefix cs

  pub phrases_in : List Text → Children → List (List Text × List Text)
  phrases_in prefix no_children = []
  phrases_in prefix (child t n cs) = phrases_in prefix cs ++ phrases_of (prefix ++ t ∷ []) n

abbrev phrases_on : Stack → List (List Text × List Text)
phrases_on [] = []
phrases_on ((prefix, n) ∷ stack) = phrases_of prefix n ++ phrases_on stack

abbrev nodes_on : Stack → ℕ
nodes_on [] = 0
nodes_on ((prefix, n) ∷ stack) = count_nodes n + nodes_on stack

push_children-phrases_on :
    (prefix : List Text) (cs : Children) (stack : Stack)
    → phrases_on (push_children prefix cs stack) ≡ phrases_in prefix cs ++ phrases_on stack
unfolding push_children phrases_in
push_children-phrases_on prefix no_children stack = refl
push_children-phrases_on prefix (child t n cs) stack =
    push_children-phrases_on prefix cs ((prefix ++ t ∷ [], n) ∷ stack)
    ∙ sym (append_assoc (phrases_in prefix cs) (phrases_of (prefix ++ t ∷ []) n) (phrases_on stack))

push_children-nodes_on :
    (prefix : List Text) (cs : Children) (stack : Stack)
    → nodes_on (push_children prefix cs stack) ≡ count_below cs + nodes_on stack
unfolding push_children count_below
push_children-nodes_on prefix no_children stack = omega arith
push_children-nodes_on prefix (child t n cs) stack =
    omega (arith, push_children-nodes_on prefix cs ((prefix ++ t ∷ [], n) ∷ stack))

-- As many rounds as there are nodes are enough.
iter_stack-phrases_on :
    (rounds : ℕ) (stack : Stack)
    → nodes_on stack ≤ rounds
    → iter_stack rounds stack ≡ phrases_on stack
unfolding iter_stack count_nodes phrases_of
iter_stack-phrases_on zero [] h = refl
iter_stack-phrases_on zero ((prefix, trie_node cs c) ∷ stack) h = absurd (omega arith)
iter_stack-phrases_on (suc rounds) [] h = refl
iter_stack-phrases_on (suc rounds) ((prefix, trie_node cs c) ∷ stack) h =
    let rest =
      iter_stack-phrases_on rounds (push_children prefix cs stack)
        (omega (arith, push_children-nodes_on prefix cs stack)) in
    ap (λ l. yielded prefix (truthy c) ++ l) (rest ∙ push_children-phrases_on prefix cs stack)
    ∙ sym (append_assoc (yielded prefix (truthy c)) (phrases_in prefix cs) (phrases_on stack))

pub iter_phrases_lem :
    (matcher : PhraseTrieMatcher) → iter_phrases matcher ≡ phrases_of [] matcher.root
unfolding iter_phrases
iter_phrases_lem matcher =
    iter_stack-phrases_on (count_nodes matcher.root) (([], matcher.root) ∷ []) (omega arith)
    ∙ append-nil (phrases_of [] matcher.root)

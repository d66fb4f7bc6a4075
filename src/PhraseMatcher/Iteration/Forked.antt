-- ===== src/PhraseMatcher/Iteration/Forked.antt =====
-- The tokens below the nodes of the tries that phrase_matcher.py builds.
use vocabulary_micro.Prelude.{
  ltb, fold-invariant, All-unit, ◌≡◌, refl, inl, inr, false, none, List, [], ◌∷◌, arith, Bool-cases,
  length, ◌==◌, nat_equality, list_equality, pair_equality,
}
use vocabulary_micro.Text.{Text, same_text}
use vocabulary_micro.PhraseMatcher.{
  empty_node, empty_matcher, TrieNode, Children, trie_node, no_children, child, find_child,
  change_child, add_path, add_phrase, from_phrases, PhraseTrieMatcher,
}
use vocabulary_micro.Text.Sets.{sorted_set}
use vocabulary_micro.PhraseMatcher.Lookup.{find_child-change_child}

-- The children of every node have different tokens.
unfoldable mutual
  pub IsForked : TrieNode → Type 0
  IsForked (trie_node cs c) = AreForked cs

  pub AreForked : Children → Type 0
  AreForked no_children = Unit
  AreForked (child t n cs) = (find_child cs t ≡ none) × IsForked n × AreForked cs

find_child_other :
    (t : Text) (f : TrieNode → TrieNode) (cs : Children) (u : Text)
    → (t == u) ≡ false
    → find_child cs u ≡ none
    → find_child (change_child t f cs) u ≡ none
find_child_other t f cs u h k = ground (arith, find_child-change_child t f cs u)

change_child-AreForked :
    (t : Text) (f : TrieNode → TrieNode) (cs : Children)
    → ((n : TrieNode) → IsForked n → IsForked (f n))
    → AreForked cs
    → AreForked (change_child t f cs)
unfolding change_child find_child IsForked
change_child-AreForked t f no_children h d = (refl, h empty_node tt, tt)
change_child-AreForked t f (child u n cs) h d = elim (Bool-cases (u == t)) [
  | inl e ↦ rw e (d.0, h n d.1, d.2)
  | inr e ↦ rw e (
    find_child_other t f cs u (ground (arith, same_text u t, same_text t u)) d.0,
    d.1,
    change_child-AreForked t f cs h d.2,
  )
]

add_path-IsForked : (ts c : List Text) (n : TrieNode) → IsForked n → IsForked (add_path ts c n)
unfolding add_path IsForked
add_path-IsForked [] c (trie_node cs d) h = h
add_path-IsForked (t ∷ ts) c (trie_node cs d) h =
    change_child-AreForked t (λ m. add_path ts c m) cs (λ m k. add_path-IsForked ts c m k) h

add_phrase-IsForked :
    (matcher : PhraseTrieMatcher) (phrase : List Text × List Text)
    → IsForked matcher.root
    → IsForked (add_phrase matcher phrase).root
unfolding add_phrase
add_phrase-IsForked matcher phrase h = elim (Bool-cases (ltb (length phrase.0) 2)) [
  | inl e ↦ rw e h
  | inr e ↦ rw e (add_path-IsForked phrase.0 (sorted_set phrase.1) matcher.root h)
]

pub from_phrases-IsForked :
    (phrases : List (List Text × List Text)) → IsForked (from_phrases phrases).root
unfolding from_phrases IsForked
from_phrases-IsForked phrases =
    fold-invariant add_phrase (λ m. IsForked m.root) (λ x. Unit)
      (λ m x q i. add_phrase-IsForked m x i) phrases (All-unit phrases) empty_matcher tt

-- ===== src/PhraseMatcher/Iteration/Lookups.antt =====
-- Which phrases the walk over a trie yields, and with which categories.
use vocabulary_micro.Prelude.{
  ◌≡◌, refl, ap, false, Option, none, some, List, [], ◌∷◌, ◌++◌, append_assoc, append-nil, arith,
  leb, if◌then◌else◌, length, ◌==◌, nat_equality, list_equality, pair_equality, lookup,
  lookup-append,
}
use vocabulary_micro.Text.{Text, same_text, same_texts}
use vocabulary_micro.PhraseMatcher.{
  TrieNode, Children, trie_node, no_children, child, truthy, find_child,
}
use vocabulary_micro.PhraseMatcher.Lookup.{find_path}
use vocabulary_micro.PhraseMatcher.Iteration.{yielded}
use vocabulary_micro.PhraseMatcher.Iteration.Walk.{phrases_of, phrases_in}
use vocabulary_micro.PhraseMatcher.Iteration.Prefixes.{
  is_prefix, is_prefix_longer, is_prefix_fork, is_prefix_own, is_prefix_other, same_longer,
}
use vocabulary_micro.PhraseMatcher.Iteration.Forked.{IsForked, AreForked}

pub lookup-yielded :
    (p : List Text) (c : Option (List Text)) (w : List Text)
    → lookup (yielded p c) w ≡ (if p == w then (if leb 2 (length p) then c else none) else none)
unfolding lookup
lookup-yielded p none w = ground arith
lookup-yielded p (some c) w = ground arith

-- Nothing is yielded below a node that is not on the way to it.
mutual
  unfolding phrases_of lookup

  pub phrases_of_beside :
      (p : List Text) (n : TrieNode) (w : List Text)
      → is_prefix p w ≡ false
      → lookup (phrases_of p n) w ≡ none
  phrases_of_beside p (trie_node cs c) w h = ground (
    arith,
    lookup-append (yielded p (truthy c)) (phrases_in p cs) w,
    lookup-yielded p (truthy c) w,
    is_prefix_other p w h,
    phrases_in_beside p cs w h,
  )

  phrases_in_beside :
      (p : List Text) (cs : Children) (w : List Text)
      → is_prefix p w ≡ false
      → lookup (phrases_in p cs) w ≡ none
  phrases_in_beside p no_children w h = refl
  phrases_in_beside p (child t n cs) w h = ground (
    arith,
    lookup-append (phrases_in p cs) (phrases_of (p ++ t ∷ []) n) w,
    phrases_in_beside p cs w h,
    phrases_of_beside (p ++ t ∷ []) n w (ground (arith, is_prefix_longer p t w)),
  )

pub phrases_in_own : (p : List Text) (cs : Children) → lookup (phrases_in p cs) p ≡ none
unfolding phrases_in lookup
phrases_in_own p no_children = refl
phrases_in_own p (child t n cs) = ground (
  arith,
  lookup-append (phrases_in p cs) (phrases_of (p ++ t ∷ []) n) p,
  phrases_in_own p cs,
  phrases_of_beside (p ++ t ∷ []) n p (is_prefix_own p t),
)

-- The categories that the walk yields for a phrase, of those that stand where its path ends.
abbrev pub listed : List Text → Option (List Text) → Option (List Text)
listed w c = if leb 2 (length w) then truthy c else none

mutual
  unfolding phrases_of find_path find_child lookup IsForked

  pub lookup-phrases_of :
      (p : List Text) (n : TrieNode) (us : List Text)
      → IsForked n
      → lookup (phrases_of p n) (p ++ us) ≡ listed (p ++ us) (find_path n us)
  lookup-phrases_of p (trie_node cs c) [] d = rw (append-nil p) (
      ground (
        arith,
        lookup-append (yielded p (truthy c)) (phrases_in p cs) p,
        lookup-yielded p (truthy c) p,
        same_texts p p,
        phrases_in_own p cs,
      ))
  lookup-phrases_of p (trie_node cs c) (u ∷ us) d =
      let below = lookup-phrases_in p cs u us d in
      ground (
        arith,
        lookup-append (yielded p (truthy c)) (phrases_in p cs) (p ++ u ∷ us),
        lookup-yielded p (truthy c) (p ++ u ∷ us),
        same_longer p u us,
        below,
      )

  pub lookup-phrases_in :
      (p : List Text) (cs : Children) (u : Text) (us : List Text)
      → AreForked cs
      → lookup (phrases_in p cs) (p ++ u ∷ us)
        ≡ elim (find_child cs u) [ none ↦ none | some m ↦ listed (p ++ u ∷ us) (find_path m us) ]
  lookup-phrases_in p no_children u us d = refl
  lookup-phrases_in p (child t n cs) u us d =
      let others = lookup-phrases_in p cs u us d.2 in
      let own = lookup-phrases_of (p ++ t ∷ []) n us d.1 in
      ground (
        arith,
        lookup-append (phrases_in p cs) (phrases_of (p ++ t ∷ []) n) (p ++ u ∷ us),
        phrases_of_beside (p ++ t ∷ []) n (p ++ u ∷ us),
        is_prefix_fork p t u us,
        same_text t u,
        λ (e : t ≡ u). ap (find_child cs) e,
        others,
        ap (λ l. lookup (phrases_of (p ++ t ∷ []) n) l) (append_assoc p (t ∷ []) us),
        own,
        ap (λ l. listed l (find_path n us)) (append_assoc p (t ∷ []) us),
      )

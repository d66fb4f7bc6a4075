-- ===== src/PhraseMatcher/Iteration/Laws.antt =====
-- What `iter_phrases` yields for the trie of a dictionary.
use mathlib.Core.Path.{subst}
use vocabulary_micro.Prelude.{
  ◌≡◌, refl, sym, ◌∙◌, inl, inr, true, false, Option, none, some, List, [], ◌∷◌, ◌++◌, append_assoc,
  arith, leb, Bool-cases, if◌then◌else◌, length, nat_equality, list_equality, pair_equality,
  contains, Distinct, lookup, keys, keys-append, contains_of_lookup, Distinct-append,
}
use vocabulary_micro.Text.{Text, same_texts}
use vocabulary_micro.PhraseMatcher.{
  TrieNode, Children, trie_node, no_children, child, truthy, find_child, from_phrases,
}
use vocabulary_micro.Text.Sets.{sorted_set}
use vocabulary_micro.PhraseMatcher.Lookup.{find_phrase-from_phrases}
use vocabulary_micro.PhraseMatcher.Iteration.{yielded, iter_phrases}
use vocabulary_micro.PhraseMatcher.Iteration.Walk.{phrases_of, phrases_in, iter_phrases_lem}
use vocabulary_micro.PhraseMatcher.Iteration.Prefixes.{is_prefix, prefix_rest}
use vocabulary_micro.PhraseMatcher.Iteration.Forked.{IsForked, AreForked, from_phrases-IsForked}
use vocabulary_micro.PhraseMatcher.Iteration.Lookups.{
  lookup-yielded, phrases_of_beside, phrases_in_own, lookup-phrases_of, lookup-phrases_in,
}

yielded-Distinct : (p : List Text) (c : Option (List Text)) → Distinct (keys (yielded p c))
unfolding contains
yielded-Distinct p none = tt
yielded-Distinct p (some c) = elim (Bool-cases (leb 2 (length p))) [
  | inl e ↦ rw e (refl, tt)
  | inr e ↦ rw e tt
]

own_apart :
    (p : List Text) (c : Option (List Text)) (cs : Children) (w : List Text)
    → contains (keys (phrases_in p cs)) w ≡ true
    → contains (keys (yielded p c)) w ≡ false
own_apart p c cs w h =
    let others : p ≡ w → contains (keys (phrases_in p cs)) w ≡ false = λ e.
      subst (λ v. contains (keys (phrases_in p cs)) v ≡ false) e
        (contains_of_lookup (phrases_in p cs) p (phrases_in_own p cs)) in
    contains_of_lookup (yielded p c) w
      (ground (arith, lookup-yielded p c w, same_texts p w, others, h))

children_apart :
    (p : List Text) (t : Text) (n : TrieNode) (cs : Children)
    → find_child cs t ≡ none
    → AreForked cs
    → (w : List Text) → contains (keys (phrases_of (p ++ t ∷ []) n)) w ≡ true
    → contains (keys (phrases_in p cs)) w ≡ false
children_apart p t n cs a d w h = elim (Bool-cases (is_prefix (p ++ t ∷ []) w)) [
  | inl e ↦
      let (us, q) = prefix_rest (p ++ t ∷ []) w e in
      let gone : lookup (phrases_in p cs) (p ++ t ∷ us) ≡ none =
        rw a at (lookup-phrases_in p cs t us d) in
      subst (λ v. contains (keys (phrases_in p cs)) v ≡ false)
        (sym (q ∙ append_assoc p (t ∷ []) us))
        (contains_of_lookup (phrases_in p cs) (p ++ t ∷ us) gone)
  | inr e ↦
      let none_below =
        contains_of_lookup (phrases_of (p ++ t ∷ []) n) w (phrases_of_beside (p ++ t ∷ []) n w e) in
      ground (arith, h, none_below)
]

-- No phrase is yielded twice.
mutual
  unfolding phrases_of IsForked

  phrases_of-Distinct :
      (p : List Text) (n : TrieNode) → IsForked n → Distinct (keys (phrases_of p n))
  phrases_of-Distinct p (trie_node cs c) d =
      let once =
        Distinct-append (keys (yielded p (truthy c))) (keys (phrases_in p cs))
          (yielded-Distinct p (truthy c)) (phrases_in-Distinct p cs d)
          (own_apart p (truthy c) cs) in
      rw (keys-append (yielded p (truthy c)) (phrases_in p cs)) once

  phrases_in-Distinct :
      (p : List Text) (cs : Children) → AreForked cs → Distinct (keys (phrases_in p cs))
  phrases_in-Distinct p no_children d = tt
  phrases_in-Distinct p (child t n cs) d =
      let once =
        Distinct-append (keys (phrases_in p cs)) (keys (phrases_of (p ++ t ∷ []) n))
          (phrases_in-Distinct p cs d.2) (phrases_of-Distinct (p ++ t ∷ []) n d.1)
          (children_apart p t n cs d.0 d.2) in
      rw (keys-append (phrases_in p cs) (phrases_of (p ++ t ∷ []) n)) once

-- The trie of a dictionary of phrases, whose keys are distinct, yields each of its phrases of two
-- words or more with categories once, with these sorted and without repetitions, and no other.
pub iter_phrases-from_phrases :
    (phrases : List (List Text × List Text))
    → Distinct (keys phrases)
    → Distinct (keys (iter_phrases (from_phrases phrases)))
      × ((us : List Text)
          → lookup (iter_phrases (from_phrases phrases)) us ≡ (
              if leb 2 (length us)
              then elim (lookup phrases us) [ none ↦ none | some c ↦ truthy (some (sorted_set c)) ]
              else none))
iter_phrases-from_phrases phrases d =
    let root = (from_phrases phrases).root in
    let forked = from_phrases-IsForked phrases in
    rw (iter_phrases_lem (from_phrases phrases)) (
      phrases_of-Distinct [] root forked,
      λ us.
          ground
            (arith, lookup-phrases_of [] root us forked, find_phrase-from_phrases phrases us d),
    )

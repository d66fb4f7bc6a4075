-- ===== src/PhraseMatcher/Lookup.antt =====
-- What the trie of phrase_matcher.py holds behind `add_phrase` and `from_phrases`.
use mathlib.Core.Path.{subst}
use vocabulary_micro.Prelude.{
  ◌≡◌, refl, ap, inl, inr, false, ◌&&◌, Option, none, some, List, [], ◌∷◌, arith, leb,
  if◌then◌else◌, Option-cases, length, fold, ◌==◌, nat_equality, list_beq, list_equality,
  pair_equality, contains, Distinct, lookup, keys, lookup_absent,
}
use vocabulary_micro.Text.{Text, same_text, same_texts}
use vocabulary_micro.Text.Sets.{sorted_set}
use vocabulary_micro.PhraseMatcher.{
  TrieNode, Children, no_children, child, node_children, node_categories, empty_node,
  PhraseTrieMatcher, empty_matcher, find_child, change_child, add_path, add_phrase, from_phrases,
}

-- The categories that stand where a path ends.
unfoldable pub find_path : TrieNode → List Text → Option (List Text)
find_path n [] = node_categories n
find_path n (t ∷ ts) = elim (find_child (node_children n) t) [
  | none ↦ none
  | some m ↦ find_path m ts
]

-- The categories of a phrase.
abbrev find_phrase : PhraseTrieMatcher → List Text → Option (List Text)
find_phrase matcher phrase = find_path matcher.root phrase

pub find_child-change_child :
    (t : Text) (f : TrieNode → TrieNode) (cs : Children) (u : Text)
    → find_child (change_child t f cs) u ≡ (
        if t == u
        then some (elim (find_child cs t) [ none ↦ f empty_node | some n ↦ f n ])
        else find_child cs u)
unfolding find_child change_child
find_child-change_child t f no_children u = ground arith
find_child-change_child t f (child v n cs) u = ground (
  arith,
  same_text v t,
  same_text v u,
  same_text t u,
  same_text t t,
  find_child-change_child t f cs u,
)

find_path-empty_node : (us : List Text) → find_path empty_node us ≡ none
unfolding find_path find_child
find_path-empty_node [] = refl
find_path-empty_node (u ∷ us) = refl

find_path-add_path :
    (ts c : List Text) (n : TrieNode) (us : List Text)
    → find_path (add_path ts c n) us ≡ (if ts == us then some c else find_path n us)
unfolding find_path add_path list_beq
find_path-add_path [] c n [] = refl
find_path-add_path [] c n (u ∷ us) = refl
find_path-add_path (t ∷ ts) c n [] = refl
find_path-add_path (t ∷ ts) c n (u ∷ us) =
    let changed = find_child-change_child t (λ m. add_path ts c m) (node_children n) u in
    elim (Option-cases (find_child (node_children n) t)) [
      | inl h ↦ ground (
        arith,
        changed,
        h,
        same_text t u,
        find_path-add_path ts c empty_node us,
        find_path-empty_node us,
      )
      | inr (m, h) ↦ ground (arith, changed, h, same_text t u, find_path-add_path ts c m us)
    ]

-- Behind `add_phrase` a phrase is found with its own categories, sorted and without repetitions,
-- and every other phrase with those it had, for a phrase of two words or more.
find_phrase-add_phrase :
    (matcher : PhraseTrieMatcher) (phrase : List Text × List Text) (us : List Text)
    → find_phrase (add_phrase matcher phrase) us ≡ (
        if leb 2 (length phrase.0) && phrase.0 == us
        then some (sorted_set phrase.1)
        else find_phrase matcher us)
unfolding add_phrase
find_phrase-add_phrase matcher phrase us =
    ground (arith, find_path-add_path phrase.0 (sorted_set phrase.1) matcher.root us)

find_phrase-fold :
    (matcher : PhraseTrieMatcher) (phrases : List (List Text × List Text)) (us : List Text)
    → Distinct (keys phrases)
    → find_phrase (fold add_phrase matcher phrases) us ≡ (
        if leb 2 (length us)
        then elim (lookup phrases us) [
          | none ↦ find_phrase matcher us
          | some c ↦ some (sorted_set c)
        ]
        else find_phrase matcher us)
unfolding lookup fold
find_phrase-fold matcher [] us d = ground arith
find_phrase-fold matcher ((p, c) ∷ phrases) us d =
    let absent : p ≡ us → contains (keys phrases) us ≡ false =
      λ e. subst (λ q. contains (keys phrases) q ≡ false) e d.0 in
    let two : p ≡ us → length p ≡ length us = λ e. ap length e in
    ground (
      arith,
      find_phrase-fold (add_phrase matcher (p, c)) phrases us d.1,
      find_phrase-add_phrase matcher (p, c) us,
      same_texts p us,
      lookup_absent phrases us,
      absent,
      two,
    )

-- The trie of a dictionary of phrases, whose keys are distinct, finds a phrase of two words or more
-- exactly when the dictionary has it, with its categories sorted and without repetitions, and
-- finds no shorter phrase.
pub find_phrase-from_phrases :
    (phrases : List (List Text × List Text)) (us : List Text)
    → Distinct (keys phrases)
    → find_phrase (from_phrases phrases) us ≡ (
        if leb 2 (length us)
        then elim (lookup phrases us) [ none ↦ none | some c ↦ some (sorted_set c) ]
        else none)
unfolding from_phrases
find_phrase-from_phrases phrases us d =
    ground (arith, find_phrase-fold empty_matcher phrases us d, find_path-empty_node us)

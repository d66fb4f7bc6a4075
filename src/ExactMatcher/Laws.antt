-- ===== src/ExactMatcher/Laws.antt =====
-- What the exact stage does to each token.
use vocabulary_micro.Prelude.{
  leb, contains-sort, ℕ, zero, suc, ◌+◌, ◌≡◌, refl, sym, ap, ◌∙◌, inl, inr, true, ◌&&◌, ◌||◌, not,
  Option, none, some, List, [], ◌∷◌, ◌++◌, map, arith, if◌then◌else◌, Bool-cases, length, get_elem?,
  any, nat_equality, list_equality, pair_equality, contains, contains-append,
}
use vocabulary_micro.Text.{Text}
use vocabulary_micro.Text.Order.{text_before}
use vocabulary_micro.Text.Sets.{sorted_set, to_set, contains-to_set}
use vocabulary_micro.PhraseMatcher.{PhraseMatch, longest_matches}
use vocabulary_micro.IndexProvider.{LexiconIndexSnapshot}
use vocabulary_micro.ExactMatcher.{
  TokenRecord, mark_token, covers, mark_tokens, mark_matches, apply_phrase_matching,
}

contains-sorted_set : (xs : List Text) (c : Text) → contains (sorted_set xs) c ≡ contains xs c
unfolding sorted_set
contains-sorted_set xs c = contains-sort text_before (to_set xs) c ∙ contains-to_set xs c

-- A token that the matches leave as it is, or whose categories they extend.
abbrev pub IsMarked : List PhraseMatch → ℕ → Option TokenRecord → Option TokenRecord → Type 0
IsMarked ms i none u = u ≡ none
IsMarked ms i (some t) none = ⊥
IsMarked ms i (some t) (some u) =
    (u.known ≡ (t.known || any (λ m. leb m.start_index i && leb i m.end_index) ms))
    × ((c : Text)
        → contains u.categories c ≡ (
            contains t.categories c
            || any
                (λ m. (leb m.start_index i && leb i m.end_index) && contains m.match_categories c)
                ms))
    × (u.normalized ≡ t.normalized)
    × ((t.known || not (any (λ m. leb m.start_index i && leb i m.end_index) ms)) ≡ true
        → u.match_source ≡ t.match_source)

abbrev marked_at : PhraseMatch → ℕ → Option TokenRecord → Option TokenRecord
marked_at m k none = none
marked_at m k (some t) = some (if covers m k then mark_token m t else t)

get_elem-mark_tokens :
    (m : PhraseMatch) (i j : ℕ) (ts : List TokenRecord)
    → get_elem? (mark_tokens m i ts) j ≡ marked_at m (i + j) (get_elem? ts j)
unfolding mark_tokens
get_elem-mark_tokens m i j [] = refl
get_elem-mark_tokens m i zero (t ∷ ts) = ap (λ k. marked_at m k (some t)) (omega arith)
get_elem-mark_tokens m i (suc j) (t ∷ ts) =
    get_elem-mark_tokens m (i + 1) j ts ∙ ap (λ k. marked_at m k (get_elem? ts j)) (omega arith)

get_elem_marked :
    (m : PhraseMatch) (j : ℕ) (ts : List TokenRecord)
    → get_elem? (mark_tokens m 0 ts) j ≡ marked_at m j (get_elem? ts j)
get_elem_marked m j ts =
    get_elem-mark_tokens m 0 j ts ∙ ap (λ k. marked_at m k (get_elem? ts j)) (omega arith)

add_match-IsMarked :
    (m : PhraseMatch) (ms : List PhraseMatch) (j : ℕ) (o u : Option TokenRecord)
    → IsMarked ms j (marked_at m j o) u
    → IsMarked (m ∷ ms) j o u
unfolding mark_token contains
add_match-IsMarked m ms j none u h = h
add_match-IsMarked m ms j (some t) none h = h
add_match-IsMarked m ms j (some t) (some u) h = elim (Bool-cases (covers m j)) [
  | inl b ↦
      let h' : IsMarked ms j (some (mark_token m t)) (some u) = rw b at h in
      (
        ground (arith, b, h'.0),
        λ c. ground (
          arith,
          b,
          h'.1 c,
          contains-sorted_set (t.categories ++ m.match_categories) c,
          contains-append t.categories m.match_categories c,
        ),
        h'.2,
        λ k. ground (arith, b, k, h'.3),
      )
  | inr b ↦
      let h' : IsMarked ms j (some t) (some u) = rw b at h in
      (
        ground (arith, b, h'.0),
        λ c. ground (arith, b, h'.1 c),
        h'.2,
        λ k. h'.3 (ground (arith, b, k)),
      )
]

unmarked : (j : ℕ) (o : Option TokenRecord) → IsMarked [] j o o
unmarked j none = refl
unmarked j (some t) = (ground arith, λ c. ground arith, refl, λ k. refl)

mark_matches-IsMarked :
    (text : Text) (ms : List PhraseMatch) (tokens : List TokenRecord) (j : ℕ)
    → IsMarked ms j (get_elem? tokens j) (get_elem? (mark_matches text ms tokens).0 j)
unfolding mark_matches
mark_matches-IsMarked text [] tokens j = unmarked j (get_elem? tokens j)
mark_matches-IsMarked text (m ∷ ms) tokens j =
    add_match-IsMarked m ms j (get_elem? tokens j)
      (get_elem? (mark_matches text ms (mark_tokens m 0 tokens)).0 j)
      (rw (sym (get_elem_marked m j tokens))
        (mark_matches-IsMarked text ms (mark_tokens m 0 tokens) j))

-- Behind the phrase matching the token at each index is known if it was known or a longest match
-- covers it, from its start index to its end index inclusive, and has the categories it had and those
-- of the matches that cover it; its normalized form stays, and its source too if it was known or no
-- match covers it.
pub apply_phrase_matching-IsMarked :
    (text : Text) (tokens : List TokenRecord) (snapshot : LexiconIndexSnapshot) (j : ℕ)
    → IsMarked
        (longest_matches snapshot.phrase_matcher (map (λ (t : TokenRecord). t.normalized) tokens))
        j
        (get_elem? tokens j)
        (get_elem? (apply_phrase_matching text tokens snapshot).0 j)
unfolding apply_phrase_matching
apply_phrase_matching-IsMarked text tokens snapshot j =
    mark_matches-IsMarked text
      (longest_matches snapshot.phrase_matcher (map (λ t. t.normalized) tokens)) tokens j

length-mark_tokens :
    (m : PhraseMatch) (i : ℕ) (ts : List TokenRecord) → length (mark_tokens m i ts) ≡ length ts
unfolding mark_tokens
length-mark_tokens m i [] = refl
length-mark_tokens m i (t ∷ ts) = ap suc (length-mark_tokens m (i + 1) ts)

length-mark_matches :
    (text : Text) (ms : List PhraseMatch) (tokens : List TokenRecord)
    → (length (mark_matches text ms tokens).0 ≡ length tokens)
      × (length (mark_matches text ms tokens).1 ≡ length ms)
unfolding mark_matches
length-mark_matches text [] tokens = (refl, refl)
length-mark_matches text (m ∷ ms) tokens =
    let rest = length-mark_matches text ms (mark_tokens m 0 tokens) in
    (rest.0 ∙ length-mark_tokens m 0 tokens, ap suc rest.1)

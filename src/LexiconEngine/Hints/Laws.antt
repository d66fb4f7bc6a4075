-- ===== src/LexiconEngine/Hints/Laws.antt =====
-- What a part of speech does to the categories of a token.
use vocabulary_micro.Prelude.{
  ◌≡◌, refl, sym, ap, ◌∙◌, inl, inr, Bool, true, false, ◌&&◌, ◌||◌, not, Option, none, some, List,
  [], ◌∷◌, arith, Bool-cases, Option-cases, take, is_empty, any, ◌==◌, nat_equality, list_equality,
  pair_equality,
}
use vocabulary_micro.Text.{Text, same_text, lower}
use vocabulary_micro.LexiconEngine.Hints.{
  fold_category, matched_category, without_category, hinted_categories,
}

-- A category occurs, up to letter case and blanks at its ends.
abbrev has_category : Text → List Text → Bool
has_category folded cs = any (λ c. fold_category c == folded) cs

abbrev IsMatched : Text → List Text → Option Text → Type 0
IsMatched hinted cs none = has_category hinted cs ≡ false
IsMatched hinted cs (some m) = (fold_category m ≡ hinted) × (has_category hinted cs ≡ true)

skip-IsMatched :
    (hinted c : Text) (cs : List Text) (o : Option Text)
    → (fold_category c == hinted) ≡ false
    → IsMatched hinted cs o
    → IsMatched hinted (c ∷ cs) o
skip-IsMatched hinted c cs none h k = ground (arith, h, k)
skip-IsMatched hinted c cs (some m) h k = (k.0, ground (arith, h, k.1))

matched_category-IsMatched :
    (hinted : Text) (cs : List Text) → IsMatched hinted cs (matched_category hinted cs)
unfolding matched_category
matched_category-IsMatched hinted [] = refl
matched_category-IsMatched hinted (c ∷ cs) = elim (Bool-cases (fold_category c == hinted)) [
  | inl h ↦ rw h ((same_text (fold_category c) hinted).0 h, ap (λ b. b || has_category hinted cs) h)
  | inr h ↦ rw h (
      skip-IsMatched hinted c cs (matched_category hinted cs) h
        (matched_category-IsMatched hinted cs))
]

has_category-without_category :
    (hinted folded : Text) (cs : List Text)
    → has_category folded (without_category hinted cs)
      ≡ (has_category folded cs && not (hinted == folded))
unfolding without_category
has_category-without_category hinted folded [] = refl
has_category-without_category hinted folded (c ∷ cs) = ground (
  arith,
  has_category-without_category hinted folded cs,
  same_text (fold_category c) hinted,
  same_text (fold_category c) folded,
  same_text hinted folded,
)

-- A part of speech that hints at a category moves the token's own spelling of that category to the
-- front and drops its other spellings: up to letter case and blanks at their ends, the categories of
-- a token that has some stay the same.
has_category-hinted_categories :
    (hinted folded c : Text) (cs : List Text)
    → has_category folded (hinted_categories hinted (c ∷ cs)) ≡ has_category folded (c ∷ cs)
unfolding hinted_categories
has_category-hinted_categories hinted folded c cs =
    let own = matched_category-IsMatched (lower hinted) (c ∷ cs) in
    elim (Option-cases (matched_category (lower hinted) (c ∷ cs))) [
      | inl e ↦ rw (e, hinted_categories) refl
      | inr (m, e) ↦
          let found : IsMatched (lower hinted) (c ∷ cs) (some m) = rw e at own in
          let other : lower hinted ≡ folded → has_category folded (c ∷ cs) ≡ true =
            λ p. ap (λ f. has_category f (c ∷ cs)) (sym p) ∙ found.1 in
          rw (e, hinted_categories)
            (rw (has_category-without_category (lower hinted) folded (c ∷ cs), found.0)
              (ground (arith, other, same_text (lower hinted) folded)))
    ]

-- The category that the part of speech hints at comes first, if the token has it or has none.
hinted_categories_first :
    (hinted : Text) (cs : List Text)
    → (is_empty cs || has_category (lower hinted) cs) ≡ true
    → is_empty cs
        || any (λ c. fold_category c == lower hinted) (take 1 (hinted_categories hinted cs))
      ≡ true
unfolding hinted_categories
hinted_categories_first hinted [] h = refl
hinted_categories_first hinted (c ∷ cs) h =
    let own = matched_category-IsMatched (lower hinted) (c ∷ cs) in
    elim (Option-cases (matched_category (lower hinted) (c ∷ cs))) [
      | inl e ↦
          let absent : has_category (lower hinted) (c ∷ cs) ≡ false = rw e at own in
          absurd (ground (arith, absent, h))
      | inr (m, e) ↦
          let found : IsMatched (lower hinted) (c ∷ cs) (some m) = rw e at own in
          rw (e, hinted_categories)
            (ground (arith, (same_text (fold_category m) (lower hinted)).1 found.0))
    ]

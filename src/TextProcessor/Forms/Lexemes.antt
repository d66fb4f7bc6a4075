-- ===== src/TextProcessor/Forms/Lexemes.antt =====
-- What `normalize_lexeme` does to a word.
use vocabulary_micro.Prelude.{
  ◌-◌, ◌<◌, ◌≡◌, sym, ap, ◌∙◌, inl, inr, true, false, ◌++◌, arith, All, Bool-cases, length, take,
  list_equality, nat_equality, append_assoc,
}
use vocabulary_micro.Text.{Text, codes, is_space, lower, strip, ends_with, drop_last}
use vocabulary_micro.Text.Words.{IsWord}
use vocabulary_micro.Text.Normal.{solid-lower, lower_idem}
use vocabulary_micro.Text.Affix.{
  strip-solid, All-take, lower-take, ends_with-append, append-ends_with,
}
use vocabulary_micro.TextProcessor.Forms.{normalize_lexeme, is_plural}

is_plural-parts :
    (v : Text)
    → is_plural v ≡ true
    → (ends_with (codes "s") v ≡ true) × (ends_with (codes "ss") v ≡ false) × (3 < length v)
unfolding is_plural
is_plural-parts v h = ground arith

-- A plural has just one "s" at its end, so what is left of it is no plural.
is_plural-drop_last : (v : Text) → is_plural v ≡ true → is_plural (drop_last 1 v) ≡ false
is_plural-drop_last v h = elim (Bool-cases (ends_with (codes "s") (drop_last 1 v))) [
  | inl again ↦ absurd (cc (twice again, (is_plural-parts v h).1))
  | inr once ↦ unfold is_plural in rw once
]
  where
    twice : ends_with (codes "s") (drop_last 1 v) ≡ true → ends_with (codes "ss") v ≡ true
    twice again =
        let r = drop_last 1 (drop_last 1 v) in
        let inner = ends_with-append (codes "s") (drop_last 1 v) again in
        let outer = ends_with-append (codes "s") v (is_plural-parts v h).0 in
        let e : r ++ codes "ss" ≡ v =
          sym (append_assoc r (codes "s") (codes "s")) ∙ ap (λ t. t ++ codes "s") inner ∙ outer in
        rw e at (append-ends_with (codes "ss") r)

normalize_lexeme_fixed :
    (v : Text) → lower (strip v) ≡ v → is_plural v ≡ false → normalize_lexeme v ≡ v
unfolding normalize_lexeme
normalize_lexeme_fixed v e h = rw (e, h)

module _ (w : Text) (h : IsWord is_space w) where
  stripped : lower (strip w) ≡ lower w
  stripped = ap lower (strip-solid w h.solid)

  pub normalize_lexeme_plural :
      is_plural (lower w) ≡ true → normalize_lexeme w ≡ drop_last 1 (lower w)
  unfolding normalize_lexeme
  normalize_lexeme_plural p = rw (stripped, p)

  pub normalize_lexeme_other : is_plural (lower w) ≡ false → normalize_lexeme w ≡ lower w
  unfolding normalize_lexeme
  normalize_lexeme_other p = rw (stripped, p)

  solid : All (λ c. is_space c ≡ false) (lower w)
  solid = solid-lower w h.solid

  cut_fixed : lower (strip (drop_last 1 (lower w))) ≡ drop_last 1 (lower w)
  unfolding drop_last
  cut_fixed =
      let n = length (lower w) - 1 in
      ap lower (strip-solid _ (All-take (λ c. is_space c ≡ false) n (lower w) solid))
      ∙ lower-take n (lower w)
      ∙ ap (take n) (lower_idem w)

  -- On a word without spaces, what `normalize_lexeme` returns is normalised already.
  pub normalize_lexeme_idem : normalize_lexeme (normalize_lexeme w) ≡ normalize_lexeme w
  normalize_lexeme_idem = elim (Bool-cases (is_plural (lower w))) [
    | inl p ↦
        rw (normalize_lexeme_plural p)
          (normalize_lexeme_fixed _ cut_fixed (is_plural-drop_last (lower w) p))
    | inr p ↦
        rw (normalize_lexeme_other p)
          (normalize_lexeme_fixed _ (ap lower (strip-solid _ solid) ∙ lower_idem w) p)
  ]

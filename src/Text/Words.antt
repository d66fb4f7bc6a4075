-- ===== src/Text/Words.antt =====
-- Splitting a text at separators, and joining words.
use vocabulary_micro.Prelude.{
  ℕ, ◌≡◌, refl, ap, inl, inr, Bool, true, false, List, [], ◌∷◌, ◌++◌, arith, All, if◌then◌else◌,
  Bool-cases, is_empty, ◌==◌, nat_equality, append-nil, ◌∙◌,
}
use vocabulary_micro.Text.{Text, space, is_space, continues, push, runs, join}

module _ (sep : ℕ → Bool) where
  -- A word: not empty, and without a separator.
  pub record IsWord (w : Text) : Type 0 where
    pub filled : is_empty w ≡ false
    pub solid : All (λ c. sep c ≡ false) w

  push-All : (c : ℕ) (ws : List Text) → sep c ≡ false → All IsWord ws → All IsWord (push c ws)
  push-All c [] h k = (record { filled = refl; solid = (h, tt) }, tt)
  push-All c (w ∷ ws) h k = (record { filled = refl; solid = (h, k.0.solid) }, k.1)

  pub runs-sep : (c : ℕ) (s : Text) → sep c ≡ true → runs sep (c ∷ s) ≡ runs sep s
  unfolding runs
  runs-sep c s h = rw h

  pub runs-cons :
      (c : ℕ) (s : Text)
      → sep c ≡ false
      → runs sep (c ∷ s) ≡ (if continues sep s then push c (runs sep s) else (c ∷ []) ∷ runs sep s)
  unfolding runs
  runs-cons c s h = rw h

  -- Every run is a word.
  pub runs-All : (s : Text) → All IsWord (runs sep s)
  runs-All [] = unfold runs in tt
  runs-All (c ∷ s) = elim (Bool-cases (sep c)) [
    | inl h ↦ rw (runs-sep c s h) (runs-All s)
    | inr h ↦ elim (Bool-cases (continues sep s)) [
      | inl k ↦ rw (runs-cons c s h, k) (push-All c (runs sep s) h (runs-All s))
      | inr k ↦ rw (runs-cons c s h, k) (record { filled = refl; solid = (h, tt) }, runs-All s)
    ]
  ]

  -- A word ahead of a text that does not go on with it is a run of its own.
  runs-word :
      (w s : Text)
      → is_empty w ≡ false
      → All (λ c. sep c ≡ false) w
      → continues sep s ≡ false
      → runs sep (w ++ s) ≡ w ∷ runs sep s
  runs-word [] s e h k = ground arith
  runs-word (c ∷ []) s e h k = rw (runs-cons c s h.0, k)
  runs-word (c ∷ d ∷ w) s e h k =
      rw (runs-cons c (d ∷ w ++ s) h.0, h.1.0) (ap (push c) (runs-word (d ∷ w) s refl h.1 k))

  pub runs-single : (w : Text) → IsWord w → runs sep w ≡ w ∷ []
  unfolding runs
  runs-single w h = rw (append-nil w) at (runs-word w [] h.filled h.solid refl)

  -- Splitting undoes joining.
  pub runs-join : sep space ≡ true → (ws : List Text) → All IsWord ws → runs sep (join ws) ≡ ws
  unfolding join
  runs-join e [] h = unfold runs in refl
  runs-join e (w ∷ []) h = runs-single w h.0
  runs-join e (w ∷ v ∷ ws) h =
      runs-word w _ h.0.filled h.0.solid (rw e)
      ∙ ap (◌∷◌ w) (runs-sep space (join (v ∷ ws)) e ∙ runs-join e (v ∷ ws) h.1)

-- A space of any kind apart, no character of a word is the space.
pub space_apart : (c : ℕ) → is_space c ≡ false → (c == space) ≡ false
unfolding is_space
space_apart c h = ground arith

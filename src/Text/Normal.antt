-- ===== src/Text/Normal.antt =====
-- Stripping a text and collapsing its spaces, against its words.
use vocabulary_micro.Prelude.{
  ℕ, ◌≡◌, refl, sym, ap, ◌∙◌, ◌↔◌, ◌⊎◌, inl, inr, Bool, true, false, List, [], ◌∷◌, ◌++◌, map,
  arith, All, if◌then◌else◌, Bool-cases, List-cases,
}
use vocabulary_micro.Text.{
  Text, space, is_space, lower_code, lower, lstrip, rstrip, strip, continues, push, runs,
  split_words, join, collapse_from, collapse, cons_unless_blank,
}
use vocabulary_micro.Text.Words.{IsWord, runs-sep, runs-cons}

-- What is written for words ahead of which a space was met.
abbrev spaced : List Text → Text
spaced [] = []
spaced (w ∷ ws) = space ∷ join (w ∷ ws)

-- What `collapse_from` writes for the words of `s`, inside a run of spaces or not.
abbrev written : Bool → Text → Text
written inside s =
    if inside
    then join (split_words s)
    else if continues is_space s
    then join (split_words s)
    else spaced (split_words s)

join-push : (c : ℕ) (ws : List Text) → join (push c ws) ≡ c ∷ join ws
unfolding join
join-push c [] = refl
join-push c (w ∷ []) = refl
join-push c (w ∷ v ∷ ws) = refl

join-letter : (c : ℕ) (ws : List Text) → join ((c ∷ []) ∷ ws) ≡ c ∷ spaced ws
unfolding join
join-letter c [] = refl
join-letter c (w ∷ ws) = refl

join-split-cons :
    (c : ℕ) (s : Text) → is_space c ≡ false → join (split_words (c ∷ s)) ≡ c ∷ written false s
join-split-cons c s h = elim (Bool-cases (continues is_space s)) [
  | inl k ↦ rw (runs-cons is_space c s h, k) (join-push c (split_words s))
  | inr k ↦ rw (runs-cons is_space c s h, k) (join-letter c (split_words s))
]

pub cons_unless_blank-solid :
    (c : ℕ) (r : Text) → is_space c ≡ false → cons_unless_blank c r ≡ c ∷ r
cons_unless_blank-solid c [] h = rw h
cons_unless_blank-solid c (d ∷ r) h = refl

join-split-sep : (c : ℕ) (s : Text) → is_space c ≡ true → split_words (c ∷ s) ≡ split_words s
join-split-sep c s h = runs-sep is_space c s h

split_words-cons_ne : (c : ℕ) (s : Text) → is_space c ≡ false → split_words (c ∷ s) ≡ [] → ⊥
split_words-cons_ne c s h e = ground (arith, runs-cons is_space c s h, push_ne c (split_words s))
  where
    push_ne : (c : ℕ) (ws : List Text) → push c ws ≡ [] → ⊥
    push_ne c [] e = cc
    push_ne c (w ∷ ws) e = cc

-- A text of spaces alone has no word, and is stripped to nothing.
split_words_blank : (s : Text) → (rstrip s ≡ []) ↔ (split_words s ≡ [])
unfolding rstrip
split_words_blank [] = (λ _. unfold runs in refl, λ _. refl)
split_words_blank (c ∷ s) = elim (Bool-cases (is_space c)) [
  | inl h ↦ elim (List-cases (rstrip s)) [
    | inl n ↦ (λ _. join-split-sep c s h ∙ (split_words_blank s).0 n, λ _. rw (n, h))
    | inr (d, r, n) ↦ (
      λ e. ground (arith, ap (cons_unless_blank c) n),
      λ e. ground (arith, (split_words_blank s).1 (sym (join-split-sep c s h) ∙ e)),
    )
  ]
  | inr h ↦ (
    λ e. ground (arith, cons_unless_blank-solid c (rstrip s) h),
    λ e. absurd (split_words-cons_ne c s h e),
  )
]

collapse_from-sep :
    (inside : Bool) (c : ℕ) (s : Text)
    → is_space c ≡ true
    → collapse_from inside (c ∷ s)
      ≡ (if inside then collapse_from true s else space ∷ collapse_from true s)
unfolding collapse_from
collapse_from-sep inside c s h = rw h

collapse_from-solid :
    (inside : Bool) (c : ℕ) (s : Text)
    → is_space c ≡ false
    → collapse_from inside (c ∷ s) ≡ c ∷ collapse_from false s
unfolding collapse_from
collapse_from-solid inside c s h = rw h

spaced_filled : (ws : List Text) → ¬ (ws ≡ []) → spaced ws ≡ space ∷ join ws
spaced_filled [] h = absurd (h refl)
spaced_filled (w ∷ ws) h = refl

collapse_from-space :
    (inside : Bool) (s : Text)
    → collapse_from true (rstrip s) ≡ join (split_words s)
    → (c : ℕ) → is_space c ≡ true
    → collapse_from inside (cons_unless_blank c (rstrip s))
      ≡ (if inside then join (split_words s) else spaced (split_words s))
unfolding join
collapse_from-space inside s ih c h = elim (List-cases (rstrip s)) [
  | inl n ↦ rw (n, h, (split_words_blank s).0 n) (unfold collapse_from in ground arith)
  | inr (d, r, n) ↦
      rw (n, collapse_from-sep inside c (d ∷ r) h, ap (collapse_from true) (sym n) ∙ ih)
        (ground (arith, spaced_filled (split_words s) (filled d r n)))
]
  where
    filled : (d : ℕ) (r : Text) → rstrip s ≡ d ∷ r → ¬ (split_words s ≡ [])
    filled d r n e = cc (n, (split_words_blank s).1 e)

collapse_from-rstrip :
    (inside : Bool) (s : Text) → collapse_from inside (rstrip s) ≡ written inside s
unfolding rstrip
collapse_from-rstrip inside [] = unfold collapse_from runs join in ground arith
collapse_from-rstrip inside (c ∷ s) = elim (Bool-cases (is_space c)) [
  | inl h ↦
      rw (join-split-sep c s h, h) (collapse_from-space inside s (collapse_from-rstrip true s) c h)
  | inr h ↦
      rw
        (
          cons_unless_blank-solid c (rstrip s) h,
          collapse_from-solid inside c (rstrip s) h,
          collapse_from-rstrip false s,
          h,
          join-split-cons c s h,
        )
        (ground arith)
]

lstrip-continues : (s : Text) → (lstrip s ≡ []) ⊎ (continues is_space (lstrip s) ≡ true)
unfolding lstrip
lstrip-continues [] = inl refl
lstrip-continues (c ∷ s) = elim (Bool-cases (is_space c)) [
  | inl h ↦ rw h (lstrip-continues s)
  | inr h ↦ inr (rw (h) (rw h))
]

split_words-lstrip : (s : Text) → split_words (lstrip s) ≡ split_words s
unfolding lstrip
split_words-lstrip [] = refl
split_words-lstrip (c ∷ s) = elim (Bool-cases (is_space c)) [
  | inl h ↦ rw (h, join-split-sep c s h) (split_words-lstrip s)
  | inr h ↦ rw h
]

-- Collapsing what is stripped joins the words by single spaces.
collapse-strip : (s : Text) → collapse (strip s) ≡ join (split_words s)
unfolding collapse strip
collapse-strip s =
    collapse_from-rstrip false (lstrip s)
    ∙ rw (split_words-lstrip s)
        (elim (lstrip-continues s) [ inl n ↦ rw (n, blank n) (unfold join in refl) | inr k ↦ rw k ])
  where
    blank : lstrip s ≡ [] → split_words s ≡ []
    blank n = sym (split_words-lstrip s) ∙ ap split_words n ∙ unfold runs in refl

is_space-lower_code : (c : ℕ) → is_space (lower_code c) ≡ is_space c
unfolding is_space lower_code
is_space-lower_code c = ground arith

lower_code_idem : (c : ℕ) → lower_code (lower_code c) ≡ lower_code c
unfolding lower_code
lower_code_idem c = ground arith

pub lower_idem : (s : Text) → lower (lower s) ≡ lower s
unfolding lower
lower_idem [] = refl
lower_idem (c ∷ s) = cc (lower_code_idem c, lower_idem s)

-- `lower` moves no space, so it commutes with collapsing.
collapse_from-lower :
    (inside : Bool) (s : Text) → collapse_from inside (lower s) ≡ lower (collapse_from inside s)
unfolding lower
collapse_from-lower inside [] = unfold collapse_from in refl
collapse_from-lower inside (c ∷ s) = elim (Bool-cases (is_space c)) [
  | inl h ↦
      rw
        (
          collapse_from-sep inside c s h,
          collapse_from-sep inside (lower_code c) (lower s) (is_space-lower_code c ∙ h),
        )
        (ground (arith, collapse_from-lower true s))
  | inr h ↦
      rw
        (
          collapse_from-solid inside c s h,
          collapse_from-solid inside (lower_code c) (lower s) (is_space-lower_code c ∙ h),
        )
        (ap (◌∷◌ (lower_code c)) (collapse_from-lower false s))
]

pub lower-append : (s t : Text) → lower (s ++ t) ≡ lower s ++ lower t
unfolding lower
lower-append [] t = refl
lower-append (c ∷ s) t = ap (◌∷◌ (lower_code c)) (lower-append s t)

lower-space : (s : Text) → lower (space ∷ s) ≡ space ∷ lower s
unfolding lower
lower-space s = refl

lower-join : (ws : List Text) → lower (join ws) ≡ join (map lower ws)
unfolding join
lower-join [] = unfold lower in refl
lower-join (w ∷ []) = refl
lower-join (w ∷ v ∷ ws) =
    lower-append w _
    ∙ ap (λ t. lower w ++ t) (lower-space (join (v ∷ ws)) ∙ ap (◌∷◌ space) (lower-join (v ∷ ws)))

-- What a stripped, lowered and collapsed text is: its lowered words, joined by single spaces.
pub collapse-lower-strip :
    (s : Text) → collapse (lower (strip s)) ≡ join (map lower (split_words s))
collapse-lower-strip s =
    unfold collapse in
    collapse_from-lower false (strip s) ∙ ap lower (collapse-strip s) ∙ lower-join (split_words s)

pub solid-lower :
    (w : Text) → All (λ c. is_space c ≡ false) w → All (λ c. is_space c ≡ false) (lower w)
unfolding lower
solid-lower [] h = tt
solid-lower (c ∷ w) h = (is_space-lower_code c ∙ h.0, solid-lower w h.1)

pub IsWord-lower : (w : Text) → IsWord is_space w → IsWord is_space (lower w)
IsWord-lower [] h = absurd (cc h.filled)
IsWord-lower (c ∷ w) h = record {
  filled = unfold lower in refl;
  solid = solid-lower (c ∷ w) h.solid;
}

pub lowered-IsWord :
    (ws : List Text) → All (IsWord is_space) ws → All (IsWord is_space) (map lower ws)
lowered-IsWord [] h = tt
lowered-IsWord (w ∷ ws) h = (IsWord-lower w h.0, lowered-IsWord ws h.1)

pub map-lower_idem : (ws : List Text) → map lower (map lower ws) ≡ map lower ws
map-lower_idem [] = refl
map-lower_idem (w ∷ ws) = cc (lower_idem w, map-lower_idem ws)

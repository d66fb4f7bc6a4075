-- ===== src/TextProcessor/Patterns/Grammar.antt =====
-- The languages of WORD_RE and SAFE_TERM_RE, against the automata.
use vocabulary_micro.Prelude.{
  ℕ, ◌≡◌, refl, sym, ap, ◌∙◌, ◌↔◌, inl, inr, Bool, true, false, ◌||◌, [], ◌∷◌, ◌++◌, arith, All,
  All-append, Bool-cases, is_empty, ◌==◌, nat_equality, append_assoc, append-nil, nat_beq_iff,
}
use vocabulary_micro.Text.{Text, space}
use vocabulary_micro.TextProcessor.Patterns.{
  is_letter, is_joint, wanting, behind, lost, matches_from, matches_word, matches_safe_term,
}

-- `[a-z]+`
pub record Letters (s : Text) : Type 0 where
  pub filled : is_empty s ≡ false
  pub each : All (λ c. is_letter c ≡ true) s

-- `[a-z]+(?:J[a-z]+)*`, where the class J holds the joints.
pub data Joined (joint : ℕ → Bool) : Text → Type 0 where
  single : (s : Text) → Letters s → Joined joint s
  joined :
      (s : Text) (j : ℕ) (t r : Text)
      → Letters s
      → joint j ≡ true
      → Joined joint t
      → r ≡ s ++ (j ∷ t)
      → Joined joint r

-- The language of WORD_RE.
abbrev pub Word : Text → Type 0
Word = Joined is_joint

-- The language of SAFE_TERM_RE: words with single spaces between them.
pub data SafeTerm : Text → Type 0 where
  one : (s : Text) → Word s → SafeTerm s
  more : (s t r : Text) → Word s → SafeTerm t → r ≡ s ++ (space ∷ t) → SafeTerm r

Letters-concat : (p : Text) (c : ℕ) → Letters p → is_letter c ≡ true → Letters (p ++ c ∷ [])
Letters-concat [] c p h = record { filled = refl; each = (h, tt) }
Letters-concat (d ∷ p) c q h = record {
  filled = refl;
  each = All-append (λ c. is_letter c ≡ true) (d ∷ p) (c ∷ []) q.each (h, tt);
}

module _ (joint : ℕ → Bool) where
  behind_letter :
      (c : ℕ) (s : Text)
      → is_letter c ≡ true
      → matches_from joint behind (c ∷ s) ≡ matches_from joint behind s
  unfolding matches_from
  behind_letter c s h = rw h

  wanting_letter :
      (c : ℕ) (s : Text)
      → is_letter c ≡ true
      → matches_from joint wanting (c ∷ s) ≡ matches_from joint behind s
  unfolding matches_from
  wanting_letter c s h = rw h

  lost_forever : (s : Text) → matches_from joint lost s ≡ false
  unfolding matches_from
  lost_forever [] = refl
  lost_forever (c ∷ s) = lost_forever s

  -- A text that is matched from the start begins with a letter.
  wanting_inv : (c : ℕ) (s : Text) → matches_from joint wanting (c ∷ s) ≡ true → is_letter c ≡ true
  unfolding matches_from
  wanting_inv c s h = elim (Bool-cases (is_letter c)) [
    | inl l ↦ l
    | inr n ↦
        absurd (cc (lost_forever s, (let e : matches_from joint lost s ≡ true = rw n at h in e)))
  ]

  -- Behind a letter no letter comes: it is a joint, and a letter is wanted.
  behind_inv :
      (c : ℕ) (s : Text)
      → is_letter c ≡ false
      → matches_from joint behind (c ∷ s) ≡ true
      → (joint c ≡ true) × (matches_from joint wanting s ≡ true)
  unfolding matches_from
  behind_inv c s n h = elim (Bool-cases (joint c)) [
    | inl j ↦ (j, rw (n, j) at h)
    | inr k ↦
        absurd
          (cc (lost_forever s, (let e : matches_from joint lost s ≡ true = rw (n, k) at h in e)))
  ]

  sound_behind :
      (p s : Text) → Letters p → matches_from joint behind s ≡ true → Joined joint (p ++ s)
  sound_behind p [] l h = rw (append-nil p) (single p l)
  sound_behind p (c ∷ []) l h = elim (Bool-cases (is_letter c)) [
    | inl k ↦ single (p ++ c ∷ []) (Letters-concat p c l k)
    | inr n ↦ absurd (unfold matches_from in cc (behind_inv c [] n h).1)
  ]
  sound_behind p (c ∷ d ∷ s) l h = elim (Bool-cases (is_letter c)) [
    | inl k ↦ rw (append_assoc p (c ∷ []) (d ∷ s)) at (
        sound_behind (p ++ c ∷ []) (d ∷ s) (Letters-concat p c l k)
          (sym (behind_letter c (d ∷ s) k) ∙ h))
    | inr n ↦
        let (j, w) = behind_inv c (d ∷ s) n h in
        let k = wanting_inv d s w in
        joined p c (d ∷ s) (p ++ (c ∷ d ∷ s)) l j
          (sound_behind (d ∷ []) s (record { filled = refl; each = (k, tt) })
            (sym (wanting_letter d s k) ∙ w))
          refl
  ]

  pub sound : (s : Text) → matches_from joint wanting s ≡ true → Joined joint s
  sound [] h = absurd (unfold matches_from in cc h)
  sound (c ∷ s) h =
      let k = wanting_inv c s h in
      sound_behind (c ∷ []) s (record { filled = refl; each = (k, tt) })
        (sym (wanting_letter c s k) ∙ h)

  behind_letters :
      (s t : Text)
      → All (λ c. is_letter c ≡ true) s
      → matches_from joint behind (s ++ t) ≡ matches_from joint behind t
  behind_letters [] t l = refl
  behind_letters (c ∷ s) t l = behind_letter c (s ++ t) l.0 ∙ behind_letters s t l.1

  wanting-Letters :
      (s t : Text) → Letters s → matches_from joint wanting (s ++ t) ≡ matches_from joint behind t
  wanting-Letters [] t l = absurd (cc l.filled)
  wanting-Letters (c ∷ s) t l = wanting_letter c (s ++ t) l.each.0 ∙ behind_letters s t l.each.1

  module _ (apart : (c : ℕ) → joint c ≡ true → is_letter c ≡ false) where
    behind_end : matches_from joint behind [] ≡ true
    unfolding matches_from
    behind_end = refl

    behind_joint :
        (j : ℕ) (t : Text)
        → joint j ≡ true
        → matches_from joint behind (j ∷ t) ≡ matches_from joint wanting t
    unfolding matches_from
    behind_joint j t h = rw (apart j h, h)

    pub complete : {s : Text} → Joined joint s → matches_from joint wanting s ≡ true
    complete (single s l) = rw (append-nil s) at (wanting-Letters s [] l ∙ behind_end)
    complete (joined s j t r l h w e) =
        ap (matches_from joint wanting) e
        ∙ wanting-Letters s (j ∷ t) l
        ∙ behind_joint j t h
        ∙ complete w

abbrev joint_or_space : ℕ → Bool
joint_or_space c = is_joint c || c == space

is_joint-apart : (c : ℕ) → is_joint c ≡ true → is_letter c ≡ false
unfolding is_joint is_letter
is_joint-apart c h = ground arith

joint_or_space-apart : (c : ℕ) → joint_or_space c ≡ true → is_letter c ≡ false
unfolding is_joint is_letter
joint_or_space-apart c h = ground arith

-- The automaton accepts exactly the language of WORD_RE.
matches_word_iff : (s : Text) → (matches_word s ≡ true) ↔ Word s
unfolding matches_word
matches_word_iff s = (sound is_joint s, λ w. complete is_joint is_joint-apart w)

weaken : {s : Text} → Word s → Joined joint_or_space s
weaken (single s l) = single s l
weaken (joined s j t r l h w e) = joined s j t r l (rw h) (weaken w) e

-- Two matched texts with a space between them are matched.
spaced :
    {s : Text} (t : Text)
    → Joined joint_or_space s
    → Joined joint_or_space t
    → Joined joint_or_space (s ++ (space ∷ t))
spaced t (single s l) k = joined s space t (s ++ (space ∷ t)) l (unfold is_joint in refl) k refl
spaced t (joined s j u r l h w e) k =
    joined s j (u ++ (space ∷ t)) (r ++ (space ∷ t)) l h (spaced t w k)
      (ap (λ x. x ++ (space ∷ t)) e ∙ append_assoc s (j ∷ u) (space ∷ t))

to_joined : {s : Text} → SafeTerm s → Joined joint_or_space s
to_joined (one s w) = weaken w
to_joined (more s t r w k e) = rw e (spaced t (weaken w) (to_joined k))

prepend :
    (s : Text) (j : ℕ) {t : Text}
    → Letters s
    → is_joint j ≡ true
    → SafeTerm t
    → SafeTerm (s ++ (j ∷ t))
prepend s j l h (one t w) = one (s ++ (j ∷ t)) (joined s j t (s ++ (j ∷ t)) l h w refl)
prepend s j l h (more u v r w k e) =
    more (s ++ (j ∷ u)) v (s ++ (j ∷ r)) (joined s j u (s ++ (j ∷ u)) l h w refl) k
      (ap (λ x. s ++ (j ∷ x)) e ∙ sym (append_assoc s (j ∷ u) (space ∷ v)))

is_space_of : (j : ℕ) → is_joint j ≡ false → joint_or_space j ≡ true → j ≡ space
is_space_of j h k = (nat_beq_iff j space).0 (rw h at k)

of_joined : {s : Text} → Joined joint_or_space s → SafeTerm s
of_joined (single s l) = one s (single s l)
of_joined (joined s j t r l h w e) = elim (Bool-cases (is_joint j)) [
  | inl k ↦ rw e (prepend s j l k (of_joined w))
  | inr k ↦ more s t r (single s l) (of_joined w) (rw (is_space_of j k h) at e)
]

-- The automaton accepts exactly the language of SAFE_TERM_RE.
pub matches_safe_term_iff : (s : Text) → (matches_safe_term s ≡ true) ↔ SafeTerm s
unfolding matches_safe_term
matches_safe_term_iff s = (
  λ h. of_joined (sound joint_or_space s h),
  λ t. complete joint_or_space joint_or_space-apart (to_joined t),
)

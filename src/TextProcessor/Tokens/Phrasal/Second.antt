-- ===== src/TextProcessor/Tokens/Phrasal/Second.antt =====
-- What the loop over `second_probe` of `extract_phrasal_verbs` finds.
use mathlib.Core.Path.{subst}
use vocabulary_micro.Prelude.{
  ◌||◌, if_case, length-append, ◌==◌, ◌⊎◌, ◌∙◌, ℕ, zero, suc, ◌+◌, ◌<◌, ◌≡◌, refl, sym, ap, inl,
  inr, true, false, not, Option, none, some, List, [], ◌∷◌, ◌++◌, arith, length, All, nat_equality,
  list_equality, contains,
}
use vocabulary_micro.Text.{Text}
use vocabulary_micro.TextProcessor.Tables.{phrasal_particles}
use vocabulary_micro.TextProcessor.Tokens.{ParsedToken}
use vocabulary_micro.TextProcessor.Tokens.Phrasal.{
  is_valid_phrasal_particle_token, is_verb_tag, particle_of, second_particle,
}

-- The list begins with fewer than `n` tokens that are no verbs, and then has another particle, which
-- is valid as far from the first one as it stands.
pub record IsOther (particle : Text) (n gap : ℕ) (ts : List ParsedToken) (s : Text) : Type 0 where
  pub between : List ParsedToken
  pub token : ParsedToken
  pub after : List ParsedToken
  pub split : ts ≡ between ++ token ∷ after
  pub near : length between < n
  pub no_verb : All (λ t. is_verb_tag t ≡ false) (between ++ token ∷ [])
  pub reads : particle_of token ≡ s
  pub is_particle : contains phrasal_particles s ≡ true
  pub differs : (s == particle) ≡ false
  pub valid : is_valid_phrasal_particle_token token s (gap + length between) ≡ true

-- A second particle if there is one.
abbrev pub IsSecond : Text → ℕ → ℕ → List ParsedToken → Option Text → Type 0
IsSecond particle n gap ts (some s) = IsOther particle n gap ts s
IsSecond particle n gap ts none = (s : Text) → ¬ IsOther particle n gap ts s

head_of : (x y : ParsedToken) (xs ys : List ParsedToken) → x ∷ xs ≡ y ∷ ys → x ≡ y
head_of x y xs ys e = ap (λ (l : List ParsedToken). elim l [ [] ↦ x | z ∷ zs ↦ z ]) e

tail_of : (x y : ParsedToken) (xs ys : List ParsedToken) → x ∷ xs ≡ y ∷ ys → xs ≡ ys
tail_of x y xs ys e = ap (λ (l : List ParsedToken). elim l [ [] ↦ [] | z ∷ zs ↦ zs ]) e

IsOther-later :
    (particle : Text) (n gap : ℕ) (t : ParsedToken) (ts : List ParsedToken) (s : Text)
    → is_verb_tag t ≡ false
    → IsOther particle n (gap + 1) ts s
    → IsOther particle (suc n) gap (t ∷ ts) s
IsOther-later particle n gap t ts s v f = record {
  between = t ∷ f.between;
  token = f.token;
  after = f.after;
  split = ap (λ (xs : List ParsedToken). t ∷ xs) f.split;
  near = omega (arith, f.near);
  no_verb = (v, f.no_verb);
  reads = f.reads;
  is_particle = f.is_particle;
  differs = f.differs;
  valid =
      let gaps : gap + 1 + length f.between ≡ gap + suc (length f.between) = omega arith in
      rw gaps at f.valid;
}

-- The first token is the other particle, or it is no verb and the particle stands behind it.
IsOther-cases :
    (particle : Text) (n gap : ℕ) (t : ParsedToken) (ts : List ParsedToken) (s : Text)
    → IsOther particle (suc n) gap (t ∷ ts) s
    → (is_verb_tag t ≡ false)
      × (((contains phrasal_particles (particle_of t) ≡ true)
            × ((particle_of t == particle) ≡ false)
            × (is_valid_phrasal_particle_token t (particle_of t) gap ≡ true))
          ⊎ IsOther particle n (gap + 1) ts s)
IsOther-cases particle n gap t ts s f = go f.between f.split f.near f.no_verb f.valid
  where
    go :
        (between : List ParsedToken)
        → t ∷ ts ≡ between ++ f.token ∷ f.after
        → length between < suc n
        → All (λ t. is_verb_tag t ≡ false) (between ++ f.token ∷ [])
        → is_valid_phrasal_particle_token f.token s (gap + length between) ≡ true
        → (is_verb_tag t ≡ false)
          × (((contains phrasal_particles (particle_of t) ≡ true)
                × ((particle_of t == particle) ≡ false)
                × (is_valid_phrasal_particle_token t (particle_of t) gap ≡ true))
              ⊎ IsOther particle n (gap + 1) ts s)
    go [] e near v valid =
        let same : f.token ≡ t = sym (head_of t f.token ts f.after e) in
        let reads : particle_of t ≡ s = ap particle_of (sym same) ∙ f.reads in
        let here : gap + 0 ≡ gap = omega arith in
        let own : is_valid_phrasal_particle_token f.token s gap ≡ true = rw here at valid in
        (
          subst (λ t. is_verb_tag t ≡ false) same v.0,
          inl (
            rw reads f.is_particle,
            rw reads f.differs,
            rw reads (subst (λ t. is_valid_phrasal_particle_token t s gap ≡ true) same own),
          ),
        )
    go (b ∷ bs) e near v valid =
        let same : b ≡ t = sym (head_of t b ts (bs ++ f.token ∷ f.after) e) in
        (
          subst (λ t. is_verb_tag t ≡ false) same v.0,
          inr (record {
            between = bs;
            token = f.token;
            after = f.after;
            split = tail_of t b ts (bs ++ f.token ∷ f.after) e;
            near = omega (arith, near);
            no_verb = v.1;
            reads = f.reads;
            is_particle = f.is_particle;
            differs = f.differs;
            valid =
                let gaps : gap + suc (length bs) ≡ gap + 1 + length bs = omega arith in
                rw gaps at valid;
          }),
        )

-- A token that is no verb and not the other particle changes nothing.
skip :
    (particle : Text) (n gap : ℕ) (t : ParsedToken) (ts : List ParsedToken) (o : Option Text)
    → is_verb_tag t ≡ false
    → ¬ (
        (contains phrasal_particles (particle_of t) ≡ true)
        × ((particle_of t == particle) ≡ false)
        × (is_valid_phrasal_particle_token t (particle_of t) gap ≡ true))
    → IsSecond particle n (gap + 1) ts o
    → IsSecond particle (suc n) gap (t ∷ ts) o
skip particle n gap t ts (some s) v w h = IsOther-later particle n gap t ts s v h
skip particle n gap t ts none v w h =
    λ s f. elim (IsOther-cases particle n gap t ts s f).1 [ inl own ↦ w own | inr g ↦ h s g ]

pub second_particle-IsSecond :
    (particle : Text) (n gap : ℕ) (ts : List ParsedToken)
    → IsSecond particle n gap ts (second_particle particle n gap ts)
unfolding second_particle
second_particle-IsSecond particle zero gap ts = λ s f. absurd (omega (arith, f.near))
second_particle-IsSecond particle (suc n) gap [] =
    λ s f. absurd (omega (arith, ap length f.split, length-append f.between (f.token ∷ f.after)))
second_particle-IsSecond particle (suc n) gap (t ∷ ts) =
    let rest = second_particle-IsSecond particle n (gap + 1) ts in
    let second = particle_of t in
    let Second = IsSecond particle (suc n) gap (t ∷ ts) in
    if_case Second (is_verb_tag t) _ _
      (λ v s f. ground (arith, v, (IsOther-cases particle n gap t ts s f).0))
      (λ v.
        if_case Second (not (contains phrasal_particles second) || second == particle) _ _
          (λ c. skip particle n gap t ts _ v (λ own. ground (arith, c, own)) rest)
          (λ c.
            if_case Second (is_valid_phrasal_particle_token t second gap) _ _
              (λ w. record {
                between = [];
                token = t;
                after = ts;
                split = refl;
                near = omega arith;
                no_verb = (v, tt);
                reads = refl;
                is_particle = ground (arith, c);
                differs = ground (arith, c);
                valid = let here : gap ≡ gap + 0 = omega arith in rw here at w;
              })
              (λ w. skip particle n gap t ts _ v (λ own. ground (arith, w, own)) rest)))

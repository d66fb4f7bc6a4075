-- ===== src/TextProcessor/Tokens/PhrasalLaws.antt =====
-- Where the phrases of `extract_phrasal_verbs` stand in the tokens.
use vocabulary_micro.Prelude.{
  ℕ, zero, suc, ◌+◌, ◌<◌, ◌≡◌, refl, sym, ap, inl, inr, true, false, not, Option, none, some,
  some-injective, List, [], ◌∷◌, ◌++◌, arith, Bool-cases, length, is_empty, All, All-map,
  nat_equality, list_equality, contains, Distinct,
}
use vocabulary_micro.Text.{Text, codes}
use vocabulary_micro.TextProcessor.Tables.{phrasal_particles}
use vocabulary_micro.TextProcessor.Forms.{canonicalize_expression}
use vocabulary_micro.TextProcessor.Forms.Unique.{unique-Distinct, All-unique}
use vocabulary_micro.TextProcessor.Tokens.{ParsedToken}
use vocabulary_micro.TextProcessor.Tokens.Phrasal.Second.{IsSecond, second_particle-IsSecond}
use vocabulary_micro.TextProcessor.Tokens.Phrasal.{
  is_valid_phrasal_particle_token, is_verb_tag, particle_of, verb_of, starts_phrase,
  second_particle, phrase, first_particle, phrasal_max_gap_tokens, keep_phrase, phrases_of,
  extract_phrasal_verbs,
}

-- The list begins with tokens that are no verbs and then has a particle that goes with the verb;
-- the phrase is the canonical form of the verb with it and with a second particle behind it.
pub record Follows (verb : Text) (gap n : ℕ) (ts : List ParsedToken) (p : Text) : Type 0 where
  pub between : List ParsedToken
  pub particle : ParsedToken
  pub after : List ParsedToken
  pub split : ts ≡ between ++ particle ∷ after
  pub near : length between < n
  pub no_verb : All (λ t. is_verb_tag t ≡ false) between
  pub is_particle : contains phrasal_particles (particle_of particle) ≡ true
  pub valid :
      is_valid_phrasal_particle_token particle (particle_of particle) (gap + length between) ≡ true
  pub second : Option Text
  pub second_is : IsSecond (particle_of particle) 2 0 after second
  pub spelled :
      p ≡ canonicalize_expression (phrase verb (particle_of particle) second) (codes "phrasal_verb")

later :
    (verb : Text) (gap n : ℕ) (t : ParsedToken) (ts : List ParsedToken) (p : Text)
    → is_verb_tag t ≡ false
    → Follows verb (gap + 1) n ts p
    → Follows verb gap (suc n) (t ∷ ts) p
later verb gap n t ts p v f = record {
  between = t ∷ f.between;
  particle = f.particle;
  after = f.after;
  split = ap (λ (xs : List ParsedToken). t ∷ xs) f.split;
  near = omega (arith, f.near);
  no_verb = (v, f.no_verb);
  is_particle = f.is_particle;
  valid =
      let gaps : gap + 1 + length f.between ≡ gap + suc (length f.between) = omega arith in
      rw gaps at f.valid;
  second = f.second;
  second_is = f.second_is;
  spelled = f.spelled;
}

first_particle-Follows :
    (verb : Text) (n gap : ℕ) (ts : List ParsedToken) (p : Text)
    → first_particle verb n gap ts ≡ some p
    → Follows verb gap n ts p
unfolding first_particle
first_particle-Follows verb zero gap ts p h = absurd (ground (arith, h))
first_particle-Follows verb (suc n) gap [] p h = absurd (ground (arith, h))
first_particle-Follows verb (suc n) gap (t ∷ ts) p h =
    let rest = first_particle-Follows verb n (gap + 1) ts p in
    let particle = particle_of t in
    let valid = is_valid_phrasal_particle_token t particle gap in
    elim (Bool-cases (is_verb_tag t)) [
      | inl v ↦ let k : none ≡ some p = rw v at h in absurd (ground (arith, k))
      | inr v ↦ elim (Bool-cases (not (contains phrasal_particles particle))) [
        | inl c ↦ later verb gap n t ts p v (rest (rw (v, c) at h))
        | inr c ↦ elim (Bool-cases (not valid)) [
          | inl w ↦ later verb gap n t ts p v (rest (rw (v, c, w) at h))
          | inr w ↦
              let k : some (
                    canonicalize_expression (phrase verb particle (second_particle particle 2 0 ts))
                      (codes "phrasal_verb"))
                  ≡ some p =
                rw (v, c, w) at h in
              record {
                between = [];
                particle = t;
                after = ts;
                split = refl;
                near = omega arith;
                no_verb = tt;
                is_particle = ground (arith, c);
                valid =
                    let gaps : gap ≡ gap + 0 = omega arith in
                    let ok : valid ≡ true = ground (arith, w) in rw gaps at ok;
                second = second_particle particle 2 0 ts;
                second_is = second_particle-IsSecond particle 2 0 ts;
                spelled = sym (some-injective _ _ k);
              }
        ]
      ]
    ]

-- A verb of the tokens with a particle behind it, with at most four tokens between them.
pub record IsPhrasal (tokens : List ParsedToken) (p : Text) : Type 0 where
  pub before : List ParsedToken
  pub verb : ParsedToken
  pub rest : List ParsedToken
  pub split : tokens ≡ before ++ verb ∷ rest
  pub starts : starts_phrase verb ≡ true
  pub follows : Follows (verb_of verb) 0 (phrasal_max_gap_tokens + 1) rest p
  pub filled : is_empty p ≡ false

further :
    (t : ParsedToken) (ts : List ParsedToken) (p : Text) → IsPhrasal ts p → IsPhrasal (t ∷ ts) p
further t ts p h = record {
  before = t ∷ h.before;
  verb = h.verb;
  rest = h.rest;
  split = ap (λ (xs : List ParsedToken). t ∷ xs) h.split;
  starts = h.starts;
  follows = h.follows;
  filled = h.filled;
}

All-keep_phrase :
    (P : Text → Type 0) (found : Option Text) (rest : List Text)
    → ((p : Text) → found ≡ some p → is_empty p ≡ false → P p)
    → All P rest
    → All P (keep_phrase found rest)
All-keep_phrase P none rest h k = k
All-keep_phrase P (some p) rest h k = elim (Bool-cases (is_empty p)) [
  | inl e ↦ rw e k
  | inr e ↦ rw e (h p refl e, k)
]

All-phrases_of : (ts : List ParsedToken) → All (IsPhrasal ts) (phrases_of ts)
unfolding phrases_of
All-phrases_of [] = tt
All-phrases_of (t ∷ ts) =
    let rest : All (IsPhrasal (t ∷ ts)) (phrases_of ts) =
      All-map (λ p h. further t ts p h) (phrases_of ts) (All-phrases_of ts) in
    elim (Bool-cases (starts_phrase t)) [
      | inl e ↦ rw e (
          All-keep_phrase (IsPhrasal (t ∷ ts))
            (first_particle (verb_of t) (phrasal_max_gap_tokens + 1) 0 ts) (phrases_of ts)
            (λ p f filled. record {
              before = [];
              verb = t;
              rest = ts;
              split = refl;
              starts = e;
              follows = first_particle-Follows (verb_of t) (phrasal_max_gap_tokens + 1) 0 ts p f;
              filled = filled;
            })
            rest)
      | inr e ↦ rw e rest
    ]

-- The phrases are distinct and not blank, and each is the canonical form of a verb of the tokens
-- with a valid particle behind it, with at most four tokens and no verb between them, and with
-- another valid particle, which follows the first one with at most one token and no verb between
-- them, if there is such a one.
pub extract_phrasal_verbs_lem :
    (tokens : List ParsedToken)
    → Distinct (extract_phrasal_verbs tokens)
      × All (IsPhrasal tokens) (extract_phrasal_verbs tokens)
unfolding extract_phrasal_verbs
extract_phrasal_verbs_lem tokens = (
  unique-Distinct (phrases_of tokens),
  All-unique (IsPhrasal tokens) (phrases_of tokens) (All-phrases_of tokens),
)

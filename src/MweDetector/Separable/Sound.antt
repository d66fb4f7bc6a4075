-- ===== src/MweDetector/Separable/Sound.antt =====
-- What `_detect_separable` and `detect` find.
use mathlib.Core.Path.{subst}
use vocabulary_micro.Prelude.{
  IsIn, contains, ℕ, ◌-◌, ◌≤◌, ◌<◌, max, ◌≡◌, sym, ap, ◌⊎◌, inl, inr, Bool, true, false, ◌||◌, not,
  Option, none, some, some-injective, List, [], arith, ltb, leb, if◌then◌else◌, Bool-cases, ℕ-cases,
  Option-cases, ||_false, length, get_elem?, is_empty, All, All-unit, fold-invariant, range, ◌==◌,
  nat_equality, list_equality, lookup,
}
use vocabulary_micro.Text.{Text, same_text, lower, strip}
use vocabulary_micro.MweDetector.{
  MweToken, MweExpression, MweCandidate, MweSettings, build_candidate, max_score,
}
use vocabulary_micro.MweDetector.Particles.{reads_as, find_particle_index}
use vocabulary_micro.MweDetector.Particles.Window.{IsParticleAt, find_particle_index_lem}
use vocabulary_micro.MweDetector.Overlaps.Choice.{IsInterval}
use vocabulary_micro.MweDetector.Contiguous.{lemma_of}
use vocabulary_micro.MweDetector.Contiguous.Sound.{Once, add_found-keeps}
use vocabulary_micro.MweDetector.Separable.Entries.{
  all_contained, AreOptions, group_by_verb-AreOptions,
}
use vocabulary_micro.MweDetector.Separable.{
  SeparableIndex, Options, Scorer, group_by_verb, options_of, score_by, judge_link,
  separable_candidate, separable_id, separable_option, separable_start, detect_separable,
}

-- The candidate is a separable expression that the index has for the lemma of its first token and
-- the text of its last one, which stands behind it, in range, with no more tokens between them than
-- the settings and the expression allow.
pub record IsLink {Score : Type 0} (settings : MweSettings Score) (tokens : List MweToken)
    (expressions : List (ℕ × MweExpression)) (index : SeparableIndex) (c : MweCandidate Score)
    : Type 0 where
  pub verb : MweToken
  pub particle : MweToken
  pub ids : List ℕ
  pub verb_here : get_elem? tokens c.token_start_index ≡ some verb
  pub particle_here : get_elem? tokens c.token_end_index ≡ some particle
  pub indexed : IsIn index ((lower (strip (lemma_of verb)), particle.lower_text), ids)
  pub id : ℕ
  pub listed : contains ids id ≡ true
  pub expression : MweExpression
  pub known : lookup expressions id ≡ some expression
  pub form : c.canonical_form ≡ expression.canonical_form
  pub separable : expression.is_separable ≡ true
  pub ordered : c.token_start_index < c.token_end_index
  pub inside : c.token_end_index < length tokens
  pub near : c.token_end_index - c.token_start_index - 1 ≤ max 1 settings.second_pass_max_gap_tokens
  pub allowed :
      expression.max_gap_tokens ≡ 0
      ⊎ (c.token_end_index - c.token_start_index - 1 ≤ expression.max_gap_tokens)

within :
    (limit default gap : ℕ)
    → ltb (if limit == 0 then default else limit) gap ≡ false
    → (limit ≡ 0) ⊎ (gap ≤ limit)
within limit default gap h = elim (ℕ-cases limit 0) [ inl e ↦ inl e | inr n ↦ inr (ground arith) ]

module _ {Score : Type 0} (less : Score → Score → Bool) (zero_score : Score)
    (settings : MweSettings Score) (text : Text) (tokens : List MweToken)
    (expressions : List (ℕ × MweExpression)) (wordnet_scorer trf_scorer : Option (Scorer Score))
    (index : SeparableIndex) where
  abbrev Linked : List (MweCandidate Score) → Type 0
  Linked found = All (IsLink settings tokens expressions index) found × Once found

  -- The tokens that a call of `separable_id` is about.
  record Site (verb : MweToken) (i : ℕ) (particle_token : MweToken) (j : ℕ) (option : Text × List ℕ)
      : Type 0 where
    placed : IsParticleAt tokens i option.0 (max 1 settings.second_pass_max_gap_tokens) j
    verb_here : get_elem? tokens i ≡ some verb
    particle_here : get_elem? tokens j ≡ some particle_token
    indexed : IsIn index ((lower (strip (lemma_of verb)), option.0), option.1)

  record LinkFields (i j : ℕ) (e : MweExpression) (c : MweCandidate Score) : Type 0 where
    starts : c.token_start_index ≡ i
    ends : c.token_end_index ≡ j
    form : c.canonical_form ≡ e.canonical_form
    separable : e.is_separable ≡ true
    allowed : (e.max_gap_tokens ≡ 0) ⊎ (j - i - 1 ≤ e.max_gap_tokens)

  separable_candidate_lem :
      (verb : MweToken) (i : ℕ) (particle_token : MweToken) (j : ℕ) (e : MweExpression)
      (c : MweCandidate Score)
      → separable_candidate less zero_score settings text tokens expressions wordnet_scorer
          trf_scorer verb i particle_token j e
        ≡ some c
      → LinkFields i j e c
  unfolding separable_candidate build_candidate
  separable_candidate_lem verb i particle_token j e c h =
      let gap_limit =
        if e.max_gap_tokens == 0 then settings.second_pass_max_gap_tokens else e.max_gap_tokens in
      let wordnet_score = score_by less zero_score wordnet_scorer verb particle_token e in
      let trf_score = score_by less zero_score trf_scorer verb particle_token e in
      elim (Bool-cases (not e.is_separable || ltb gap_limit (j - i - 1))) [
        | inl f ↦
            let k : none ≡ some c = rw (f, separable_candidate) at h in absurd (ground (arith, k))
        | inr f ↦
            let guards = ||_false (not e.is_separable) (ltb gap_limit (j - i - 1)) f in
            elim (Option-cases
              (judge_link less zero_score settings particle_token wordnet_score trf_score)) [
                | inl g ↦
                    let k : none ≡ some c = rw (f, g, separable_candidate) at h in
                    absurd (ground (arith, k))
                | inr (verdict, g) ↦
                    let k : some (
                          build_candidate less zero_score text verb particle_token i j e verdict.0
                            (max_score less zero_score wordnet_score trf_score) verdict.1)
                        ≡ some c =
                      rw (f, g, separable_candidate) at h in
                    let same = some-injective _ _ k in
                    record {
                      starts = ap (λ c. c.token_start_index) (sym same);
                      ends = ap (λ c. c.token_end_index) (sym same);
                      form = ap (λ c. c.canonical_form) (sym same);
                      separable = ground (arith, guards.0);
                      allowed =
                          within e.max_gap_tokens settings.second_pass_max_gap_tokens (j - i - 1)
                            guards.1;
                    }
              ]
      ]

  read_at :
      (particle : Text) (j : ℕ) (t : MweToken)
      → get_elem? tokens j ≡ some t
      → reads_as tokens particle j ≡ true
      → particle ≡ t.lower_text
  unfolding reads_as
  read_at particle j t e h =
      let k : (t.lower_text == particle) ≡ true = rw (e, reads_as) at h in
      sym ((same_text t.lower_text particle).0 k)

  module _ (verb : MweToken) (i : ℕ) (particle_token : MweToken) (j : ℕ)
      (option : Text × List ℕ) where
    separable_id-Linked :
        (found : List (MweCandidate Score)) (id : ℕ)
        → Site verb i particle_token j option
        → contains option.1 id ≡ true
        → Linked found
        → Linked (
            separable_id less zero_score settings text tokens expressions wordnet_scorer trf_scorer
              verb i particle_token j found id)
    unfolding separable_id
    separable_id-Linked found id site listed k =
        let p = site.placed in
        let read = read_at option.0 j particle_token site.particle_here p.reads in
        elim (Option-cases (lookup expressions id)) [
          | inl e ↦ rw (e, separable_id) k
          | inr (x, e) ↦
              rw (e, separable_id)
                (elim (Option-cases (
                  separable_candidate less zero_score settings text tokens expressions
                    wordnet_scorer trf_scorer verb i particle_token j x)) [
                      | inl f ↦ rw f k
                      | inr (c, f) ↦
                          let fields = separable_candidate_lem verb i particle_token j x c f in
                          let link : IsLink settings tokens expressions index c = record {
                            verb = verb;
                            particle = particle_token;
                            ids = option.1;
                            verb_here = rw fields.starts site.verb_here;
                            particle_here = rw fields.ends site.particle_here;
                            indexed =
                                subst
                                  (λ l. IsIn index ((lower (strip (lemma_of verb)), l), option.1))
                                  read site.indexed;
                            id = id;
                            listed = listed;
                            expression = x;
                            known = e;
                            form = fields.form;
                            separable = fields.separable;
                            ordered = rw (fields.starts, fields.ends) p.behind;
                            inside = rw fields.ends p.inside;
                            near = rw (fields.starts, fields.ends) (omega (arith, p.near));
                            allowed = rw (fields.starts, fields.ends) fields.allowed;
                          } in
                          rw f (
                            add_found-keeps (IsLink settings tokens expressions index) found c link
                              k)
                    ])
        ]

  separable_option-Linked :
      (verb : MweToken) (i : ℕ) (found : List (MweCandidate Score)) (option : Text × List ℕ)
      → get_elem? tokens i ≡ some verb
      → IsIn index ((lower (strip (lemma_of verb)), option.0), option.1)
      → Linked found
      → Linked (
          separable_option less zero_score settings text tokens expressions wordnet_scorer
            trf_scorer verb i found option)
  unfolding separable_option
  separable_option-Linked verb i found option here indexed k =
      elim (Option-cases
        (find_particle_index tokens i option.0 settings.second_pass_max_gap_tokens)) [
          | inl e ↦ rw (e, separable_option) k
          | inr (j, e) ↦
              let p =
                find_particle_index_lem tokens i option.0 settings.second_pass_max_gap_tokens j e in
              rw (e, separable_option)
                (elim (Bool-cases (leb j i)) [
                  | inl f ↦ rw f k
                  | inr f ↦ rw f (elim (Option-cases (get_elem? tokens j)) [
                    | inl g ↦ rw g k
                    | inr (particle_token, g) ↦ rw g (
                        fold-invariant
                          (separable_id less zero_score settings text tokens expressions
                            wordnet_scorer trf_scorer verb i particle_token j)
                          Linked (λ id. contains option.1 id ≡ true)
                          (λ found id listed k.
                            separable_id-Linked verb i particle_token j option found id
                              (record {
                                placed = p;
                                verb_here = here;
                                particle_here = g;
                                indexed = indexed;
                              })
                              listed k)
                          option.1 (all_contained option.1) found k)
                  ])
                ])
        ]

  separable_start-Linked :
      (by_verb : List (Text × Options)) (found : List (MweCandidate Score)) (i : ℕ)
      → AreOptions index by_verb
      → Linked found
      → Linked (
          separable_start less zero_score settings text tokens expressions wordnet_scorer trf_scorer
            by_verb found i)
  unfolding separable_start
  separable_start-Linked by_verb found i options k = elim (Option-cases (get_elem? tokens i)) [
    | inl e ↦ rw (e, separable_start) k
    | inr (verb, e) ↦
        let lemma = lower (strip (lemma_of verb)) in
        rw (e, separable_start)
          (elim (Bool-cases (is_empty lemma)) [
            | inl f ↦ rw f k
            | inr f ↦ rw f (
                fold-invariant
                  (separable_option less zero_score settings text tokens expressions wordnet_scorer
                    trf_scorer verb i)
                  Linked (λ option. IsIn index ((lemma, option.0), option.1))
                  (λ found option q k. separable_option-Linked verb i found option e q k)
                  (options_of by_verb lemma) (unfold AreOptions in options lemma) found k)
          ])
  ]

  -- Every candidate of the pass is a link, and none is there twice.
  pub detect_separable_lem : Linked (
      detect_separable less zero_score settings text tokens expressions wordnet_scorer trf_scorer
        index)
  unfolding detect_separable
  detect_separable_lem =
      fold-invariant
        (separable_start less zero_score settings text tokens expressions wordnet_scorer trf_scorer
          (group_by_verb index))
        Linked (λ i. Unit)
        (λ found i u k.
          separable_start-Linked (group_by_verb index) found i (group_by_verb-AreOptions index) k)
        (range 0 (length tokens)) (All-unit (range 0 (length tokens))) [] (tt, tt)

  pub IsLink-IsInterval :
      (c : MweCandidate Score) → IsLink settings tokens expressions index c → IsInterval c
  IsLink-IsInterval c h = omega (arith, h.ordered)

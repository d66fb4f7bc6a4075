-- ===== src/MweDetector/Separable.antt =====
-- `_detect_separable` of mwe_detector.py, with the scorers that its caller injects, and `detect`.
pub mod Entries
pub mod Sound
use vocabulary_micro.Prelude.{
  ℕ, ◌-◌, Bool, true, false, ◌&&◌, ◌||◌, not, Option, none, some, List, [], ◌∷◌, ◌++◌, ltb, leb,
  if◌then◌else◌, length, get_elem?, is_empty, fold, range, ◌==◌, nat_equality, list_equality,
  contains, lookup, upsert,
}
use vocabulary_micro.Text.{Text, codes, lower, upper, strip}
use vocabulary_micro.MweDetector.{
  MweToken, MweExpression, MweCandidate, MweSettings, build_candidate, max_score,
}
use vocabulary_micro.MweDetector.Particles.{find_particle_index}
use vocabulary_micro.MweDetector.Overlaps.{dedupe_overlaps}
use vocabulary_micro.MweDetector.Contiguous.{
  ContiguousIndex, lemma_of, add_found, detect_contiguous,
}

-- `dict[tuple[str, str], tuple[int, …]]`, by verb and particle.
abbrev pub SeparableIndex : Type 0
SeparableIndex = List ((Text × Text) × List ℕ)

abbrev pub Options : Type 0
Options = List (Text × List ℕ)

-- `by_verb.setdefault(verb, []).append(option)`
unfoldable pub add_option : List (Text × Options) → (Text × Text) × List ℕ → List (Text × Options)
add_option by_verb entry = upsert by_verb entry.0.0 (λ old. elim old [
  | some options ↦ options ++ (entry.0.1, entry.1) ∷ []
  | none ↦ (entry.0.1, entry.1) ∷ []
])

unfoldable pub group_by_verb : SeparableIndex → List (Text × Options)
group_by_verb index = fold add_option [] index

-- `by_verb.get(lemma, ())`
unfoldable pub options_of : List (Text × Options) → Text → Options
options_of by_verb lemma = elim (lookup by_verb lemma) [ some options ↦ options | none ↦ [] ]

-- The label of the link from the verb to the particle.
abbrev particle_relations : List Text
particle_relations = codes "prt" ∷ codes "compound:prt" ∷ []

abbrev ambiguous_relations : List Text
ambiguous_relations = codes "prep" ∷ codes "advmod" ∷ []

abbrev ambiguous_tags : List Text
ambiguous_tags = codes "ADP" ∷ codes "ADV" ∷ []

unfoldable pub is_particle_relation : MweToken → Bool
is_particle_relation t =
    contains particle_relations (lower (strip t.dep)) || upper (strip t.pos) == codes "PART"

unfoldable pub is_ambiguous_relation : MweToken → Bool
is_ambiguous_relation t =
    contains ambiguous_relations (lower (strip t.dep))
    || contains ambiguous_tags (upper (strip t.pos))

-- A scorer answers none where the call raises.
abbrev pub Scorer : Type 0 → Type 0
Scorer Score = MweToken → MweToken → MweExpression → Option Score

module _ {Score : Type 0} (less : Score → Score → Bool) (zero_score : Score) where
  -- The score of a scorer that may be missing.
  unfoldable pub score_by : Option (Scorer Score) → MweToken → MweToken → MweExpression → Score
  score_by none verb particle e = zero_score
  score_by (some scorer) verb particle e = elim (scorer verb particle e) [
    | some s ↦ s
    | none ↦ zero_score
  ]

  -- The source of a candidate and whether a score lifted it; none where it is passed over.
  unfoldable pub judge_link : MweSettings Score → MweToken → Score → Score → Option (Text × Bool)
  judge_link settings particle_token wordnet_score trf_score =
      if is_ambiguous_relation particle_token
        && not (less trf_score settings.trf_semantic_threshold)
      then some (codes "spacy_trf_semantic", true)
      else if is_ambiguous_relation particle_token
          && not (less wordnet_score settings.wordnet_semantic_threshold)
      then some (codes "second_pass_spacy_semantic", true)
      else if not (is_particle_relation particle_token)
          && (not (is_ambiguous_relation particle_token)
              && not (less zero_score (max_score less zero_score wordnet_score trf_score)))
      then none
      else some (codes "second_pass_spacy", false)

module _ {Score : Type 0} (less : Score → Score → Bool) (zero_score : Score)
    (settings : MweSettings Score) (text : Text) (tokens : List MweToken)
    (expressions : List (ℕ × MweExpression))
    (wordnet_scorer trf_scorer : Option (Scorer Score)) where
  -- The candidate for an expression whose verb and particle stand at `i` and `j`.
  unfoldable pub separable_candidate :
      MweToken → ℕ → MweToken → ℕ → MweExpression → Option (MweCandidate Score)
  separable_candidate verb i particle_token j e =
      let gap_limit =
        if e.max_gap_tokens == 0 then settings.second_pass_max_gap_tokens else e.max_gap_tokens in
      let wordnet_score = score_by less zero_score wordnet_scorer verb particle_token e in
      let trf_score = score_by less zero_score trf_scorer verb particle_token e in
      if not e.is_separable || ltb gap_limit (j - i - 1)
      then none
      else elim (judge_link less zero_score settings particle_token wordnet_score trf_score) [
        | none ↦ none
        | some (source, boosted) ↦ some (
            build_candidate less zero_score text verb particle_token i j e source
              (max_score less zero_score wordnet_score trf_score) boosted)
      ]

  -- The body of the loop over `expression_ids`.
  unfoldable pub separable_id :
      MweToken → ℕ → MweToken → ℕ → List (MweCandidate Score) → ℕ → List (MweCandidate Score)
  separable_id verb i particle_token j found id = elim (lookup expressions id) [
    | none ↦ found
    | some e ↦ elim (separable_candidate verb i particle_token j e) [
      | some c ↦ add_found found c
      | none ↦ found
    ]
  ]

  -- The body of the loop over the verb's options.
  unfoldable pub separable_option :
      MweToken → ℕ → List (MweCandidate Score) → Text × List ℕ → List (MweCandidate Score)
  separable_option verb i found option =
      elim (find_particle_index tokens i option.0 settings.second_pass_max_gap_tokens) [
        | none ↦ found
        | some j ↦ if leb j i then found else elim (get_elem? tokens j) [
          | some particle_token ↦ fold (separable_id verb i particle_token j) found option.1
          | none ↦ found
        ]
      ]

  -- The body of the loop over the tokens.
  unfoldable pub separable_start :
      List (Text × Options) → List (MweCandidate Score) → ℕ → List (MweCandidate Score)
  separable_start by_verb found i = elim (get_elem? tokens i) [
    | none ↦ found
    | some verb ↦
        let lemma = lower (strip (lemma_of verb)) in
        if is_empty lemma
        then found
        else fold (separable_option verb i) found (options_of by_verb lemma)
  ]

  unfoldable pub detect_separable : SeparableIndex → List (MweCandidate Score)
  detect_separable index = fold (separable_start (group_by_verb index)) [] (range 0 (length tokens))

  unfoldable pub detect : ContiguousIndex → SeparableIndex → List (MweCandidate Score)
  detect contiguous_index separable_index =
      if is_empty tokens
      then []
      else dedupe_overlaps less (
          detect_contiguous less zero_score text tokens expressions contiguous_index
          ++ detect_separable separable_index)

-- ===== src/MweDetector/Choices.antt =====
-- `detect` of mwe_detector.py: what holds of the candidates that it returns.
use vocabulary_micro.Prelude.{
  ℕ, ◌≡◌, refl, ap, ◌⊎◌, inl, inr, Bool, true, false, Option, none, List, [], ◌∷◌, ◌++◌, arith,
  Bool-cases, ℕ-cases, length, is_empty, any, All, All-append, All-map, IsWeakOrder, sort, IsSorted,
  nat_equality, list_beq, list_equality, pair_equality, contains, lookup,
}
use vocabulary_micro.Text.{Text}
use vocabulary_micro.TextProcessor.Forms.{unique, unique_from}
use vocabulary_micro.MweDetector.{MweToken, MweExpression, MweCandidate, MweSettings}
use vocabulary_micro.MweDetector.Overlaps.{earlier, outranks}
use vocabulary_micro.MweDetector.Overlaps.Apart.{Disjoint, dedupe_overlaps-Disjoint}
use vocabulary_micro.MweDetector.Overlaps.Choice.{
  IsInterval, beats, All-dedupe_overlaps, dedupe_overlaps-IsSorted, dedupe_overlaps-beats,
}
use vocabulary_micro.MweDetector.Contiguous.{
  ContiguousIndex, matching_ids, ids_at, sorted_ids, detect_contiguous,
}
use vocabulary_micro.MweDetector.Contiguous.Sound.{IsOccurrence, detect_contiguous_lem}
use vocabulary_micro.MweDetector.Separable.{SeparableIndex, Scorer, detect_separable, detect}
use vocabulary_micro.MweDetector.Separable.Sound.{IsLink, IsLink-IsInterval, detect_separable_lem}

is_empty-length {ℓ} : {A : Type ℓ} (xs : List A) → is_empty xs ≡ true → length xs ≡ 0
is_empty-length [] h = refl
is_empty-length (x ∷ xs) h = ground arith

module _ {Score : Type 0} (less : Score → Score → Bool) (zero_score : Score)
    (settings : MweSettings Score) (text : Text) (tokens : List MweToken)
    (expressions : List (ℕ × MweExpression)) (wordnet_scorer trf_scorer : Option (Scorer Score))
    (contiguous_index : ContiguousIndex) (separable_index : SeparableIndex) where
  -- An occurrence of words in a row, or a verb with its particle.
  abbrev pub IsDetected : MweCandidate Score → Type 0
  IsDetected c =
      IsOccurrence tokens expressions contiguous_index c
      ⊎ IsLink settings tokens expressions separable_index c

  abbrev pub detected : List (MweCandidate Score)
  detected =
      detect less zero_score settings text tokens expressions wordnet_scorer trf_scorer
        contiguous_index separable_index

  abbrev pub both_passes : List (MweCandidate Score)
  both_passes =
      detect_contiguous less zero_score text tokens expressions contiguous_index
      ++ detect_separable less zero_score settings text tokens expressions wordnet_scorer trf_scorer
          separable_index

  both_passes-IsDetected : All IsDetected both_passes
  both_passes-IsDetected =
      All-append IsDetected
        (detect_contiguous less zero_score text tokens expressions contiguous_index)
        (detect_separable less zero_score settings text tokens expressions wordnet_scorer trf_scorer
          separable_index)
        (All-map (λ c h. inl h)
          (detect_contiguous less zero_score text tokens expressions contiguous_index)
          (detect_contiguous_lem less zero_score text tokens expressions contiguous_index).0)
        (All-map (λ c h. inr h)
          (detect_separable less zero_score settings text tokens expressions wordnet_scorer
            trf_scorer separable_index)
          (detect_separable_lem less zero_score settings text tokens expressions wordnet_scorer
            trf_scorer separable_index).0)

  -- Every candidate that is returned is an occurrence of a known expression, or runs from a token to
  -- one behind it, near enough, for whose lemma and lowercase text the index of verbs and particles
  -- has the expression; no two share a token, and they stand in the order of the text.
  pub detect_lem : All IsDetected detected × Disjoint detected × IsSorted earlier detected
  unfolding detect
  detect_lem = elim (Bool-cases (is_empty tokens)) [
    | inl e ↦ rw (e, detect) (tt, tt, tt)
    | inr e ↦
        rw (e, detect)
          (
            All-dedupe_overlaps IsDetected less both_passes both_passes-IsDetected,
            dedupe_overlaps-Disjoint less both_passes,
            dedupe_overlaps-IsSorted less both_passes,
          )
  ]

  no_ids : lookup contiguous_index [] ≡ none → ids_at contiguous_index [] ≡ []
  unfolding ids_at
  no_ids h = rw (h, ids_at) refl

  nothing_at_all :
      (id : ℕ)
      → lookup contiguous_index [] ≡ none
      → contains (matching_ids contiguous_index []) id ≡ false
  unfolding matching_ids sorted_ids unique unique_from sort list_beq contains
  nothing_at_all id h =
      let ids : ids_at contiguous_index [] ≡ [] = no_ids h in
      ap (λ (xs : List ℕ). contains (sorted_ids xs) id) ids

  IsDetected-IsInterval :
      (c : MweCandidate Score) → lookup contiguous_index [] ≡ none → IsDetected c → IsInterval c
  IsDetected-IsInterval c h (inr k) =
      IsLink-IsInterval less zero_score settings text tokens expressions wordnet_scorer trf_scorer
        separable_index c k
  IsDetected-IsInterval c h (inl o) = elim (ℕ-cases o.size 0) [
    | inl e ↦
        let k : contains (matching_ids contiguous_index []) o.id ≡ true = rw e at o.indexed in
        absurd (ground (arith, k, nothing_at_all o.id h))
    | inr n ↦ rw (o.starts, o.ends) (omega arith)
  ]

  no_tokens :
      (c : MweCandidate Score)
      → is_empty tokens ≡ true
      → lookup contiguous_index [] ≡ none
      → IsDetected c
      → ⊥
  no_tokens c e h (inr k) = ground (arith, is_empty-length tokens e, k.inside)
  no_tokens c e h (inl o) = elim (ℕ-cases o.size 0) [
    | inl z ↦
        let k : contains (matching_ids contiguous_index []) o.id ≡ true = rw z at o.indexed in
        absurd (ground (arith, k, nothing_at_all o.id h))
    | inr n ↦ omega (arith, is_empty-length tokens e, o.inside)
  ]

  -- For scores in a weak order and an index without an empty key, whatever the two passes find shares
  -- a token with a returned candidate that it does not outrank.
  pub detect-beats :
      IsWeakOrder less
      → lookup contiguous_index [] ≡ none
      → All (λ c. any (beats (outranks less) c) detected ≡ true) both_passes
  unfolding detect
  detect-beats order h = elim (Bool-cases (is_empty tokens)) [
    | inl e ↦ All-map (λ c d. absurd (no_tokens c e h d)) both_passes both_passes-IsDetected
    | inr e ↦
        rw (e, detect)
          (dedupe_overlaps-beats less order both_passes
            (All-map (λ c d. IsDetected-IsInterval c h d) both_passes both_passes-IsDetected))
  ]

-- ===== src/MweDetector/Overlaps.antt =====
-- `_dedupe_overlaps` of mwe_detector.py: the candidates by rank, each taken unless its interval of
-- tokens meets one that is taken already.
pub mod Apart
pub mod Choice
use vocabulary_micro.Prelude.{
  ℕ, ◌-◌, Bool, true, false, ◌||◌, not, List, [], ◌∷◌, ◌++◌, leb, ltb, ◌==◌, nat_equality,
  list_equality, if◌then◌else◌, any, fold, sort, then_by,
}
use vocabulary_micro.Text.{codes}
use vocabulary_micro.MweDetector.{MweCandidate}

-- `1 if b else 0`
abbrev pub flag : Bool → ℕ
flag true = 1
flag false = 0

-- The last token of the interval is not before the first in what the passes build.
abbrev pub span_length : {Score : Type 0} → MweCandidate Score → ℕ
span_length c = c.token_end_index - c.token_start_index

module _ {Score : Type 0} where
  -- The two intervals share a token: `intersects` of the loop.
  unfoldable pub intersects : MweCandidate Score → MweCandidate Score → Bool
  intersects c d =
      not (ltb c.token_end_index d.token_start_index || ltb d.token_end_index c.token_start_index)

  -- A round of the loop; the intervals of `selected` are `occupied`.
  unfoldable pub select : List (MweCandidate Score) → MweCandidate Score → List (MweCandidate Score)
  select selected c = if any (intersects c) selected then selected else selected ++ c ∷ []

  -- The order of `selected.sort`.
  unfoldable pub earlier : MweCandidate Score → MweCandidate Score → Bool
  earlier = then_by (λ c d. ltb c.span_start d.span_start) (λ c d. ltb c.span_end d.span_end)

module _ {Score : Type 0} (less : Score → Score → Bool) where
  -- The key of `ranked` is greater.
  unfoldable pub outranks : MweCandidate Score → MweCandidate Score → Bool
  outranks =
      then_by (λ c d. ltb (span_length d) (span_length c))
        (then_by (λ c d. ltb (flag d.semantic_boosted) (flag c.semantic_boosted))
          (then_by (λ c d. less d.semantic_score c.semantic_score)
            (then_by
              (λ c d.
                ltb (flag (d.expression_type == codes "idiom"))
                  (flag (c.expression_type == codes "idiom")))
              (λ c d. ltb (flag d.is_separable) (flag c.is_separable)))))

  unfoldable pub dedupe_overlaps : List (MweCandidate Score) → List (MweCandidate Score)
  dedupe_overlaps candidates = sort earlier (fold select [] (sort outranks candidates))

-- ===== src/MweIndex/Digest.antt =====
-- `_candidate_hash` of mwe_index_provider.py. `sha1` is the digest in hexadecimal, `decimal` the
-- `str` of an integer.
use vocabulary_micro.MweIndex.Records.{MweExpressionRecord, MweSenseRecord, SenseIndex, or_no_items}
use vocabulary_micro.Prelude.{
  ℕ, Option, List, [], ◌∷◌, ◌++◌, map, ltb, if◌then◌else◌, sort, nat_equality, list_equality,
  pair_equality,
}
use vocabulary_micro.Text.{Text, codes}
use vocabulary_micro.IndexProvider.{join_units}

-- `"|".join(xs)`
unfoldable pub join_bars : List Text → Text
join_bars [] = []
join_bars (x ∷ []) = x
join_bars (x ∷ y ∷ xs) = x ++ b'|' ∷ join_bars (y ∷ xs)

module _ (sha1 : Text → Text) (decimal : ℕ → Text) where
  unfoldable pub expression_chunk : MweExpressionRecord → Text
  expression_chunk e = join_bars (
      decimal e.expression_id
      ∷ e.canonical_form
      ∷ e.expression_type
      ∷ (if e.is_separable then codes "1" else codes "0")
      ∷ decimal e.max_gap_tokens
      ∷ [])

  unfoldable pub sense_chunk : MweSenseRecord → Text
  sense_chunk s = join_bars (
      decimal s.expression_id
      ∷ decimal s.sense_id
      ∷ s.sense_key
      ∷ s.usage_label
      ∷ s.gloss
      ∷ s.example
      ∷ [])

  abbrev pub sense_chunks : SenseIndex → List Text
  sense_chunks [] = []
  sense_chunks (x ∷ m) = map sense_chunk x.1 ++ sense_chunks m

  -- `_candidate_hash`; no revision counts as an empty one.
  unfoldable pub candidate_hash_of :
      List (ℕ × MweExpressionRecord) → SenseIndex → Text → Option Text → Text
  candidate_hash_of expressions senses name revision =
      let sorted_expressions =
        sort (λ a b. ltb a.expression_id b.expression_id) (map (λ x. x.1) expressions) in
      sha1 (
        join_units (
          name ∷ or_no_items revision ∷ map expression_chunk sorted_expressions
          ++ sense_chunks senses))

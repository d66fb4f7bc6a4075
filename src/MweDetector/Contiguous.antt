-- ===== src/MweDetector/Contiguous.antt =====
-- `_detect_contiguous` of mwe_detector.py: at every token, the expressions of every length that the
-- index has under the words, or under the lemmas, from there on.
pub mod Sound
use vocabulary_micro.Prelude.{
  ℕ, ◌+◌, ◌-◌, Bool, false, ◌&&◌, Option, none, some, List, [], ◌∷◌, ◌++◌, map, ltb, if◌then◌else◌,
  length, get_elem?, take, drop, any, fold, range, sort, ◌==◌, nat_equality, list_equality, lookup,
}
use vocabulary_micro.Text.{Text, codes, or_else}
use vocabulary_micro.TextProcessor.Forms.{unique}
use vocabulary_micro.MweDetector.{MweToken, MweExpression, MweCandidate, build_candidate}

-- `dict[tuple[str, …], tuple[int, …]]`
abbrev pub ContiguousIndex : Type 0
ContiguousIndex = List (List Text × List ℕ)

-- `sorted(set(xs))`
unfoldable pub sorted_ids : List ℕ → List ℕ
sorted_ids xs = sort ltb (unique xs)

-- The lengths of the keys, longest first.
unfoldable pub key_lengths : ContiguousIndex → List ℕ
key_lengths index = sort (λ a b. ltb b a) (unique (map (λ entry. length entry.0) index))

unfoldable pub lemma_of : MweToken → Text
lemma_of t = or_else t.lemma t.lower_text

-- `index.get(key, ())`
unfoldable pub ids_at : ContiguousIndex → List Text → List ℕ
ids_at index key = elim (lookup index key) [ some ids ↦ ids | none ↦ [] ]

unfoldable pub matching_ids : ContiguousIndex → List MweToken → List ℕ
matching_ids index span =
    let key = map (λ t. t.lower_text) span in
    let lemma_key = map lemma_of span in
    sorted_ids
      (if lemma_key == key then ids_at index key else ids_at index key ++ ids_at index lemma_key)

module _ {Score : Type 0} where
  -- `marker` of the two candidates is the same.
  unfoldable pub same_marker : MweCandidate Score → MweCandidate Score → Bool
  same_marker c d =
      c.expression_id == d.expression_id
      && (c.token_start_index == d.token_start_index && c.token_end_index == d.token_end_index)

  -- The last lines of the loop's body; `used` holds the markers of `found`.
  unfoldable pub add_found :
      List (MweCandidate Score) → MweCandidate Score → List (MweCandidate Score)
  add_found found c = if any (same_marker c) found then found else found ++ c ∷ []

module _ {Score : Type 0} (less : Score → Score → Bool) (zero_score : Score) (text : Text)
    (tokens : List MweToken) (expressions : List (ℕ × MweExpression))
    (index : ContiguousIndex) where
  abbrev Found : Type 0
  Found = List (MweCandidate Score)

  -- The candidate of an expression on the tokens from `start` to `last`, which are in range.
  unfoldable pub contiguous_candidate : ℕ → ℕ → MweExpression → Option (MweCandidate Score)
  contiguous_candidate start last e = elim (get_elem? tokens start) [
    | some a ↦ elim (get_elem? tokens last) [
      | some b ↦ some (
          build_candidate less zero_score text a b start last e (codes "second_pass_spacy")
            zero_score false)
      | none ↦ none
    ]
    | none ↦ none
  ]

  -- The body of the loop over `expression_ids`.
  unfoldable pub contiguous_id : ℕ → ℕ → Found → ℕ → Found
  contiguous_id start last found id = elim (lookup expressions id) [
    | none ↦ found
    | some e ↦ elim (contiguous_candidate start last e) [
      | some c ↦ add_found found c
      | none ↦ found
    ]
  ]

  -- The body of the loop over `lengths`. No key is empty: one would read the token at -1.
  unfoldable pub contiguous_length : ℕ → Found → ℕ → Found
  contiguous_length start found n =
      if ltb (length tokens) (start + n)
      then found
      else fold (contiguous_id start (start + n - 1)) found
          (matching_ids index (take n (drop start tokens)))

  unfoldable pub contiguous_start : Found → ℕ → Found
  contiguous_start found start = fold (contiguous_length start) found (key_lengths index)

  unfoldable pub detect_contiguous : Found
  detect_contiguous = fold contiguous_start [] (range 0 (length tokens))

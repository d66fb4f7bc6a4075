-- ===== src/AssignmentScanner/Mask.antt =====
-- `_build_known_mask`.
pub mod Greedy
use vocabulary_micro.Prelude.{
  ℕ, zero, suc, ◌+◌, ◌-◌, max, min, Bool, true, false, ◌&&◌, ◌||◌, not, List, [], ◌∷◌, ◌++◌, Option,
  none, some, leb, ltb, ◌==◌, nat_equality, list_equality, if◌then◌else◌, length, take, drop,
  replicate, is_empty, contains,
}
use vocabulary_micro.Text.{Text, lower, strip, split_words}
use vocabulary_micro.AssignmentScanner.Matches.{Row, capped}

-- The set `terms`: the words of every row that has any.
unfoldable pub mask_terms : List Row → List (List Text)
mask_terms [] = []
mask_terms (row ∷ rows) =
    let rest = mask_terms rows in
    let parts = split_words (lower (strip row.normalized)) in
    if is_empty parts then rest else parts ∷ rest

unfoldable pub longest : List (List Text) → ℕ
longest [] = 1
longest (t ∷ ts) = max (length t) (longest ts)

-- The inner loop, `for size in range(max_size, 0, -1)`: the first size whose candidate is a term,
-- or 0.
unfoldable pub best_size : List (List Text) → ℕ → List Text → ℕ
best_size terms zero rest = 0
best_size terms (suc size) rest =
    let smaller = best_size terms size rest in
    if contains terms (take (suc size) rest) then suc size else smaller

-- The outer loop on the tokens from `index` on: what it writes into the mask there. `none` means
-- that the rounds ran out.
unfoldable pub mask_from : ℕ → List (List Text) → ℕ → List Text → Option (List Bool)
mask_from fuel terms max_length [] = some []
mask_from zero terms max_length (t ∷ ts) = none
mask_from (suc fuel) terms max_length (t ∷ ts) =
    let best = best_size terms (min max_length (length (t ∷ ts))) (t ∷ ts) in
    let on = mask_from fuel terms max_length (drop best (t ∷ ts)) in
    let past = mask_from fuel terms max_length ts in
    elim best [
      | zero ↦ elim past [ none ↦ none | some m ↦ some (false ∷ m) ]
      | suc n ↦ elim on [ none ↦ none | some m ↦ some (replicate (suc n) true ++ m) ]
    ]

-- A mask with `false` for every token.
abbrev pub blank_mask : List Text → List Bool
blank_mask [] = []
blank_mask (t ∷ ts) = false ∷ blank_mask ts

-- `_build_known_mask`, with a round for every token.
unfoldable pub build_known_mask : List Row → List Text → Option (List Bool)
unfolding mask_terms longest mask_from best_size
build_known_mask rows tokens =
    if is_empty tokens || is_empty rows
    then some (blank_mask tokens)
    else mask_from (length tokens) (mask_terms rows) (capped (longest (mask_terms rows))) tokens

-- ===== src/MweDetector/Particles.antt =====
-- `_find_particle_index` of mwe_detector.py: the children of the verb first, then a window.
pub mod Window
use vocabulary_micro.Prelude.{
  ℕ, zero, suc, ◌+◌, ◌-◌, min, max, Bool, false, ◌&&◌, ◌||◌, List, [], ◌∷◌, Option, none, some, leb,
  ◌==◌, nat_equality, list_equality, if◌then◌else◌, length, get_elem?, contains,
}
use vocabulary_micro.Text.{Text, codes, lower, upper, strip}
use vocabulary_micro.MweDetector.{MweToken}

-- The token reads as the particle.
unfoldable pub reads_as : List MweToken → Text → ℕ → Bool
reads_as tokens particle i = elim (get_elem? tokens i) [
  | some t ↦ t.lower_text == particle
  | none ↦ false
]

abbrev particle_deps : List Text
particle_deps = codes "prt" ∷ codes "compound:prt" ∷ codes "prep" ∷ codes "advmod" ∷ []

abbrev particle_tags : List Text
particle_tags = codes "PART" ∷ codes "ADP" ∷ codes "ADV" ∷ []

-- The token is tagged like a particle.
unfoldable pub is_tagged : List MweToken → ℕ → Bool
is_tagged tokens i = elim (get_elem? tokens i) [
  | some t ↦
      contains particle_deps (lower (strip t.dep)) || contains particle_tags (upper (strip t.pos))
  | none ↦ false
]

module _ (tokens : List MweToken) (token_index : ℕ) (particle : Text) (max_gap : ℕ) where
  -- The loop over `token.children_indices`.
  unfoldable pub among_children : List ℕ → Option ℕ
  among_children [] = none
  among_children (c ∷ cs) =
      let rest = among_children cs in
      if leb c token_index || leb (length tokens) c
      then rest
      else if reads_as tokens particle c && leb (c - token_index - 1) max_gap
      then some c
      else rest

module _ (tokens : List MweToken) (particle : Text) where
  -- The loop over `range(token_index + 1, max_end)`, of which `n` rounds are left.
  unfoldable pub in_window : ℕ → ℕ → Option ℕ
  in_window zero probe = none
  in_window (suc n) probe =
      let rest = in_window n (probe + 1) in
      if reads_as tokens particle probe && is_tagged tokens probe then some probe else rest

abbrev children_of : List MweToken → ℕ → List ℕ
children_of tokens i = elim (get_elem? tokens i) [ some t ↦ t.children_indices | none ↦ [] ]

-- `_find_particle_index`, for a `token_index` in range.
unfoldable pub find_particle_index : List MweToken → ℕ → Text → ℕ → Option ℕ
find_particle_index tokens token_index particle gap =
    let max_gap = max 1 gap in
    let max_end = min (length tokens) (token_index + max_gap + 2) in
    elim (among_children tokens token_index particle max_gap (children_of tokens token_index)) [
      | some i ↦ some i
      | none ↦ in_window tokens particle (max_end - (token_index + 1)) (token_index + 1)
    ]

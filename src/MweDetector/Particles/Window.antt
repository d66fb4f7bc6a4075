-- ===== src/MweDetector/Particles/Window.antt =====
-- Where `_find_particle_index` finds a particle.
use vocabulary_micro.Prelude.{
  ℕ, zero, suc, ◌+◌, ◌-◌, ◌≤◌, ◌<◌, min, max, ◌≡◌, inl, inr, true, false, ◌&&◌, ◌||◌, Option, none,
  some, List, [], ◌∷◌, arith, leb, if◌then◌else◌, leb→lt, Bool-cases, ℕ-cases, Option-cases,
  &&_true, ||_false, length, nat_equality, list_equality,
}
use vocabulary_micro.Text.{Text}
use vocabulary_micro.MweDetector.{MweToken}
use vocabulary_micro.MweDetector.Particles.{
  reads_as, is_tagged, among_children, in_window, find_particle_index, children_of,
}

-- A particle behind the token at `i`, with at most `gap` tokens between them.
pub record IsParticleAt (tokens : List MweToken) (i : ℕ) (particle : Text) (gap j : ℕ)
    : Type 0 where
  pub behind : i < j
  pub inside : j < length tokens
  pub near : j ≤ i + gap + 1
  pub reads : reads_as tokens particle j ≡ true

module _ (tokens : List MweToken) (i : ℕ) (particle : Text) (gap : ℕ) where
  child_found :
      (c : ℕ) (rest : Option ℕ) (j : ℕ)
      → ((k : ℕ) → rest ≡ some k → IsParticleAt tokens i particle gap k)
      → (leb c i ≡ false) × (leb (length tokens) c ≡ false)
      → (if reads_as tokens particle c && leb (c - i - 1) gap then some c else rest) ≡ some j
      → IsParticleAt tokens i particle gap j
  child_found c rest j next k h =
      elim (Bool-cases (reads_as tokens particle c && leb (c - i - 1) gap)) [
        | inl e ↦
            let here : some c ≡ some j = rw e at h in
            let same : c ≡ j = ground (arith, here) in
            let both = &&_true (reads_as tokens particle c) (leb (c - i - 1) gap) e in
            let found : IsParticleAt tokens i particle gap c = record {
              behind = leb→lt c i k.0;
              inside = ground (arith, k.1);
              near = ground (arith, both.1);
              reads = both.0;
            } in
            rw same at found
        | inr e ↦ next j (rw e at h)
      ]

  among_children_lem :
      (cs : List ℕ) (j : ℕ)
      → among_children tokens i particle gap cs ≡ some j
      → IsParticleAt tokens i particle gap j
  unfolding among_children
  among_children_lem [] j h = ground arith
  among_children_lem (c ∷ cs) j h =
      let next = among_children_lem cs in
      elim (Bool-cases (leb c i || leb (length tokens) c)) [
        | inl e ↦ next j (rw e at h)
        | inr e ↦
            child_found c (among_children tokens i particle gap cs) j next
              (||_false (leb c i) (leb (length tokens) c) e) (rw e at h)
      ]

module _ (tokens : List MweToken) (particle : Text) where
  in_window_lem :
      (n probe j : ℕ)
      → in_window tokens particle n probe ≡ some j
      → (probe ≤ j) × (j < probe + n) × (reads_as tokens particle j ≡ true)
  unfolding in_window
  in_window_lem zero probe j h = ground arith
  in_window_lem (suc n) probe j h = ground (arith, in_window_lem n (probe + 1) j)

  -- A particle that no round finds has another tag.
  in_window_complete :
      (n probe j : ℕ)
      → in_window tokens particle n probe ≡ none
      → probe ≤ j
      → j < probe + n
      → (reads_as tokens particle j && is_tagged tokens j) ≡ false
  unfolding in_window
  in_window_complete zero probe j h k l = absurd (omega arith)
  in_window_complete (suc n) probe j h k l = elim (ℕ-cases probe j) [
    | inl e ↦ ground arith
    | inr e ↦ ground (arith, in_window_complete n (probe + 1) j)
  ]

-- What `_find_particle_index` finds is a particle behind the verb, in range and near enough.
pub find_particle_index_lem :
    (tokens : List MweToken) (i : ℕ) (particle : Text) (gap j : ℕ)
    → find_particle_index tokens i particle gap ≡ some j
    → IsParticleAt tokens i particle (max 1 gap) j
unfolding find_particle_index
find_particle_index_lem tokens i particle gap j h =
    let children = among_children tokens i particle (max 1 gap) (children_of tokens i) in
    let first = i + 1 in
    let count = min (length tokens) (i + max 1 gap + 2) - first in
    elim (Option-cases children) [
      | inl e ↦
          let k = in_window_lem tokens particle count first j (rw (e, find_particle_index) at h) in
          record {
            behind = omega (arith, k.0);
            inside = omega (arith, k.0, k.1);
            near = omega (arith, k.0, k.1);
            reads = k.2;
          }
      | inr (c, e) ↦
          let here : some c ≡ some j = rw (e, find_particle_index) at h in
          let same : c ≡ j = ground (arith, here) in
          rw same at (among_children_lem tokens i particle (max 1 gap) (children_of tokens i) c e)
    ]

-- Where it finds none, no token behind the verb, in range and with at most the allowed number of
-- tokens between them, reads as the particle and is tagged like one.
find_particle_index_complete :
    (tokens : List MweToken) (i : ℕ) (particle : Text) (gap j : ℕ)
    → find_particle_index tokens i particle gap ≡ none
    → i < j
    → j < length tokens
    → j ≤ i + max 1 gap + 1
    → (reads_as tokens particle j && is_tagged tokens j) ≡ false
unfolding find_particle_index
find_particle_index_complete tokens i particle gap j h k l m =
    let children = among_children tokens i particle (max 1 gap) (children_of tokens i) in
    let first = i + 1 in
    let count = min (length tokens) (i + max 1 gap + 2) - first in
    elim (Option-cases children) [
      | inl e ↦
          in_window_complete tokens particle count first j (rw (e, find_particle_index) at h)
            (omega arith) (omega arith)
      | inr (c, e) ↦
          let found : some c ≡ none = rw (e, find_particle_index) at h in
          absurd (ground (arith, found))
    ]

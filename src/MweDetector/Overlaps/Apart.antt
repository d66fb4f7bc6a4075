-- ===== src/MweDetector/Overlaps/Apart.antt =====
-- The tokens of the candidates that `_dedupe_overlaps` keeps.
use vocabulary_micro.Prelude.{
  ◌<◌, ◌≡◌, ◌⊎◌, inl, inr, Bool, false, List, [], ◌∷◌, ◌++◌, arith, ltb, ltb→lt, Bool-cases,
  ||_false, any, All, All-append, All-unit, fold, fold-invariant, insert_sorted, sort,
  All-insert_sorted, All-sort, nat_equality, list_equality, pair_equality,
}
use vocabulary_micro.MweDetector.{MweCandidate}
use vocabulary_micro.MweDetector.Overlaps.{intersects, select, earlier, outranks, dedupe_overlaps}

module _ {Score : Type 0} where
  -- One candidate ends before the other starts.
  abbrev AreApart : MweCandidate Score → MweCandidate Score → Type 0
  AreApart c d =
      (c.token_end_index < d.token_start_index) ⊎ (d.token_end_index < c.token_start_index)

  -- Every two of the candidates have no token in common.
  abbrev pub Disjoint : List (MweCandidate Score) → Type 0
  Disjoint [] = Unit
  Disjoint (c ∷ cs) = All (AreApart c) cs × Disjoint cs

  AreApart-sym : (c d : MweCandidate Score) → AreApart c d → AreApart d c
  AreApart-sym c d (inl h) = inr h
  AreApart-sym c d (inr h) = inl h

  intersects-AreApart : (c d : MweCandidate Score) → intersects c d ≡ false → AreApart d c
  unfolding intersects
  intersects-AreApart c d h = elim (Bool-cases (ltb c.token_end_index d.token_start_index)) [
    | inl e ↦ inr (ltb→lt c.token_end_index d.token_start_index e)
    | inr e ↦ inl (ground (arith, h, e))
  ]

  All-AreApart :
      (c : MweCandidate Score) (cs : List (MweCandidate Score))
      → any (intersects c) cs ≡ false
      → All (λ d. AreApart d c) cs
  All-AreApart c [] h = tt
  All-AreApart c (d ∷ ds) h =
      let both = ||_false (intersects c d) (any (intersects c) ds) h in
      (intersects-AreApart c d both.0, All-AreApart c ds both.1)

  Disjoint-append :
      (cs : List (MweCandidate Score)) (c : MweCandidate Score)
      → Disjoint cs
      → All (λ d. AreApart d c) cs
      → Disjoint (cs ++ c ∷ [])
  Disjoint-append [] c h k = (tt, tt)
  Disjoint-append (d ∷ ds) c h k =
      (All-append (AreApart d) ds (c ∷ []) h.0 (k.0, tt), Disjoint-append ds c h.1 k.1)

  select-Disjoint :
      (cs : List (MweCandidate Score)) (c : MweCandidate Score)
      → Disjoint cs
      → Disjoint (select cs c)
  unfolding select
  select-Disjoint cs c h = elim (Bool-cases (any (intersects c) cs)) [
    | inl e ↦ rw e h
    | inr e ↦ rw e (Disjoint-append cs c h (All-AreApart c cs e))
  ]

  module _ (before : MweCandidate Score → MweCandidate Score → Bool) where
    insert_sorted-Disjoint :
        (c : MweCandidate Score) (cs : List (MweCandidate Score))
        → All (AreApart c) cs
        → Disjoint cs
        → Disjoint (insert_sorted before c cs)
    unfolding insert_sorted
    insert_sorted-Disjoint c [] h k = (tt, tt)
    insert_sorted-Disjoint c (d ∷ ds) h k = elim (Bool-cases (before d c)) [
      | inl b ↦ rw b (
        All-insert_sorted before (AreApart d) c ds (AreApart-sym c d h.0) k.0,
        insert_sorted-Disjoint c ds h.1 k.1,
      )
      | inr b ↦ rw b (h, k)
    ]

    sort-Disjoint : (cs : List (MweCandidate Score)) → Disjoint cs → Disjoint (sort before cs)
    unfolding sort
    sort-Disjoint [] h = tt
    sort-Disjoint (c ∷ cs) h =
        insert_sorted-Disjoint c (sort before cs) (All-sort before (AreApart c) cs h.0)
          (sort-Disjoint cs h.1)

  -- The chosen candidates have no token in common.
  pub dedupe_overlaps-Disjoint :
      (less : Score → Score → Bool) (cs : List (MweCandidate Score))
      → Disjoint (dedupe_overlaps less cs)
  unfolding dedupe_overlaps
  dedupe_overlaps-Disjoint less cs =
      sort-Disjoint earlier (fold select [] (sort (outranks less) cs)) (
        fold-invariant select Disjoint (λ c. Unit) (λ ds c u h. select-Disjoint ds c h)
          (sort (outranks less) cs) (All-unit (sort (outranks less) cs)) [] tt)

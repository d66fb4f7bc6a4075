-- ===== src/MweDetector/Overlaps/Choice.antt =====
-- Which candidates `_dedupe_overlaps` keeps, and in which order.
use vocabulary_micro.Prelude.{
  ◌≤◌, ◌≡◌, ◌∙◌, inl, inr, Bool, true, false, ◌&&◌, not, List, [], ◌∷◌, arith, Bool-cases, any, All,
  All-append, All-map, fold, fold-invariant, any-append, IsWeakOrder, sort, IsSorted, any-sort,
  All-sort, All-of_sort, sort-IsSorted, then_by-IsWeakOrder, descending-IsWeakOrder,
  ascending-IsWeakOrder, by_key-IsWeakOrder, ◌==◌, nat_equality, list_equality, pair_equality,
}
use vocabulary_micro.MweDetector.{MweCandidate}
use vocabulary_micro.MweDetector.Overlaps.{
  intersects, select, earlier, outranks, dedupe_overlaps, span_length, flag,
}
use vocabulary_micro.Text.{codes}

module _ {Score : Type 0} where
  -- The interval has a token.
  abbrev pub IsInterval : MweCandidate Score → Type 0
  IsInterval c = c.token_start_index ≤ c.token_end_index

  module _ (before : MweCandidate Score → MweCandidate Score → Bool) where
    -- A chosen candidate that shares a token with `c` and that `c` does not outrank.
    unfoldable pub beats : MweCandidate Score → MweCandidate Score → Bool
    beats c d = intersects c d && not (before c d)

    any-select :
        (p : MweCandidate Score → Bool) (c : MweCandidate Score) (cs : List (MweCandidate Score))
        → any p cs ≡ true
        → any p (select cs c) ≡ true
    unfolding select
    any-select p c cs h = ground (arith, any-append p cs (c ∷ []))

    any-fold :
        (p : MweCandidate Score → Bool) (xs cs : List (MweCandidate Score))
        → any p cs ≡ true
        → any p (fold select cs xs) ≡ true
    unfolding fold
    any-fold p [] cs h = h
    any-fold p (x ∷ xs) cs h = any-fold p xs (select cs x) (any-select p x cs h)

    -- No candidate that is left outranks a chosen one.
    abbrev Ahead : List (MweCandidate Score) → List (MweCandidate Score) → Type 0
    Ahead xs cs = All (λ c. All (λ x. before x c ≡ false) xs) cs

    Ahead-tail :
        (x : MweCandidate Score) (xs cs : List (MweCandidate Score))
        → Ahead (x ∷ xs) cs
        → Ahead xs cs
    Ahead-tail x xs cs = All-map (λ c h. h.1) cs

    Ahead-head :
        (x : MweCandidate Score) (xs cs : List (MweCandidate Score))
        → Ahead (x ∷ xs) cs
        → All (λ c. before x c ≡ false) cs
    Ahead-head x xs cs = All-map (λ c h. h.0) cs

    any-beats :
        (c : MweCandidate Score) (cs : List (MweCandidate Score))
        → All (λ d. before c d ≡ false) cs
        → any (intersects c) cs ≡ true
        → any (beats c) cs ≡ true
    unfolding beats
    any-beats c [] h k = ground arith
    any-beats c (d ∷ ds) h k = ground (arith, h.0, any-beats c ds h.1)

    module _ (order : IsWeakOrder before) where
      beats_self : (c : MweCandidate Score) → IsInterval c → beats c c ≡ true
      unfolding beats intersects
      beats_self c h = ground (arith, order.asymmetric c c)

      select-beats :
          (x : MweCandidate Score) (cs : List (MweCandidate Score))
          → IsInterval x
          → All (λ c. before x c ≡ false) cs
          → any (beats x) (select cs x) ≡ true
      unfolding select
      select-beats x cs i h = elim (Bool-cases (any (intersects x) cs)) [
        | inl e ↦ rw e (any-beats x cs h e)
        | inr e ↦ rw e (ground (arith, any-append (beats x) cs (x ∷ []), beats_self x i))
      ]

      select-Ahead :
          (x : MweCandidate Score) (xs cs : List (MweCandidate Score))
          → All (λ y. before y x ≡ false) xs
          → Ahead xs cs
          → Ahead xs (select cs x)
      unfolding select
      select-Ahead x xs cs k h = elim (Bool-cases (any (intersects x) cs)) [
        | inl e ↦ rw e h
        | inr e ↦ rw e (All-append (λ c. All (λ y. before y c ≡ false) xs) cs (x ∷ []) h (k, tt))
      ]

      -- Along a sorted list every candidate is beaten by a chosen one.
      fold-beats :
          (xs cs : List (MweCandidate Score))
          → IsSorted before xs
          → All IsInterval xs
          → Ahead xs cs
          → All (λ x. any (beats x) (fold select cs xs) ≡ true) xs
      unfolding fold
      fold-beats [] cs s i h = tt
      fold-beats (x ∷ xs) cs s i h = (
        any-fold (beats x) xs (select cs x) (select-beats x cs i.0 (Ahead-head x xs cs h)),
        fold-beats xs (select cs x) s.1 i.1 (select-Ahead x xs cs s.0 (Ahead-tail x xs cs h)),
      )

  module _ (less : Score → Score → Bool) (order : IsWeakOrder less) where
    flip-IsWeakOrder : IsWeakOrder (λ a b. less b a)
    flip-IsWeakOrder = record {
      asymmetric = λ a b. order.asymmetric b a;
      negative = λ a b c h k. order.negative c b a k h;
    }

    outranks-IsWeakOrder : IsWeakOrder (outranks less)
    unfolding outranks
    outranks-IsWeakOrder = then_by-IsWeakOrder (descending-IsWeakOrder span_length) (
        then_by-IsWeakOrder (descending-IsWeakOrder (λ c. flag c.semantic_boosted)) (
          then_by-IsWeakOrder
            (by_key-IsWeakOrder (λ a b. less b a) (λ c. c.semantic_score) flip-IsWeakOrder)
            (then_by-IsWeakOrder
              (descending-IsWeakOrder (λ c. flag (c.expression_type == codes "idiom")))
              (descending-IsWeakOrder (λ c. flag c.is_separable)))))

    -- Every candidate shares a token with a chosen one that it does not outrank.
    pub dedupe_overlaps-beats :
        (cs : List (MweCandidate Score))
        → All IsInterval cs
        → All (λ c. any (beats (outranks less) c) (dedupe_overlaps less cs) ≡ true) cs
    unfolding dedupe_overlaps
    dedupe_overlaps-beats cs i =
        let ranked = sort (outranks less) cs in
        let chosen = fold select [] ranked in
        All-map (λ c h. any-sort earlier (beats (outranks less) c) chosen ∙ h) cs
          (All-of_sort (outranks less) _ cs (
            fold-beats (outranks less) outranks-IsWeakOrder ranked []
              (sort-IsSorted (outranks less) outranks-IsWeakOrder cs)
              (All-sort (outranks less) IsInterval cs i) tt))

  select-All {κ} :
      (P : MweCandidate Score → Type κ) (cs : List (MweCandidate Score)) (c : MweCandidate Score)
      → P c
      → All P cs
      → All P (select cs c)
  unfolding select
  select-All P cs c p h = elim (Bool-cases (any (intersects c) cs)) [
    | inl e ↦ rw e h
    | inr e ↦ rw e (All-append P cs (c ∷ []) h (p, tt))
  ]

  -- The chosen candidates are among those given.
  pub All-dedupe_overlaps {κ} :
      (P : MweCandidate Score → Type κ) (less : Score → Score → Bool)
      (cs : List (MweCandidate Score))
      → All P cs
      → All P (dedupe_overlaps less cs)
  unfolding dedupe_overlaps
  All-dedupe_overlaps P less cs h = All-sort earlier P (fold select [] (sort (outranks less) cs)) (
      fold-invariant select (All P) P (λ ds c p k. select-All P ds c p k) (sort (outranks less) cs)
        (All-sort (outranks less) P cs h) [] tt)

  earlier-IsWeakOrder : IsWeakOrder (earlier {Score = Score})
  unfolding earlier
  earlier-IsWeakOrder =
      then_by-IsWeakOrder (ascending-IsWeakOrder (λ c. c.span_start))
        (ascending-IsWeakOrder (λ c. c.span_end))

  -- The chosen candidates stand in the order of the text.
  pub dedupe_overlaps-IsSorted :
      (less : Score → Score → Bool) (cs : List (MweCandidate Score))
      → IsSorted earlier (dedupe_overlaps less cs)
  unfolding dedupe_overlaps
  dedupe_overlaps-IsSorted less cs = sort-IsSorted earlier earlier-IsWeakOrder _

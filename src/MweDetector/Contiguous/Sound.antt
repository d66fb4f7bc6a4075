-- ===== src/MweDetector/Contiguous/Sound.antt =====
-- What `_detect_contiguous` finds.
use vocabulary_micro.Prelude.{
  ℕ, ◌+◌, ◌-◌, ◌≤◌, ◌≡◌, refl, sym, ap, inl, inr, Bool, true, false, none, some, some-injective,
  List, [], ◌∷◌, ◌++◌, arith, ltb, ltb→le, Bool-cases, Option-cases, ||_false, length, get_elem?,
  take, drop, any, All, All-append, All-unit, fold-invariant, range, any-append, nat_equality,
  list_equality, beq_refl, contains, lookup,
}
use vocabulary_micro.Text.{Text, codes}
use vocabulary_micro.MweDetector.{MweToken, MweExpression, MweCandidate, build_candidate}
use vocabulary_micro.MweDetector.Contiguous.{
  ContiguousIndex, matching_ids, same_marker, add_found, contiguous_candidate, contiguous_id,
  contiguous_length, contiguous_start, detect_contiguous, key_lengths,
}

-- The candidate stands in the text, and its expression is one of the index for the words or the
-- lemmas of its tokens.
pub record IsOccurrence {Score : Type 0} (tokens : List MweToken)
    (expressions : List (ℕ × MweExpression)) (index : ContiguousIndex) (c : MweCandidate Score)
    : Type 0 where
  pub start : ℕ
  pub size : ℕ
  pub id : ℕ
  pub expression : MweExpression
  pub starts : c.token_start_index ≡ start
  pub ends : c.token_end_index ≡ start + size - 1
  pub inside : start + size ≤ length tokens
  pub known : lookup expressions id ≡ some expression
  pub form : c.canonical_form ≡ expression.canonical_form
  pub indexed : contains (matching_ids index (take size (drop start tokens))) id ≡ true

module _ {Score : Type 0} where
  -- No two candidates have the same expression on the same tokens.
  abbrev pub Once : List (MweCandidate Score) → Type 0
  Once [] = Unit
  Once (c ∷ cs) = (any (same_marker c) cs ≡ false) × Once cs

  same_marker-sym : (c d : MweCandidate Score) → same_marker c d ≡ false → same_marker d c ≡ false
  unfolding same_marker
  same_marker-sym c d h = ground arith

  Once-append :
      (cs : List (MweCandidate Score)) (c : MweCandidate Score)
      → Once cs
      → any (same_marker c) cs ≡ false
      → Once (cs ++ c ∷ [])
  Once-append [] c h k = (refl, tt)
  Once-append (d ∷ ds) c h k =
      let both = ||_false (same_marker c d) (any (same_marker c) ds) k in
      (
        ground (arith, any-append (same_marker d) ds (c ∷ []), h.0, same_marker-sym c d both.0),
        Once-append ds c h.1 both.1,
      )

  pub add_found-keeps {κ} :
      (P : MweCandidate Score → Type κ) (cs : List (MweCandidate Score)) (c : MweCandidate Score)
      → P c
      → All P cs × Once cs
      → All P (add_found cs c) × Once (add_found cs c)
  unfolding add_found
  add_found-keeps P cs c p h = elim (Bool-cases (any (same_marker c) cs)) [
    | inl e ↦ rw e h
    | inr e ↦ rw e (All-append P cs (c ∷ []) h.0 (p, tt), Once-append cs c h.1 e)
  ]

All-contains_in :
    (zs xs : List ℕ)
    → ((a : ℕ) → contains xs a ≡ true → contains zs a ≡ true)
    → All (λ x. contains zs x ≡ true) xs
unfolding contains
All-contains_in zs [] h = tt
All-contains_in zs (x ∷ xs) h =
    (h x (ground (arith, beq_refl x)), All-contains_in zs xs (λ a k. h a (ground (arith, k))))

pub All-contains : (xs : List ℕ) → All (λ x. contains xs x ≡ true) xs
All-contains xs = All-contains_in xs xs (λ a h. h)

module _ {Score : Type 0} (less : Score → Score → Bool) (zero_score : Score) (text : Text)
    (tokens : List MweToken) (expressions : List (ℕ × MweExpression))
    (index : ContiguousIndex) where
  abbrev Kept : List (MweCandidate Score) → Type 0
  Kept found = All (IsOccurrence tokens expressions index) found × Once found

  contiguous_candidate_lem :
      (start last : ℕ) (e : MweExpression) (c : MweCandidate Score)
      → contiguous_candidate less zero_score text tokens expressions index start last e ≡ some c
      → (c.token_start_index ≡ start)
        × (c.token_end_index ≡ last)
        × (c.canonical_form ≡ e.canonical_form)
  unfolding contiguous_candidate build_candidate
  contiguous_candidate_lem start last e c h = elim (Option-cases (get_elem? tokens start)) [
    | inl f ↦
        let k : none ≡ some c = rw (f, contiguous_candidate) at h in absurd (ground (arith, k))
    | inr (a, f) ↦ elim (Option-cases (get_elem? tokens last)) [
      | inl g ↦
          let k : none ≡ some c = rw (f, g, contiguous_candidate) at h in absurd (ground (arith, k))
      | inr (b, g) ↦
          let k : some (
                build_candidate less zero_score text a b start last e (codes "second_pass_spacy")
                  zero_score false)
              ≡ some c =
            rw (f, g, contiguous_candidate) at h in
          let same = some-injective _ _ k in
          (
            ap (λ c. c.token_start_index) (sym same),
            ap (λ c. c.token_end_index) (sym same),
            ap (λ c. c.canonical_form) (sym same),
          )
    ]
  ]

  candidate-IsOccurrence :
      (start size id : ℕ) (e : MweExpression) (c : MweCandidate Score)
      → start + size ≤ length tokens
      → lookup expressions id ≡ some e
      → contains (matching_ids index (take size (drop start tokens))) id ≡ true
      → contiguous_candidate less zero_score text tokens expressions index start
          (start + size - 1)
          e
        ≡ some c
      → IsOccurrence tokens expressions index c
  candidate-IsOccurrence start size id e c h k l f =
      let fields = contiguous_candidate_lem start (start + size - 1) e c f in
      record {
        start = start;
        size = size;
        id = id;
        expression = e;
        starts = fields.0;
        ends = fields.1;
        inside = h;
        known = k;
        form = fields.2;
        indexed = l;
      }

  contiguous_id-Kept :
      (start size : ℕ) (found : List (MweCandidate Score)) (id : ℕ)
      → start + size ≤ length tokens
      → contains (matching_ids index (take size (drop start tokens))) id ≡ true
      → Kept found
      → Kept (
          contiguous_id less zero_score text tokens expressions index start
            (start + size - 1)
            found
            id)
  unfolding contiguous_id
  contiguous_id-Kept start size found id h l k = elim (Option-cases (lookup expressions id)) [
    | inl e ↦ rw (e, contiguous_id) k
    | inr (x, e) ↦
        rw (e, contiguous_id)
          (elim (Option-cases (
            contiguous_candidate less zero_score text tokens expressions index start
              (start + size - 1) x)) [
                | inl f ↦ rw f k
                | inr (c, f) ↦ rw f (
                    add_found-keeps (IsOccurrence tokens expressions index) found c
                      (candidate-IsOccurrence start size id x c h e l f) k)
              ])
  ]

  contiguous_length-Kept :
      (start : ℕ) (found : List (MweCandidate Score)) (n : ℕ)
      → Kept found
      → Kept (contiguous_length less zero_score text tokens expressions index start found n)
  unfolding contiguous_length
  contiguous_length-Kept start found n k = elim (Bool-cases (ltb (length tokens) (start + n))) [
    | inl e ↦ rw e k
    | inr e ↦
        let h = ltb→le (length tokens) (start + n) e in
        let ids = matching_ids index (take n (drop start tokens)) in
        rw e (
          fold-invariant
            (contiguous_id less zero_score text tokens expressions index start (start + n - 1)) Kept
            (λ id. contains ids id ≡ true)
            (λ found id l k. contiguous_id-Kept start n found id h l k) ids (All-contains ids) found
            k)
  ]

  -- Every candidate of the pass is an occurrence, and none is there twice.
  pub detect_contiguous_lem : Kept (detect_contiguous less zero_score text tokens expressions index)
  unfolding detect_contiguous contiguous_start
  detect_contiguous_lem =
      fold-invariant (contiguous_start less zero_score text tokens expressions index) Kept
        (λ i. Unit)
        (λ found start u k.
          fold-invariant (contiguous_length less zero_score text tokens expressions index start)
            Kept (λ n. Unit) (λ found n u k. contiguous_length-Kept start found n k)
            (key_lengths index) (All-unit (key_lengths index)) found k)
        (range 0 (length tokens)) (All-unit (range 0 (length tokens))) [] (tt, tt)

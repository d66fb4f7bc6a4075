-- ===== src/AssignmentScanner/Mask/Greedy.antt =====
-- The mask of `_build_known_mask` against the greedy cover of the tokens by the longest terms.
use vocabulary_micro.Prelude.{
  ℕ, zero, suc, ◌+◌, ◌≤◌, ◌<◌, min, ◌≡◌, refl, ap, ◌∙◌, inl, inr, Bool, true, false, ◌||◌, not,
  some, List, [], ◌∷◌, ◌++◌, arith, Bool-cases, ℕ-cases, length, take, drop, replicate,
  length-append, nat_equality, list_equality, pair_equality, contains,
}
use vocabulary_micro.Text.{Text}
use vocabulary_micro.AssignmentScanner.Matches.{Row, capped}
use vocabulary_micro.AssignmentScanner.Mask.{
  best_size, mask_from, build_known_mask, mask_terms, longest, blank_mask,
}

module _ (terms : List (List Text)) where
  -- `k` is the greatest size up to `n` at which the first tokens of `rest` are a term; 0 if none.
  pub record IsLongest (n : ℕ) (rest : List Text) (k : ℕ) : Type 0 where
    pub within : k ≤ n
    pub hit : 0 < k → contains terms (take k rest) ≡ true
    pub beyond : (size : ℕ) → k < size → size ≤ n → contains terms (take size rest) ≡ false

  best_size-IsLongest : (n : ℕ) (rest : List Text) → IsLongest n rest (best_size terms n rest)
  unfolding best_size
  best_size-IsLongest zero rest = record {
    within = omega arith;
    hit = λ h. absurd (omega arith);
    beyond = λ size h k. absurd (omega arith);
  }
  best_size-IsLongest (suc n) rest = elim (Bool-cases (contains terms (take (suc n) rest))) [
    | inl h ↦
        rw h
          (record { within = omega arith; hit = λ _. h; beyond = λ size a b. absurd (omega arith) })
    | inr h ↦ rw h (widen h (best_size-IsLongest n rest))
  ]
    where
      widen :
          contains terms (take (suc n) rest) ≡ false
          → {k : ℕ} → IsLongest n rest k
          → IsLongest (suc n) rest k
      widen h {k} l = record {
        within = omega (arith, l.within);
        hit = l.hit;
        beyond = λ size a b. elim (ℕ-cases size (suc n)) [
          | inl e ↦ rw e h
          | inr e ↦ l.beyond size a (omega arith)
        ];
      }

  -- The cover of the tokens that the mask shows: a token that starts no term is unknown, and the
  -- tokens of the longest term that starts at one are known, and passed together.
  pub data Greedy (max_length : ℕ) : List Text → List Bool → Type 0 where
    done : Greedy max_length [] []
    unknown :
        (t : Text) (ts : List Text) (m : List Bool)
        → IsLongest (min max_length (length (t ∷ ts))) (t ∷ ts) 0
        → Greedy max_length ts m
        → Greedy max_length (t ∷ ts) (false ∷ m)
    known :
        (ts : List Text) (k : ℕ) (m r : List Bool)
        → 0 < k
        → IsLongest (min max_length (length ts)) ts k
        → Greedy max_length (drop k ts) m
        → r ≡ replicate k true ++ m
        → Greedy max_length ts r

  module _ (max_length : ℕ) where
    length-drop-le : (n : ℕ) (ts : List Text) → length (drop n ts) + min n (length ts) ≡ length ts
    length-drop-le zero ts = omega arith
    length-drop-le (suc n) [] = omega arith
    length-drop-le (suc n) (t ∷ ts) = omega (arith, length-drop-le n ts)

    mask_past :
        (fuel : ℕ) (t : Text) (ts : List Text) (m : List Bool)
        → best_size terms (min max_length (length (t ∷ ts))) (t ∷ ts) ≡ 0
        → mask_from fuel terms max_length ts ≡ some m
        → mask_from (suc fuel) terms max_length (t ∷ ts) ≡ some (false ∷ m)
    unfolding mask_from
    mask_past fuel t ts m e f = rw (e, mask_from) (rw (f, mask_from))

    mask_on :
        (fuel : ℕ) (t : Text) (ts : List Text) (k : ℕ) (m : List Bool)
        → best_size terms (min max_length (length (t ∷ ts))) (t ∷ ts) ≡ suc k
        → mask_from fuel terms max_length (drop (suc k) (t ∷ ts)) ≡ some m
        → mask_from (suc fuel) terms max_length (t ∷ ts) ≡ some (replicate (suc k) true ++ m)
    unfolding mask_from
    mask_on fuel t ts k m e f =
        rw (e, mask_from)
          (rw (ap (λ j. mask_from fuel terms max_length (drop j (t ∷ ts))) e ∙ f, mask_from))

    -- A round for every token is enough, and the mask is the greedy cover.
    mask_from-Greedy :
        (fuel : ℕ) (ts : List Text)
        → length ts ≤ fuel
        → (m : List Bool) × (mask_from fuel terms max_length ts ≡ some m) × Greedy max_length ts m
    mask_from-Greedy fuel [] h = ([], unfold mask_from in by_fuel fuel, done)
      where
        by_fuel : (n : ℕ) → mask_from n terms max_length [] ≡ some []
        by_fuel zero = unfold mask_from in refl
        by_fuel (suc n) = unfold mask_from in refl
    mask_from-Greedy zero (t ∷ ts) h = absurd (omega arith)
    mask_from-Greedy (suc fuel) (t ∷ ts) h =
        by_best (best_size terms n (t ∷ ts)) refl (best_size-IsLongest n (t ∷ ts))
          (mask_from-Greedy fuel ts (omega arith))
          (λ k. mask_from-Greedy fuel (drop k ts) (omega (arith, h, length-drop-le k ts)))
      where
        n : ℕ
        n = min max_length (length (t ∷ ts))

        Result : List Text → Type 0
        Result us =
            (m : List Bool) × (mask_from fuel terms max_length us ≡ some m) × Greedy max_length us m

        by_best :
            (k : ℕ)
            → best_size terms n (t ∷ ts) ≡ k
            → IsLongest n (t ∷ ts) (best_size terms n (t ∷ ts))
            → Result ts
            → ((k : ℕ) → Result (drop k ts))
            → (m : List Bool) × (mask_from (suc fuel) terms max_length (t ∷ ts) ≡ some m)
              × Greedy max_length (t ∷ ts) m
        by_best zero e l (m, f, g) on =
            (false ∷ m, mask_past fuel t ts m e f, unknown t ts m (rw e at l) g)
        by_best (suc k) e l past on =
            let (m, f, g) = on k in
            (
              replicate (suc k) true ++ m,
              mask_on fuel t ts k m e f,
              known (t ∷ ts) (suc k) m (replicate (suc k) true ++ m) (omega arith) (rw e at l) g
                  refl,
            )

    length-replicate : (n : ℕ) (b : Bool) → length (replicate n b) ≡ n
    length-replicate zero b = refl
    length-replicate (suc n) b = ap suc (length-replicate n b)

    -- A cover has a flag for every token.
    length-Greedy : {ts : List Text} {m : List Bool} → Greedy max_length ts m → length m ≡ length ts
    length-Greedy done = refl
    length-Greedy (unknown t ts m l g) = ap suc (length-Greedy g)
    length-Greedy (known ts k m r p l g e) = omega (
      arith,
      ap (length {A = Bool}) e,
      length-append (replicate k true) m,
      length-replicate k true,
      length-Greedy g,
      length-drop-le k ts,
      l.within,
    )

    -- Every token that is a term by itself is known.
    abbrev MarksSingles : List Text → List Bool → Type 0
    MarksSingles [] m = Unit
    MarksSingles (t ∷ ts) [] = ⊥
    MarksSingles (t ∷ ts) (b ∷ m) =
        ((not (contains terms (t ∷ [])) || b) ≡ true) × MarksSingles ts m

    marked_run :
        (k : ℕ) (ts : List Text) (m : List Bool)
        → MarksSingles (drop k ts) m
        → MarksSingles ts (replicate k true ++ m)
    marked_run zero ts m h = h
    marked_run (suc k) [] m h = tt
    marked_run (suc k) (t ∷ ts) m h = (ground arith, marked_run k ts m h)

    module _ (positive : 0 < max_length) where
      pub Greedy-MarksSingles :
          {ts : List Text} {m : List Bool} → Greedy max_length ts m → MarksSingles ts m
      Greedy-MarksSingles done = tt
      Greedy-MarksSingles (unknown t ts m l g) =
          (ground (arith, l.beyond 1 (omega arith) (omega arith)), Greedy-MarksSingles g)
      Greedy-MarksSingles (known ts k m r p l g e) =
          rw e (marked_run k ts m (Greedy-MarksSingles g))

blank-Greedy : (n : ℕ) (ts : List Text) → Greedy [] n ts (blank_mask ts)
blank-Greedy n [] = done
blank-Greedy n (t ∷ ts) =
    unknown t ts (blank_mask ts)
      (record {
        within = omega arith;
        hit = λ h. absurd (omega arith);
        beyond = λ size h k. unfold contains in refl;
      })
      (blank-Greedy n ts)

abbrev pub mask_limit : List Row → ℕ
mask_limit rows = capped (longest (mask_terms rows))

-- `_build_known_mask` ends, with a flag for every token: the greedy cover of the tokens by the
-- terms of the rows, of at most six words.
pub build_known_mask-Greedy :
    (rows : List Row) (tokens : List Text)
    → (m : List Bool) × (build_known_mask rows tokens ≡ some m)
      × Greedy (mask_terms rows) (mask_limit rows) tokens m
      × (length m ≡ length tokens)
unfolding build_known_mask
build_known_mask-Greedy rows [] = ([], refl, done, refl)
build_known_mask-Greedy [] (t ∷ ts) = (
  blank_mask (t ∷ ts),
  refl,
  blank-Greedy 1 (t ∷ ts),
  length-Greedy [] 1 (blank-Greedy 1 (t ∷ ts)),
)
build_known_mask-Greedy (row ∷ rows) (t ∷ ts) =
    let terms = mask_terms (row ∷ rows) in
    let n = mask_limit (row ∷ rows) in
    let (m, e, g) = mask_from-Greedy terms n (length (t ∷ ts)) (t ∷ ts) (omega arith) in
    (m, e, g, length-Greedy terms n g)

-- Every token that a row spells by itself is marked as known.
build_known_mask-MarksSingles :
    (rows : List Row) (tokens : List Text) (m : List Bool)
    → build_known_mask rows tokens ≡ some m
    → MarksSingles (mask_terms rows) (mask_limit rows) tokens m
build_known_mask-MarksSingles rows tokens m e =
    let (m', e', g, l) = build_known_mask-Greedy rows tokens in
    let same : m' ≡ m = cc in
    rw same at (Greedy-MarksSingles (mask_terms rows) (mask_limit rows) (omega arith) g)

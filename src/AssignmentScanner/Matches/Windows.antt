-- ===== src/AssignmentScanner/Matches/Windows.antt =====
-- What the counters of `_build_ngram_counters` count.
use vocabulary_micro.Prelude.{
  zero, suc, ◌+◌, ◌-◌, ap, ◌∙◌, leb, take, drop, range, ℕ, ◌<◌, ◌≡◌, refl, sym, inl, inr, Bool,
  ◌&&◌, List, [], ◌∷◌, arith, ◌==◌, nat_equality, list_equality, if◌then◌else◌, Bool-cases, length,
}
use vocabulary_micro.Text.{Text, join}
use vocabulary_micro.AssignmentScanner.Matches.{windows, count_of, ngram_count}

-- How many of the indexes have the property.
abbrev count_if : (ℕ → Bool) → List ℕ → ℕ
count_if p [] = 0
count_if p (i ∷ is) = (if p i then 1 else 0) + count_if p is

-- How often as many tokens in a row as the term has words spell the term.
abbrev pub occurrences_of : ℕ → List Text → Text → ℕ
occurrences_of size tokens term =
    count_if (λ i. join (take size (drop i tokens)) == term) (range 0 (length tokens + 1 - size))

count_if_shifted :
    (p : ℕ → Bool) (start after n : ℕ)
    → after ≡ suc start
    → count_if p (range after n) ≡ count_if (λ i. p (suc i)) (range start n)
unfolding range
count_if_shifted p start after zero e = refl
count_if_shifted p start after (suc n) e =
    ap (λ i. (if p i then 1 else 0) + count_if p (range (after + 1) n)) e
    ∙ ap (λ k. (if p (suc start) then 1 else 0) + k)
        (count_if_shifted p (start + 1) (after + 1) n (omega (arith, e)))

count_windows :
    (size : ℕ) (tokens : List Text) (term : Text)
    → 0 < size
    → count_of (windows size tokens) term ≡ occurrences_of size tokens term
unfolding count_of windows range
count_windows size [] term h = let none_left : 1 - size ≡ 0 = omega arith in rw none_left refl
count_windows size (t ∷ ts) term h =
    let p : ℕ → Bool = λ i. join (take size (drop i (t ∷ ts))) == term in
    let rest = count_windows size ts term h in
    elim (Bool-cases (leb size (length (t ∷ ts)))) [
      | inl b ↦
          let more : length (t ∷ ts) + 1 - size ≡ suc (length ts + 1 - size) = ground (arith, b) in
          rw (b, more)
            (ap (λ k. (if p 0 then 1 else 0) + k)
              (rest ∙ sym (count_if_shifted p 0 1 (length ts + 1 - size) refl)))
      | inr b ↦
          let done : length (t ∷ ts) + 1 - size ≡ 0 = ground (arith, b) in
          let before : length ts + 1 - size ≡ 0 = ground (arith, b) in
          rw (b, done) (rest ∙ rw before refl)
    ]

pub too_long :
    (size : ℕ) (tokens : List Text) (term : Text)
    → length tokens < size
    → occurrences_of size tokens term ≡ 0
unfolding range
too_long size tokens term h =
    let none_left : length tokens + 1 - size ≡ 0 = omega (arith, h) in rw none_left refl

pub ngram_count_lem :
    (tokens : List Text) (limit size : ℕ) (term : Text)
    → ngram_count tokens limit size term
      ≡ (if leb 1 size && leb size limit then occurrences_of size tokens term else 0)
unfolding ngram_count range
ngram_count_lem tokens limit size term = elim (Bool-cases (leb 1 size)) [
  | inr b ↦ rw b refl
  | inl b ↦
      let counted = count_windows size tokens term (ground (arith, b)) in
      elim (Bool-cases (leb size (length tokens))) [
        | inl c ↦ ground (arith, b, c, counted)
        | inr c ↦ ground (arith, b, c, too_long size tokens term (ground (arith, c)))
      ]
]

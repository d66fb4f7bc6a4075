-- ===== src/MweDisambiguator/Laws.antt =====
-- Which sense a candidate is given.
use mathlib.Core.Path.{subst}
use vocabulary_micro.Prelude.{
  IsIn, All-IsIn, All-sort, ℕ, zero, suc, ◌+◌, max, ◌≡◌, refl, sym, ap, inl, inr, Bool, true, false,
  ◌&&◌, not, Option, none, some, List, [], ◌∷◌, arith, leb, if◌then◌else◌, Bool-cases, length, take,
  length-take-le, All, sort, IsSorted, All-of_sort, sort-IsSorted, nat_equality, list_equality,
  pair_equality, lookup,
}
use vocabulary_micro.Text.{codes}
use vocabulary_micro.MweDetector.{MweCandidate}
use vocabulary_micro.MweIndex.{sense_before}
use vocabulary_micro.MweIndex.Records.{MweSenseRecord, SenseIndex, or_no_items}
use vocabulary_micro.MweIndex.Senses.{sense_before-IsWeakOrder}
use vocabulary_micro.MweDisambiguator.{
  Floats, SenseChoice, MweOccurrence, SensesSettings, choice_at, choices_from, second_score,
  without_senses, is_resolved, with_senses, occurrence_of, alternatives_of, counts_as_resolved,
  judge_candidates, disambiguate,
}

abbrev is_some {ℓ} : {A : Type ℓ} → Option A → Bool
is_some none = false
is_some (some a) = true

sort-IsIn :
    (senses : List MweSenseRecord) (x : MweSenseRecord) (xs : List MweSenseRecord)
    → sort sense_before senses ≡ x ∷ xs
    → IsIn senses x
sort-IsIn senses x xs e =
    (subst (All (IsIn senses)) e (All-sort sense_before (IsIn senses) senses (All-IsIn senses))).0

module _ {Score : Type 0} (f : Floats Score) where
  -- A chosen sense is one of the expression's, none of which is before it in the order of priority
  -- and id, and its score and its lead over the next one reach the thresholds.
  abbrev IsChosen :
      SensesSettings Score → List MweSenseRecord → MweOccurrence Score → SenseChoice Score → Type 0
  IsChosen t senses o choice =
      (s : MweSenseRecord) × IsIn senses s
      × All (λ r. sense_before r s ≡ false) senses
      × (choice.sense_id ≡ s.sense_id)
      × (f.less choice.score t.similarity_threshold ≡ false)
      × (f.less o.margin t.margin_threshold ≡ false)

  abbrev ChosenOrNone :
      SensesSettings Score
      → List MweSenseRecord
      → MweOccurrence Score
      → Option (SenseChoice Score)
      → Type 0
  ChosenOrNone t senses o none = o.status ≡ codes "uncertain"
  ChosenOrNone t senses o (some choice) = (o.status ≡ codes "resolved") × IsChosen t senses o choice

  -- The occurrence of a candidate, with the sense that is chosen for it.
  abbrev IsJudged :
      SensesSettings Score → SenseIndex → ℕ → MweCandidate Score → MweOccurrence Score → Type 0
  IsJudged t senses top_n c o =
      (o.canonical_form ≡ c.canonical_form)
      × (o.span_start ≡ c.span_start)
      × (o.span_end ≡ c.span_end)
      × (leb (length o.alternatives) (max 1 top_n) ≡ true)
      × ChosenOrNone t (or_no_items (lookup senses c.expression_id)) o o.sense

  length-choices_from :
      (rank n : ℕ) (xs : List MweSenseRecord) → length (choices_from f rank n xs) ≡ length xs
  unfolding choices_from
  length-choices_from rank n [] = refl
  length-choices_from rank n (x ∷ xs) = ap suc (length-choices_from (rank + 1) n xs)

  length-alternatives :
      (top_n : ℕ) (senses : List MweSenseRecord)
      → leb (length (alternatives_of f top_n senses)) (max 1 top_n) ≡ true
  unfolding alternatives_of
  length-alternatives top_n senses =
      let ordered = sort sense_before senses in
      ground (
        arith,
        length-choices_from 0 (length ordered) (take (max 1 top_n) ordered),
        length-take-le (max 1 top_n) ordered,
      )

  -- A first alternative is a first sense.
  abbrev IsFirst : List MweSenseRecord → List (SenseChoice Score) → Type 0
  IsFirst senses [] = Unit
  IsFirst senses (first ∷ others) =
      (s : MweSenseRecord) × IsIn senses s
      × All (λ r. sense_before r s ≡ false) senses
      × (first.sense_id ≡ s.sense_id)

  choices_from-IsFirst :
      (senses ordered : List MweSenseRecord) (n k : ℕ)
      → sort sense_before senses ≡ ordered
      → IsFirst senses (choices_from f 0 k (take n ordered))
  unfolding choices_from choice_at
  choices_from-IsFirst senses [] zero k e = tt
  choices_from-IsFirst senses [] (suc n) k e = tt
  choices_from-IsFirst senses (x ∷ xs) zero k e = tt
  choices_from-IsFirst senses (x ∷ xs) (suc n) k e =
      let sorted : IsSorted sense_before (x ∷ xs) =
        subst (IsSorted sense_before) e
          (sort-IsSorted sense_before sense_before-IsWeakOrder senses) in
      let irreflexive : sense_before x x ≡ false =
        ground (arith, sense_before-IsWeakOrder.asymmetric x x) in
      (
        x,
        sort-IsIn senses x xs e,
        All-of_sort sense_before (λ r. sense_before r x ≡ false) senses
            (subst (All (λ r. sense_before r x ≡ false)) (sym e) (irreflexive, sorted.0)),
        refl,
      )

  alternatives-IsFirst :
      (top_n : ℕ) (senses : List MweSenseRecord) → IsFirst senses (alternatives_of f top_n senses)
  unfolding alternatives_of
  alternatives-IsFirst top_n senses =
      let ordered = sort sense_before senses in
      choices_from-IsFirst senses ordered (max 1 top_n) (length ordered) refl

  chosen :
      (t : SensesSettings Score) (c : MweCandidate Score) (senses : List MweSenseRecord)
      (first : SenseChoice Score) (others : List (SenseChoice Score))
      → IsFirst senses (first ∷ others)
      → (let o = with_senses f c first others (is_resolved f t first others) in
          ChosenOrNone t senses o o.sense)
  unfolding with_senses
  chosen t c senses first others h = elim (Bool-cases (is_resolved f t first others)) [
    | inl b ↦
        let b' : (not (f.less first.score t.similarity_threshold)
              && not (f.less (f.minus first.score (second_score f others)) t.margin_threshold))
            ≡ true =
          (unfold is_resolved in b) in
        rw b (refl, (h.0, h.1, h.2, h.3, ground (arith, b'), ground (arith, b')))
    | inr b ↦ rw b refl
  ]

  occurrence_of-IsJudged :
      (t : SensesSettings Score) (senses : SenseIndex) (top_n : ℕ) (c : MweCandidate Score)
      (alternatives : List (SenseChoice Score))
      → leb (length alternatives) (max 1 top_n) ≡ true
      → IsFirst (or_no_items (lookup senses c.expression_id)) alternatives
      → IsJudged t senses top_n c (occurrence_of f t c alternatives)
  unfolding occurrence_of without_senses with_senses
  occurrence_of-IsJudged t senses top_n c [] l h = (refl, refl, refl, l, refl)
  occurrence_of-IsJudged t senses top_n c (first ∷ others) l h =
      (refl, refl, refl, l, chosen t c (or_no_items (lookup senses c.expression_id)) first others h)

  resolved-occurrence :
      (t : SensesSettings Score) (c : MweCandidate Score) (alternatives : List (SenseChoice Score))
      → is_some (occurrence_of f t c alternatives).sense ≡ counts_as_resolved f t alternatives
  unfolding occurrence_of without_senses with_senses counts_as_resolved
  resolved-occurrence t c [] = refl
  resolved-occurrence t c (first ∷ others) = ground arith

  abbrev pub AreJudged :
      SensesSettings Score
      → SenseIndex
      → ℕ
      → List (MweCandidate Score)
      → List (MweOccurrence Score)
      → Type 0
  AreJudged t senses top_n [] os = os ≡ []
  AreJudged t senses top_n (c ∷ cs) [] = ⊥
  AreJudged t senses top_n (c ∷ cs) (o ∷ os) =
      IsJudged t senses top_n c o × AreJudged t senses top_n cs os

  abbrev pub count_resolved : List (MweOccurrence Score) → ℕ
  count_resolved [] = 0
  count_resolved (o ∷ os) = (if is_some o.sense then 1 else 0) + count_resolved os

  judge_candidates-AreJudged :
      (t : SensesSettings Score) (senses : SenseIndex) (top_n : ℕ) (cs : List (MweCandidate Score))
      → (let r = judge_candidates f t senses top_n cs in
          AreJudged t senses top_n cs r.0 × (r.1 ≡ count_resolved r.0) × (r.1 + r.2 ≡ length cs))
  unfolding judge_candidates
  judge_candidates-AreJudged t senses top_n [] = (refl, refl, omega arith)
  judge_candidates-AreJudged t senses top_n (c ∷ cs) =
      let own = or_no_items (lookup senses c.expression_id) in
      let alternatives = alternatives_of f top_n own in
      let rest = judge_candidates-AreJudged t senses top_n cs in
      (
        (
          occurrence_of-IsJudged t senses top_n c alternatives (length-alternatives top_n own)
              (alternatives-IsFirst top_n own),
          rest.0,
        ),
        ground (arith, resolved-occurrence t c alternatives, rest.1),
        ground (arith, rest.2),
      )

  -- disambiguate answers with an occurrence for each candidate, in order, of the same form and span
  -- and with no more alternatives than are asked for, or one where none is asked for. A sense is given
  -- only if it is one of the expression's senses with none of them before it by priority and id, and its score and margin
  -- reach the thresholds; the occurrence is then resolved and otherwise uncertain. The counts are of
  -- the occurrences with and without a sense.
  pub disambiguate-AreJudged :
      (t : SensesSettings Score) (cs : List (MweCandidate Score)) (senses : SenseIndex) (top_n : ℕ)
      → (let r = disambiguate f t cs senses top_n in
          AreJudged t senses top_n cs r.occurrences
          × (r.resolved_count ≡ count_resolved r.occurrences)
          × (r.resolved_count + r.uncertain_count ≡ length cs))
  unfolding disambiguate
  disambiguate-AreJudged t cs senses top_n = judge_candidates-AreJudged t senses top_n cs

-- ===== src/ThirdPass/Upsert/Laws.antt =====
-- What `upsert_mwe_records_from_occurrences` counts, and what the repository has taken.
use vocabulary_micro.Prelude.{
  ℕ, ◌+◌, ◌≡◌, refl, ap, inl, inr, Bool, true, false, ◌||◌, not, Option, none, some, List, [], ◌∷◌,
  ◌++◌, arith, Bool-cases, length, is_empty, length-append, All-unit, fold-invariant, nat_equality,
  list_equality, pair_equality, contains, Distinct, contains-append, Distinct-concat,
}
use vocabulary_micro.Text.{Text}
use vocabulary_micro.TextProcessor.Tokens.{Occurrence}
use vocabulary_micro.ThirdPass.Upsert.{
  MweRecord, upsert_type, is_upsert_type, upsert_form, record_of, Upserts, try_upsert, upsert_one,
  no_upserts, report_of, upsert_mwe_records_from_occurrences,
}

-- The form and the type of a record.
abbrev marker_of : MweRecord → Text × Text
marker_of r = (r.canonical_form, r.expression_type)

abbrev markers : List MweRecord → List (Text × Text)
markers [] = []
markers (r ∷ rs) = marker_of r ∷ markers rs

markers-append :
    (rs : List MweRecord) (r : MweRecord) → markers (rs ++ r ∷ []) ≡ markers rs ++ marker_of r ∷ []
markers-append [] r = refl
markers-append (q ∷ rs) r = ap (λ ms. marker_of q ∷ ms) (markers-append rs r)

-- What is in no larger list is not in the smaller.
uncovered :
    (small large : List (Text × Text)) (x : Text × Text)
    → (not (contains small x) || contains large x) ≡ true
    → contains large x ≡ false
    → contains small x ≡ false
uncovered small large x h k = ground (arith, h, k)

covers_both :
    (small large : List (Text × Text)) (m x : Text × Text)
    → (not (contains small x) || contains large x) ≡ true
    → (not (contains (small ++ m ∷ []) x) || contains (large ++ m ∷ []) x) ≡ true
covers_both small large m x h =
    ground (arith, h, contains-append small (m ∷ []) x, contains-append large (m ∷ []) x)

covers_more :
    (small large : List (Text × Text)) (m x : Text × Text)
    → (not (contains small x) || contains large x) ≡ true
    → (not (contains small x) || contains (large ++ m ∷ []) x) ≡ true
covers_more small large m x h = ground (arith, h, contains-append large (m ∷ []) x)

-- What holds in the loop: every marker is tried once, and counts as upserted or as failed.
record IsCounted (s : Upserts) : Type 0 where
  distinct : Distinct s.seen
  counted : s.upserted + s.failed ≡ length s.seen
  took : length s.taken ≡ s.upserted
  once : Distinct (markers s.taken)
  covered : (x : Text × Text) → (not (contains (markers s.taken) x) || contains s.seen x) ≡ true

module _ (succeeds : MweRecord → Bool) (gap : ℕ) where
  try_upsert-IsCounted :
      (s : Upserts) (o : Occurrence)
      → contains s.seen (upsert_form o, upsert_type o) ≡ false
      → IsCounted s
      → IsCounted (try_upsert succeeds gap s o)
  unfolding try_upsert record_of
  try_upsert-IsCounted s o n h =
      let marker : Text × Text = (upsert_form o, upsert_type o) in
      let size = length-append s.seen (marker ∷ []) in
      let r = record_of gap o in
      let distinct = Distinct-concat s.seen marker h.distinct n in
      let more = contains-append s.seen (marker ∷ []) in
      elim (Bool-cases (succeeds (record_of gap o))) [
        | inl e ↦
            let all : markers (s.taken ++ r ∷ []) ≡ markers s.taken ++ marker ∷ [] =
              markers-append s.taken r in
            rw e (record {
              distinct = distinct;
              counted = omega (arith, size, h.counted);
              took = omega (arith, length-append s.taken (r ∷ []), h.took);
              once = rw all (
                  Distinct-concat (markers s.taken) marker h.once
                    (uncovered (markers s.taken) s.seen marker (h.covered marker) n));
              covered = λ x. rw all (covers_both (markers s.taken) s.seen marker x (h.covered x));
            })
        | inr e ↦ rw e (record {
          distinct = distinct;
          counted = omega (arith, size, h.counted);
          took = h.took;
          once = h.once;
          covered = λ x. covers_more (markers s.taken) s.seen marker x (h.covered x);
        })
      ]

  upsert_one-IsCounted :
      (s : Upserts) (o : Option Occurrence) → IsCounted s → IsCounted (upsert_one succeeds gap s o)
  unfolding upsert_one
  upsert_one-IsCounted s none h = h
  upsert_one-IsCounted s (some o) h = elim (Bool-cases (not (is_upsert_type (upsert_type o)))) [
    | inl e ↦ rw e h
    | inr e ↦ elim (Bool-cases (is_empty (upsert_form o))) [
      | inl f ↦ rw (e, f) h
      | inr f ↦ elim (Bool-cases (contains s.seen (upsert_form o, upsert_type o))) [
        | inl g ↦ rw (e, f, g) h
        | inr g ↦ rw (e, f, g) (try_upsert-IsCounted s o g h)
      ]
    ]
  ]

-- Every form that is tried counts as upserted or as failed, the repository has taken as many
-- records as are counted, and no two of them have the same form and type.
upsert_mwe_records_lem :
    (available : Bool) (succeeds : MweRecord → Bool) (gap : ℕ)
    (os : Option (List (Option Occurrence)))
    → ((upsert_mwe_records_from_occurrences available succeeds gap os).0.upserted_count
          + (upsert_mwe_records_from_occurrences available succeeds gap os).0.failed_count
        ≡ (upsert_mwe_records_from_occurrences available succeeds gap os).0.candidate_count)
      × (length (upsert_mwe_records_from_occurrences available succeeds gap os).1
          ≡ (upsert_mwe_records_from_occurrences available succeeds gap os).0.upserted_count)
      × Distinct (markers (upsert_mwe_records_from_occurrences available succeeds gap os).1)
unfolding upsert_mwe_records_from_occurrences report_of
upsert_mwe_records_lem available succeeds gap none = (refl, refl, tt)
upsert_mwe_records_lem available succeeds gap (some os) =
    let h =
      fold-invariant (upsert_one succeeds gap) IsCounted (λ o. Unit)
        (λ s o u k. upsert_one-IsCounted succeeds gap s o k) os (All-unit os) no_upserts
        (record {
          distinct = tt;
          counted = refl;
          took = refl;
          once = tt;
          covered = λ x. unfold contains in refl;
        }) in
    elim (Bool-cases available) [
      | inl e ↦ rw e (h.counted, h.took, h.once)
      | inr e ↦ rw e (refl, refl, tt)
    ]

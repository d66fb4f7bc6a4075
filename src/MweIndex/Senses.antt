-- ===== src/MweIndex/Senses.antt =====
-- The senses that the index has for an expression.
use vocabulary_micro.Prelude.{
  ℕ, ◌≡◌, refl, sym, ap, ◌∙◌, inl, inr, Bool, true, Option, List, [], ◌∷◌, nat_beq_iff, Bool-cases,
  All, All-append, IsWeakOrder, IsSorted, All-sort, sort-IsSorted, then_by-IsWeakOrder,
  ascending-IsWeakOrder, ◌==◌, nat_equality, list_equality, pair_equality, contains, upsert, keys,
}
use vocabulary_micro.Text.{Text}
use vocabulary_micro.MweIndex.{
  append_item, read_sense, index_senses, sense_before, freeze_senses, index_expressions,
  build_mwe_snapshot,
}
use vocabulary_micro.MweIndex.Records.{
  SenseRow, MweExpressionRecord, MweSenseRecord, SenseIndex, Tables,
}

abbrev HasSense : List (ℕ × MweExpressionRecord) → ℕ → MweSenseRecord → Type 0
HasSense expressions id s = (s.expression_id ≡ id) × (contains (keys expressions) id ≡ true)

-- Every sense stands under its own expression, which is known.
abbrev AreFiled : List (ℕ × MweExpressionRecord) → SenseIndex → Type 0
AreFiled expressions m = All (λ (x : ℕ × List MweSenseRecord). All (HasSense expressions x.0) x.1) m

append_item-AreFiled :
    (expressions : List (ℕ × MweExpressionRecord)) (m : SenseIndex) (s : MweSenseRecord)
    → contains (keys expressions) s.expression_id ≡ true
    → AreFiled expressions m
    → AreFiled expressions (append_item m s.expression_id s)
unfolding append_item upsert
append_item-AreFiled expressions [] s k h = (((refl, k), tt), tt)
append_item-AreFiled expressions (x ∷ m) s k h = elim (Bool-cases (x.0 == s.expression_id)) [
  | inl b ↦ rw b (
    All-append (HasSense expressions x.0) x.1 (s ∷ []) h.0 (
      (
        sym ((nat_beq_iff x.0 s.expression_id).0 b),
        ap (contains (keys expressions)) ((nat_beq_iff x.0 s.expression_id).0 b) ∙ k,
      ),
      tt,
    ),
    h.1,
  )
  | inr b ↦ rw b (h.0, append_item-AreFiled expressions m s k h.1)
]

index_senses-AreFiled :
    (expressions : List (ℕ × MweExpressionRecord)) (embeddings : List (ℕ × List Text))
    (m : SenseIndex) (rows : List SenseRow)
    → AreFiled expressions m
    → AreFiled expressions (index_senses expressions embeddings m rows)
unfolding index_senses
index_senses-AreFiled expressions embeddings m [] h = h
index_senses-AreFiled expressions embeddings m (row ∷ rows) h =
    let sense = read_sense embeddings row in
    elim (Bool-cases (contains (keys expressions) row.expression_id)) [
      | inl k ↦ rw k (
          index_senses-AreFiled expressions embeddings (append_item m sense.expression_id sense)
            rows (append_item-AreFiled expressions m sense (unfold read_sense in k) h))
      | inr k ↦ rw k (index_senses-AreFiled expressions embeddings m rows h)
    ]

pub sense_before-IsWeakOrder : IsWeakOrder sense_before
unfolding sense_before
sense_before-IsWeakOrder =
    then_by-IsWeakOrder (ascending-IsWeakOrder (λ s. s.priority))
      (ascending-IsWeakOrder (λ s. s.sense_id))

-- The senses of an expression, in order.
abbrev pub AreSenses : List (ℕ × MweExpressionRecord) → ℕ × List MweSenseRecord → Type 0
AreSenses expressions x = All (HasSense expressions x.0) x.1 × IsSorted sense_before x.1

freeze_senses-AreSenses :
    (expressions : List (ℕ × MweExpressionRecord)) (m : SenseIndex)
    → AreFiled expressions m
    → All (AreSenses expressions) (freeze_senses m)
unfolding freeze_senses
freeze_senses-AreSenses expressions [] h = tt
freeze_senses-AreSenses expressions (x ∷ m) h = (
  (
    All-sort sense_before (HasSense expressions x.0) x.1 h.0,
    sort-IsSorted sense_before sense_before-IsWeakOrder x.1,
  ),
  freeze_senses-AreSenses expressions m h.1,
)

-- Every sense of a snapshot stands under its own expression, which the snapshot has, and the senses
-- of an expression are in the order of priority and, where that is the same, of their ids.
pub build_mwe_snapshot-AreSenses :
    (is_letter : ℕ → Bool) (sha1 : Text → Text) (decimal : ℕ → Text) (t : Tables) (version : ℕ)
    (name : Text) (revision : Option Text)
    → (let s = build_mwe_snapshot is_letter sha1 decimal t version name revision in
        All (AreSenses s.expressions) s.senses_by_expression)
unfolding build_mwe_snapshot
build_mwe_snapshot-AreSenses is_letter sha1 decimal t version name revision =
    let indexes =
      index_expressions is_letter (record { expressions = []; contiguous = []; separable = [] })
        t.expression_rows in
    freeze_senses-AreSenses indexes.expressions
      (index_senses indexes.expressions (t.sense_embeddings name revision) [] t.sense_rows)
      (index_senses-AreFiled indexes.expressions (t.sense_embeddings name revision) [] t.sense_rows
        tt)

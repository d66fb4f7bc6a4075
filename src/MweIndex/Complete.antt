-- ===== src/MweIndex/Complete.antt =====
-- An index that the loop over the expressions fills, against the expressions: `key_of` is the key of
-- an expression in the index, if it has one, and `index_of` the index.
use vocabulary_micro.Prelude.{
  contains-sort, ℕ, ◌≡◌, refl, sym, ap, ◌∙◌, inl, inr, Bool, false, ◌&&◌, ◌||◌, Option, none, some,
  List, [], ◌∷◌, ◌++◌, map, arith, ltb, nat_beq_iff, Bool-cases, All, HasEquality, ◌==◌,
  nat_equality, list_equality, pair_equality, contains, Distinct, contains-append, lookup, upsert,
  lookup-upsert,
}
use vocabulary_micro.TextProcessor.Forms.{unique}
use vocabulary_micro.TextProcessor.Forms.Unique.{contains-unique}
use vocabulary_micro.MweDetector.Contiguous.{sorted_ids}
use vocabulary_micro.MweIndex.{
  append_item, add_expression, read_expression, add_read, index_expressions, freeze_ids,
}
use vocabulary_micro.MweIndex.Records.{ExpressionRow, MweExpressionRecord, Indexes, or_no_items}

contains-sorted_ids : (xs : List ℕ) (a : ℕ) → contains (sorted_ids xs) a ≡ contains xs a
unfolding sorted_ids
contains-sorted_ids xs a = contains-sort ltb (unique xs) a ∙ contains-unique xs a

abbrev frozen : Option (List ℕ) → Option (List ℕ)
frozen none = none
frozen (some xs) = some (sorted_ids xs)

contains-frozen :
    (o : Option (List ℕ)) (id : ℕ)
    → contains (or_no_items (frozen o)) id ≡ contains (or_no_items o) id
contains-frozen none id = refl
contains-frozen (some xs) id = contains-sorted_ids xs id

read_id :
    (is_letter : ℕ → Bool) (row : ExpressionRow) (e : MweExpressionRecord)
    → read_expression is_letter row ≡ some e
    → e.expression_id ≡ row.id
unfolding read_expression
read_id is_letter row e h = ground (arith, h)

abbrev no_indexes : Indexes
no_indexes = record { expressions = []; contiguous = []; separable = [] }

module _ (is_letter : ℕ → Bool) where
  -- An expression that is read goes under the id of its row, and no other id is touched.
  lookup-add_read :
      (i : Indexes) (o : Option MweExpressionRecord) (id j : ℕ)
      → ((e : MweExpressionRecord) → o ≡ some e → e.expression_id ≡ id)
      → (id == j) ≡ false
      → lookup i.expressions j ≡ none
      → lookup (add_read is_letter i o).expressions j ≡ none
  unfolding add_expression
  lookup-add_read i none id j r n h = h
  lookup-add_read i (some e) id j r n h =
      lookup-upsert i.expressions e.expression_id (λ o. e) j ∙ ground (arith, r e refl, n, h)

  abbrev ids : List ExpressionRow → List ℕ
  ids rows = map (λ (r : ExpressionRow). r.id) rows

  abbrev Unused : Indexes → List ExpressionRow → Type 0
  Unused i rows = All (λ (r : ExpressionRow). lookup i.expressions r.id ≡ none) rows

  add_read-Unused :
      (i : Indexes) (row : ExpressionRow) (rows : List ExpressionRow)
      → contains (ids rows) row.id ≡ false
      → Unused i rows
      → Unused (add_read is_letter i (read_expression is_letter row)) rows
  unfolding contains
  add_read-Unused i row [] d u = tt
  add_read-Unused i row (r ∷ rows) d u = (
    lookup-add_read i (read_expression is_letter row) row.id r.id (read_id is_letter row)
        (ground (arith, d, nat_beq_iff row.id r.id, nat_beq_iff r.id row.id)) u.0,
    add_read-Unused i row rows (ground (arith, d)) u.1,
  )

  nothing_used : (rows : List ExpressionRow) → Unused no_indexes rows
  unfolding lookup
  nothing_used [] = tt
  nothing_used (r ∷ rows) = (refl, nothing_used rows)

module _ {K : Type 0} ⦃d : HasEquality K⦄ where
  contains-append_item :
      (m : List (K × List ℕ)) (key k : K) (id j : ℕ)
      → contains (or_no_items (lookup (append_item m key id) k)) j
        ≡ (contains (or_no_items (lookup m k)) j || (key == k && id == j))
  unfolding append_item contains
  contains-append_item m key k id j = elim (Bool-cases (key == k)) [
    | inl h ↦
        let same : key ≡ k = (d.same_iff key k).0 h in
        rw (lookup-upsert m key (λ o. or_no_items o ++ id ∷ []) k, h)
          (contains-append (or_no_items (lookup m key)) (id ∷ []) j
            ∙ ground (arith, ap (λ z. contains (or_no_items (lookup m z)) j) same))
    | inr h ↦ rw (lookup-upsert m key (λ o. or_no_items o ++ id ∷ []) k, h) (ground arith)
  ]

  lookup-freeze_ids :
      (m : List (K × List ℕ)) (key : K) → lookup (freeze_ids m) key ≡ frozen (lookup m key)
  unfolding freeze_ids lookup
  lookup-freeze_ids [] key = refl
  lookup-freeze_ids (x ∷ m) key = elim (Bool-cases (x.0 == key)) [
    | inl h ↦ rw h refl
    | inr h ↦ rw h (lookup-freeze_ids m key)
  ]

  -- The ids that a frozen index has under a key.
  contains-freeze_ids :
      (m : List (K × List ℕ)) (key : K) (id : ℕ)
      → contains (or_no_items (lookup (freeze_ids m) key)) id
        ≡ contains (or_no_items (lookup m key)) id
  contains-freeze_ids m key id =
      ap (λ o. contains (or_no_items o) id) (lookup-freeze_ids m key)
      ∙ contains-frozen (lookup m key) id

  abbrev pub add_at : List (K × List ℕ) → ℕ → Option K → List (K × List ℕ)
  add_at m id none = m
  add_at m id (some key) = append_item m key id

  abbrev pub is_key : Option K → K → Bool
  is_key none key = false
  is_key (some k) key = k == key

  contains-add_at :
      (m : List (K × List ℕ)) (o : Option K) (k : K) (id j : ℕ)
      → contains (or_no_items (lookup (add_at m id o) k)) j
        ≡ (contains (or_no_items (lookup m k)) j || (is_key o k && id == j))
  contains-add_at m none k id j = ground arith
  contains-add_at m (some key) k id j = contains-append_item m key k id j

  module _ (key_of : MweExpressionRecord → Option K) where
    -- There is an expression, and the key is its own.
    abbrev pub has_key : Option MweExpressionRecord → K → Bool
    has_key none key = false
    has_key (some e) key = is_key (key_of e) key

    has_key-upsert :
        (m : List (ℕ × MweExpressionRecord)) (e : MweExpressionRecord) (key : K) (id : ℕ)
        → lookup m e.expression_id ≡ none
        → has_key (lookup (upsert m e.expression_id (λ o. e)) id) key
          ≡ (has_key (lookup m id) key || (is_key (key_of e) key && e.expression_id == id))
    has_key-upsert m e key id h = elim (Bool-cases (e.expression_id == id)) [
      | inl b ↦
          let same : e.expression_id ≡ id = (nat_beq_iff e.expression_id id).0 b in
          let absent : lookup m id ≡ none = ap (lookup m) (sym same) ∙ h in
          rw (lookup-upsert m e.expression_id (λ o. e) id, b, absent) (ground arith)
      | inr b ↦ rw (lookup-upsert m e.expression_id (λ o. e) id, b) (ground arith)
    ]

    module _ (index_of : Indexes → List (K × List ℕ))
        (step : (i : Indexes) (e : MweExpressionRecord)
          → index_of (add_expression i e) ≡ add_at (index_of i) e.expression_id (key_of e))
        (is_letter : ℕ → Bool) where
      -- The index has under each key exactly the expressions of that key.
      abbrev IsComplete : Indexes → Type 0
      IsComplete i =
          (key : K) (id : ℕ)
          → contains (or_no_items (lookup (index_of i) key)) id
            ≡ has_key (lookup i.expressions id) key

      add_expression-IsComplete :
          (i : Indexes) (e : MweExpressionRecord)
          → lookup i.expressions e.expression_id ≡ none
          → IsComplete i
          → IsComplete (add_expression i e)
      add_expression-IsComplete i e h c key id =
          ap (λ m. contains (or_no_items (lookup m key)) id) (step i e)
          ∙ contains-add_at (index_of i) (key_of e) key e.expression_id id
          ∙ ap (λ b. b || (is_key (key_of e) key && e.expression_id == id)) (c key id)
          ∙ sym (unfold add_expression in has_key-upsert i.expressions e key id h)

      add_read-IsComplete :
          (i : Indexes) (o : Option MweExpressionRecord) (id : ℕ)
          → ((e : MweExpressionRecord) → o ≡ some e → e.expression_id ≡ id)
          → lookup i.expressions id ≡ none
          → IsComplete i
          → IsComplete (add_read is_letter i o)
      add_read-IsComplete i none id r h c = c
      add_read-IsComplete i (some e) id r h c =
          add_expression-IsComplete i e (ap (lookup i.expressions) (r e refl) ∙ h) c

      index_rows-IsComplete :
          (i : Indexes) (rows : List ExpressionRow)
          → Distinct (ids is_letter rows)
          → Unused is_letter i rows
          → IsComplete i
          → IsComplete (index_expressions is_letter i rows)
      unfolding index_expressions
      index_rows-IsComplete i [] u n c = c
      index_rows-IsComplete i (row ∷ rows) u n c =
          index_rows-IsComplete (add_read is_letter i (read_expression is_letter row)) rows u.1
            (add_read-Unused is_letter i row rows u.0 n.1)
            (add_read-IsComplete i (read_expression is_letter row) row.id (read_id is_letter row)
              n.0 c)

      -- If the rows have distinct ids, the frozen index has under each key exactly the expressions
      -- of that key.
      pub index_expressions-IsComplete :
          (rows : List ExpressionRow) (key : K) (id : ℕ)
          → Distinct (map (λ (r : ExpressionRow). r.id) rows)
          → index_of no_indexes ≡ []
          → (let i = index_expressions is_letter no_indexes rows in
              contains (or_no_items (lookup (freeze_ids (index_of i)) key)) id
              ≡ has_key (lookup i.expressions id) key)
      unfolding lookup contains
      index_expressions-IsComplete rows key id u e =
          contains-freeze_ids (index_of (index_expressions is_letter no_indexes rows)) key id
          ∙ index_rows-IsComplete no_indexes rows u (nothing_used is_letter rows) (λ k j. rw e refl)
              key id

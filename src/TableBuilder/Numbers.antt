-- ===== src/TableBuilder/Numbers.antt =====
-- The numbers of the table's rows when others are appended.
use vocabulary_micro.Prelude.{
  ℕ, zero, suc, ◌+◌, ◌≡◌, refl, sym, ap, ◌∙◌, ◌⊎◌, inl, inr, Bool, true, false, not, Option, none,
  some, List, [], ◌∷◌, ◌++◌, append-nil, append_assoc, arith, if◌then◌else◌, Bool-cases, length,
  is_empty, length-append, All, All-append, All-unit, fold-invariant, range, ◌==◌, nat_equality,
  list_equality, pair_equality, contains,
}
use vocabulary_micro.Text.{Text, codes}
use vocabulary_micro.TextProcessor.Forms.{normalize_term}
use vocabulary_micro.TextProcessor.Tokens.{ParsedToken, Occurrence}
use vocabulary_micro.CandidateResolver.{normed}
use vocabulary_micro.TableBuilder.{
  TableRow, Table, Numbering, categories_for_rows, token_row, token_rows, build_table, row_type,
  is_row_type, row_form, OccurrenceRows, occurrence_row, add_occurrence, append_occurrence_rows,
}

abbrev numbers : Table → List ℕ
numbers [] = []
numbers (r ∷ rs) = r.row_index ∷ numbers rs

-- The numbers are 1, 2, …
abbrev pub IsNumbered : Table → Type 0
IsNumbered table = numbers table ≡ range 1 (length table)

numbers-append :
    (xs : Table) (r : TableRow) → numbers (xs ++ r ∷ []) ≡ numbers xs ++ r.row_index ∷ []
numbers-append [] r = refl
numbers-append (x ∷ xs) r = ap (λ ns. x.row_index ∷ ns) (numbers-append xs r)

range_last : (start n : ℕ) → range start (suc n) ≡ range start n ++ (start + n) ∷ []
unfolding range
range_last start zero = let same : start ≡ start + 0 = omega arith in ap (λ (i : ℕ). i ∷ []) same
range_last start (suc n) =
    let same : start + 1 + n ≡ start + suc n = omega arith in
    ap (λ (ns : List ℕ). start ∷ ns)
      (range_last (start + 1) n ∙ ap (λ (i : ℕ). range (start + 1) n ++ i ∷ []) same)

pub IsNumbered-append :
    (table : Table) (r : TableRow)
    → IsNumbered table
    → r.row_index ≡ length table + 1
    → IsNumbered (table ++ r ∷ [])
IsNumbered-append table r h k =
    let size : length (table ++ r ∷ []) ≡ suc (length table) =
      omega (arith, length-append table (r ∷ [])) in
    let next : r.row_index ≡ 1 + length table = omega (arith, k) in
    numbers-append table r
    ∙ ap (λ ns. ns ++ r.row_index ∷ []) h
    ∙ ap (λ (i : ℕ). range 1 (length table) ++ i ∷ []) next
    ∙ sym (range_last 1 (length table))
    ∙ ap (λ n. range 1 n) (sym size)

abbrev Counts : Numbering → Type 0
Counts s = IsNumbered s.0 × (s.1 ≡ length s.0 + 1)

token_row-Counts :
    (known : List Text) (item : ParsedToken) (s : Numbering) (c : Text)
    → Counts s
    → Counts (token_row known item s c)
unfolding token_row
token_row-Counts known item s c h =
    (IsNumbered-append s.0 _ h.0 h.1, omega (arith, h.1, length-append s.0 (_ ∷ [])))

token_rows-Counts :
    (known : List Text) (s : Numbering) (item : ParsedToken)
    → Counts s
    → Counts (token_rows known s item)
unfolding token_rows
token_rows-Counts known s item h =
    fold-invariant (token_row known item) Counts (λ c. Unit)
      (λ s c u k. token_row-Counts known item s c k) (categories_for_rows item.categories)
      (All-unit (categories_for_rows item.categories)) s h

-- The table of the tokens is numbered from 1 on.
pub build_table-IsNumbered :
    (tokens : List ParsedToken) (known : List Text) → IsNumbered (build_table tokens known)
unfolding build_table
build_table-IsNumbered tokens known =
    (fold-invariant (token_rows known) Counts (λ t. Unit) (λ s t u k. token_rows-Counts known s t k)
      tokens (All-unit tokens) ([], 1) (unfold range in (refl, refl))).0

-- The table after an append: the old rows, then those of `rows`, numbered on.
pub record IsExtended (old new : Table) (P : TableRow → Type 0) : Type 0 where
  pub rows : Table
  pub split : new ≡ old ++ rows
  pub numbered : IsNumbered new
  pub each : All P rows

IsExtended-append :
    (old new : Table) (P : TableRow → Type 0) (r : TableRow)
    → IsExtended old new P
    → r.row_index ≡ length new + 1
    → P r
    → IsExtended old (new ++ r ∷ []) P
IsExtended-append old new P r h k p = record {
  rows = h.rows ++ r ∷ [];
  split = ap (λ t. t ++ r ∷ []) h.split ∙ append_assoc old h.rows (r ∷ []);
  numbered = IsNumbered-append new r h.numbered k;
  each = All-append P h.rows (r ∷ []) h.each (p, tt);
}

-- A row of a phrasal verb or an idiom, which says whether its form is known.
abbrev IsOccurrenceRow : List Text → TableRow → Type 0
IsOccurrenceRow known r =
    (r.known_in_db ≡ contains known r.normalized)
    × ((r.category ≡ codes "Phrasal Verb") ⊎ (r.category ≡ codes "Idiom"))

module _ (render : Text → Text) (label : Text) (known : List Text) where
  occurrence_row-IsOccurrenceRow :
      (o : Occurrence) (i : ℕ) → IsOccurrenceRow known (occurrence_row render label known o i)
  unfolding occurrence_row
  occurrence_row-IsOccurrenceRow o i = (refl, category_cases (row_type o == codes "phrasal_verb"))
    where
      category_cases :
          (b : Bool)
          → ((if b then codes "Phrasal Verb" else codes "Idiom") ≡ codes "Phrasal Verb")
            ⊎ ((if b then codes "Phrasal Verb" else codes "Idiom") ≡ codes "Idiom")
      category_cases true = inl refl
      category_cases false = inr refl

  abbrev RowsOf : Table → OccurrenceRows → Type 0
  RowsOf old s =
      IsExtended old s.table (IsOccurrenceRow known) × (s.next_index ≡ length s.table + 1)

  add_occurrence-RowsOf :
      (old : Table) (s : OccurrenceRows) (o : Option Occurrence)
      → RowsOf old s
      → RowsOf old (add_occurrence render label known s o)
  unfolding add_occurrence
  add_occurrence-RowsOf old s none h = h
  add_occurrence-RowsOf old s (some o) h =
      let r = occurrence_row render label known o s.next_index in
      elim (Bool-cases (not (is_row_type (row_type o)))) [
        | inl e ↦ rw e h
        | inr e ↦ elim (Bool-cases (is_empty (row_form o))) [
          | inl f ↦ rw (e, f) h
          | inr f ↦ elim (Bool-cases (contains s.seen (row_form o, row_type o))) [
            | inl g ↦ rw (e, f, g) h
            | inr g ↦
                rw (e, f, g)
                  (
                    IsExtended-append old s.table (IsOccurrenceRow known) r h.0
                        (unfold occurrence_row in h.1)
                        (occurrence_row-IsOccurrenceRow o s.next_index),
                    omega (arith, h.1, length-append s.table (r ∷ [])),
                  )
          ]
        ]
      ]

-- To a numbered table `append_occurrence_rows` appends numbered rows of phrasal verbs and idioms,
-- which say whether their forms are among the known terms.
pub append_occurrence_rows-IsExtended :
    (render : Text → Text) (label : Text) (known_terms : List Text) (table : Table)
    (os : Option (List (Option Occurrence)))
    → IsNumbered table
    → IsExtended table
        (append_occurrence_rows render label known_terms table os)
        (IsOccurrenceRow (normed normalize_term known_terms))
unfolding append_occurrence_rows
append_occurrence_rows-IsExtended render label known_terms table none h = record {
  rows = [];
  split = sym (append-nil table);
  numbered = h;
  each = tt;
}
append_occurrence_rows-IsExtended render label known_terms table (some os) h =
    let known = normed normalize_term known_terms in
    (fold-invariant (add_occurrence render label known) (RowsOf render label known table)
      (λ o. Unit) (λ s o u k. add_occurrence-RowsOf render label known table s o k) os (All-unit os)
      (record { table = table; next_index = length table + 1; seen = [] })
      (record { rows = []; split = sym (append-nil table); numbered = h; each = tt }, refl)).0

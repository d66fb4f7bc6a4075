-- ===== src/TableBuilder/Phrases.antt =====
-- The rows of `append_heuristic_phrasal_rows`.
use vocabulary_micro.Prelude.{
  any, any-append, All-map, Bool, ◌==◌, ◌+◌, ◌≡◌, refl, sym, ap, ◌∙◌, inl, inr, true, false, ◌||◌,
  List, [], ◌∷◌, ◌++◌, append-nil, append_assoc, arith, Bool-cases, ||_false, length, is_empty,
  length-append, All, All-append, All-unit, fold, fold-invariant, nat_equality, list_equality,
  pair_equality, beq_refl, contains, Distinct, contains-append, Distinct-concat,
}
use vocabulary_micro.Text.{Text, codes}
use vocabulary_micro.TextProcessor.Forms.{normalize_term, canonicalize_expression}
use vocabulary_micro.CandidateResolver.{normed}
use vocabulary_micro.TableBuilder.{
  TableRow, Table, phrasal_forms, PhrasalRows, heuristic_row, add_heuristic,
  append_heuristic_phrasal_rows,
}
use vocabulary_micro.TableBuilder.Numbers.{IsNumbered, IsNumbered-append}

abbrev forms_of : Table → List Text
forms_of [] = []
forms_of (r ∷ rs) = r.normalized ∷ forms_of rs

forms_of-append :
    (xs : Table) (r : TableRow) → forms_of (xs ++ r ∷ []) ≡ forms_of xs ++ r.normalized ∷ []
forms_of-append [] r = refl
forms_of-append (x ∷ xs) r = ap (λ ns. x.normalized ∷ ns) (forms_of-append xs r)

-- The new rows have distinct forms that the old table's phrasal verbs do not have, and `forms` holds
-- the forms of both.
pub record HasPhrases (old : Table) (forms : List Text) (new : Table) : Type 0 where
  pub rows : Table
  pub split : new ≡ old ++ rows
  pub numbered : IsNumbered new
  pub distinct : Distinct (forms_of rows)
  pub fresh : All (λ x. contains (phrasal_forms old) x ≡ false) (forms_of rows)
  pub known_forms :
      (x : Text) → contains forms x ≡ (contains (phrasal_forms old) x || contains (forms_of rows) x)

abbrev PhrasesOf : Table → PhrasalRows → Type 0
PhrasesOf old s = HasPhrases old s.forms s.table × (s.next_index ≡ length s.table + 1)

gains :
    (forms old rows : List Text) (c x : Text)
    → contains forms x ≡ (contains old x || contains rows x)
    → contains (c ∷ forms) x ≡ (contains old x || contains (rows ++ c ∷ []) x)
unfolding contains
gains forms old rows c x h = ground (arith, h, contains-append rows (c ∷ []) x)

add_heuristic-PhrasesOf :
    (known : List Text) (old : Table) (s : PhrasalRows) (p : Text)
    → PhrasesOf old s
    → PhrasesOf old (add_heuristic known s p)
unfolding add_heuristic
add_heuristic-PhrasesOf known old s p h =
    let c = canonicalize_expression p (codes "phrasal_verb") in
    let r = heuristic_row known c s.next_index in
    elim (Bool-cases (is_empty c)) [
      | inl e ↦ rw e h
      | inr e ↦ elim (Bool-cases (contains s.forms c)) [
        | inl f ↦ rw (e, f) h
        | inr f ↦
            let parts =
              ||_false (contains (phrasal_forms old) c) (contains (forms_of h.0.rows) c)
                (sym (h.0.known_forms c) ∙ f) in
            let forms : forms_of (h.0.rows ++ r ∷ []) ≡ forms_of h.0.rows ++ c ∷ [] =
              forms_of-append h.0.rows r in
            rw (e, f)
              (
                record {
                  rows = h.0.rows ++ r ∷ [];
                  split = ap (λ t. t ++ r ∷ []) h.0.split ∙ append_assoc old h.0.rows (r ∷ []);
                  numbered = IsNumbered-append s.table r h.0.numbered h.1;
                  distinct = rw forms (Distinct-concat (forms_of h.0.rows) c h.0.distinct parts.1);
                  fresh = rw forms (
                      All-append (λ x. contains (phrasal_forms old) x ≡ false) (forms_of h.0.rows)
                        (c ∷ []) h.0.fresh (parts.0, tt));
                  known_forms = λ x. rw forms (
                      gains s.forms (phrasal_forms old) (forms_of h.0.rows) c x
                        (h.0.known_forms x));
                },
                omega (arith, h.1, length-append s.table (r ∷ [])),
              )
      ]
    ]

-- The table has the canonical form of the phrase, if there is one.
abbrev IsListed : List Text → Text → Type 0
IsListed forms p =
    (is_empty (canonicalize_expression p (codes "phrasal_verb"))
      || contains forms (canonicalize_expression p (codes "phrasal_verb")))
    ≡ true

add_heuristic-keeps :
    (known : List Text) (s : PhrasalRows) (p x : Text)
    → contains s.forms x ≡ true
    → contains (add_heuristic known s p).forms x ≡ true
unfolding add_heuristic contains
add_heuristic-keeps known s p x h = ground (arith, h)

add_heuristic-IsListed :
    (known : List Text) (s : PhrasalRows) (p : Text) → IsListed (add_heuristic known s p).forms p
unfolding add_heuristic contains
add_heuristic-IsListed known s p =
    ground (arith, beq_refl (canonicalize_expression p (codes "phrasal_verb")))

fold-IsListed :
    (known : List Text) (ps : List Text) (s : PhrasalRows)
    → All (IsListed (fold (add_heuristic known) s ps).forms) ps
unfolding fold
fold-IsListed known [] s = tt
fold-IsListed known (p ∷ ps) s = (
  fold-invariant (add_heuristic known) (λ s. IsListed s.forms p) (λ q. Unit)
      (λ s q (u : Unit {0}) h. ground (
        arith,
        h,
        add_heuristic-keeps known s q (canonicalize_expression p (codes "phrasal_verb")),
      ))
      ps (All-unit ps) (add_heuristic known s p) (add_heuristic-IsListed known s p),
  fold-IsListed known ps (add_heuristic known s p),
)

abbrev begin_phrases : Table → PhrasalRows
begin_phrases table = record {
  table = table;
  next_index = length table + 1;
  forms = phrasal_forms table;
}

begun_phrases : (table : Table) → IsNumbered table → PhrasesOf table (begin_phrases table)
begun_phrases table h = (
  record {
    rows = [];
    split = sym (append-nil table);
    numbered = h;
    distinct = tt;
    fresh = tt;
    known_forms = λ x. unfold contains in ground arith;
  },
  refl,
)

-- To a numbered table `append_heuristic_phrasal_rows` appends numbered rows, one for the canonical
-- form of every phrase that has one, unless a row of a phrasal verb has that form; no form is
-- appended twice.
pub append_heuristic_phrasal_rows_lem :
    (known_terms : List Text) (table : Table) (ps : List Text)
    → IsNumbered table
    → (forms : List Text) × HasPhrases table forms
        (append_heuristic_phrasal_rows known_terms table ps)
      × All (IsListed forms) ps
unfolding append_heuristic_phrasal_rows
append_heuristic_phrasal_rows_lem known_terms table [] h =
    (phrasal_forms table, (begun_phrases table h).0, tt)
append_heuristic_phrasal_rows_lem known_terms table (p ∷ ps) h =
    let known = normed normalize_term known_terms in
    let start = begin_phrases table in
    let done =
      fold-invariant (add_heuristic known) (PhrasesOf table) (λ p. Unit)
        (λ s p u k. add_heuristic-PhrasesOf known table s p k) (p ∷ ps) (All-unit (p ∷ ps)) start
        (begun_phrases table h) in
    ((fold (add_heuristic known) start (p ∷ ps)).forms, done.0, fold-IsListed known (p ∷ ps) start)

-- The row has the form, as it stands or in its normal form.
abbrev has_form : Text → TableRow → Bool
has_form form r = r.normalized == form || normalize_term r.normalized == form

any-phrasal_forms :
    (table : Table) (form : Text)
    → contains (phrasal_forms table) form ≡ true
    → any (has_form form) table ≡ true
unfolding phrasal_forms contains
any-phrasal_forms [] form h = h
any-phrasal_forms (r ∷ table) form h = ground (arith, h, any-phrasal_forms table form)

any-forms_of :
    (table : Table) (form : Text)
    → contains (forms_of table) form ≡ true
    → any (has_form form) table ≡ true
unfolding contains
any-forms_of [] form h = h
any-forms_of (r ∷ table) form h = ground (arith, h, any-forms_of table form)

-- A row of the table has the canonical form of the phrase, if there is one.
abbrev pub HasRow : Table → Text → Type 0
HasRow table p =
    let form = canonicalize_expression p (codes "phrasal_verb") in
    (is_empty form || any (has_form form) table) ≡ true

pub append_heuristic_phrasal_rows-HasRow :
    (known_terms : List Text) (table : Table) (ps : List Text)
    → IsNumbered table
    → All (HasRow (append_heuristic_phrasal_rows known_terms table ps)) ps
append_heuristic_phrasal_rows-HasRow known_terms table ps h =
    let (forms, phrases, listed) = append_heuristic_phrasal_rows_lem known_terms table ps h in
    let new = append_heuristic_phrasal_rows known_terms table ps in
    All-map
      (λ p l.
        let form = canonicalize_expression p (codes "phrasal_verb") in
        let all_rows =
          ap (any (has_form form)) phrases.split ∙ any-append (has_form form) table phrases.rows in
        ground (
          arith,
          l,
          phrases.known_forms form,
          any-phrasal_forms table form,
          any-forms_of phrases.rows form,
          all_rows,
        ))
      ps listed

-- ===== src/TextProcessor/Forms/VerbHeads.antt =====
-- The verb heads of plain words, and the table of irregular forms.
use vocabulary_micro.Prelude.{
  ℕ, ◌-◌, ◌<◌, ◌≡◌, refl, ap, ◌∙◌, inl, inr, Bool, true, false, not, ◌&&◌, [], ◌∷◌, ◌++◌, arith,
  All, All-append, if◌then◌else◌, if_case, Option-cases, is_empty, length, take, ◌==◌,
  list_equality, nat_equality, none, some, lookup, lookup-all, all_values, list_beq, all, &&_true,
  list_beq_iff, ltb→lt, map,
}
use vocabulary_micro.Text.{Text, codes, is_space, lower, drop_last, join, first_part}
use vocabulary_micro.Text.Words.{runs-single, space_apart}
use vocabulary_micro.Text.Normal.{lower-append}
use vocabulary_micro.Text.Affix.{All-take, lower-take, length-drop_last, is_empty_of_pos}
use vocabulary_micro.TextProcessor.Patterns.{matches_word}
use vocabulary_micro.TextProcessor.Tables.{irregular_verb_heads}
use vocabulary_micro.TextProcessor.Forms.Terms.{normalize_term-eq-join}
use vocabulary_micro.TextProcessor.Forms.{
  undouble, ends_long, kept_singular, ends_with_any, base_of_ing, base_of_ed, regular_head,
  head_form, normalize_verb_head, normalize_term, sibilant_endings,
}

-- A word in lower case.
pub record IsPlain (w : Text) : Type 0 where
  pub filled : is_empty w ≡ false
  pub solid : All (λ c. is_space c ≡ false) w
  pub lowered : lower w ≡ w

drop_last-IsPlain : (n : ℕ) (w : Text) → n < length w → IsPlain w → IsPlain (drop_last n w)
drop_last-IsPlain n w h p = record {
  filled = is_empty_of_pos (drop_last n w) (omega (arith, length-drop_last n w));
  solid = unfold drop_last in All-take (λ c. is_space c ≡ false) (length w - n) w p.solid;
  lowered = unfold drop_last in lower-take (length w - n) w ∙ ap (take (length w - n)) p.lowered;
}

append-IsPlain : (w v : Text) → IsPlain w → IsPlain v → IsPlain (w ++ v)
append-IsPlain [] v p q = q
append-IsPlain (c ∷ w) v p q = record {
  filled = refl;
  solid = All-append (λ d. is_space d ≡ false) (c ∷ w) v p.solid q.solid;
  lowered = lower-append (c ∷ w) v ∙ rw (p.lowered, q.lowered);
}

literal-IsPlain_e : IsPlain (codes "e")
unfolding is_space lower
literal-IsPlain_e = record { filled = refl; solid = (refl, tt); lowered = refl }

literal-IsPlain_y : IsPlain (codes "y")
unfolding is_space lower
literal-IsPlain_y = record { filled = refl; solid = (refl, tt); lowered = refl }

undouble-IsPlain : (stem : Text) → IsPlain stem → IsPlain (undouble stem)
unfolding undouble
undouble-IsPlain stem p =
    if_case IsPlain _ (drop_last 1 stem) stem
      (λ h. drop_last-IsPlain 1 stem (omega (arith, ltb→lt 2 (length stem) (&&_true _ _ h).0)) p)
      (λ _. p)

base_of_ing-IsPlain : (stem : Text) → IsPlain stem → IsPlain (base_of_ing stem)
unfolding base_of_ing
base_of_ing-IsPlain stem p =
    if_case IsPlain _ (stem ++ codes "e") stem
      (λ _. append-IsPlain stem (codes "e") p literal-IsPlain_e) (λ _. p)

base_of_ed-IsPlain : (stem : Text) → 1 < length stem → IsPlain stem → IsPlain (base_of_ed stem)
unfolding base_of_ed
base_of_ed-IsPlain stem h p =
    if_case IsPlain _ (drop_last 1 stem ++ codes "y") stem
      (λ _.
        append-IsPlain (drop_last 1 stem) (codes "y") (drop_last-IsPlain 1 stem h p)
          literal-IsPlain_y)
      (λ _. p)

length-undouble : (stem : Text) → (2 < length stem) → 1 < length (undouble stem)
unfolding undouble
length-undouble stem h =
    if_case (λ t. 1 < length t) _ (drop_last 1 stem) stem
      (λ _. omega (arith, length-drop_last 1 stem)) (λ _. omega arith)

cut_y-IsPlain : (n : ℕ) (w : Text) → n < length w → IsPlain w → IsPlain (drop_last n w ++ codes "y")
cut_y-IsPlain n w h p =
    append-IsPlain (drop_last n w) (codes "y") (drop_last-IsPlain n w h p) literal-IsPlain_y

length-ends_long : (suffix : Text) (n : ℕ) (w : Text) → ends_long suffix n w ≡ true → n < length w
unfolding ends_long
length-ends_long suffix n w h = ltb→lt n (length w) (&&_true _ _ h).1

regular_head-IsPlain : (w : Text) → IsPlain w → IsPlain (regular_head w)
unfolding regular_head
regular_head-IsPlain w p =
    if_case IsPlain (ends_long (codes "ied") 4 w) _ _
      (λ h. cut_y-IsPlain 3 w (omega (arith, length-ends_long _ 4 w h)) p)
      (λ _.
        if_case IsPlain (ends_long (codes "ies") 4 w) _ _
          (λ h. cut_y-IsPlain 3 w (omega (arith, length-ends_long _ 4 w h)) p)
          (λ _.
            if_case IsPlain (ends_long (codes "ing") 5 w) _ _
              (λ h. base_of_ing-IsPlain _ (
                undouble-IsPlain _
                  (drop_last-IsPlain 3 w (omega (arith, length-ends_long _ 5 w h)) p)))
              (λ _.
                if_case IsPlain (ends_long (codes "ed") 4 w) _ _
                  (λ h.
                    base_of_ed-IsPlain _
                      (length-undouble (drop_last 2 w)
                        (omega (arith, length-ends_long _ 4 w h, length-drop_last 2 w)))
                      (undouble-IsPlain _
                        (drop_last-IsPlain 2 w (omega (arith, length-ends_long _ 4 w h)) p)))
                  (λ _.
                    if_case IsPlain (ends_long (codes "es") 4 w) _ _
                      (λ h. es_rule (length-ends_long _ 4 w h))
                      (λ _.
                        if_case IsPlain (ends_long (codes "s") 3 w && not (kept_singular w)) _ _
                          (λ h.
                            drop_last-IsPlain 1 w
                              (omega (arith, length-ends_long _ 3 w (&&_true _ _ h).0)) p)
                          (λ _. p))))))
  where
    es_rule :
        4 < length w
        → IsPlain (if ends_with_any sibilant_endings w then drop_last 2 w else drop_last 1 w)
    es_rule h =
        if_case IsPlain (ends_with_any sibilant_endings w) _ _
          (λ _. drop_last-IsPlain 2 w (omega arith) p) (λ _. drop_last-IsPlain 1 w (omega arith) p)

-- The test that every irregular form passes.
abbrev plain_test : Text → Bool
plain_test v = not (is_empty v) && (all (λ c. not (is_space c)) v && lower v == v)

all_solid : (v : Text) → all (λ c. not (is_space c)) v ≡ true → All (λ c. is_space c ≡ false) v
all_solid [] h = tt
all_solid (c ∷ v) h = (ground arith, all_solid v (&&_true _ _ h).1)

plain_test-IsPlain : (v : Text) → plain_test v ≡ true → IsPlain v
plain_test-IsPlain v h =
    let (filled, rest) = &&_true (not (is_empty v)) _ h in
    let (solid, lowered) = &&_true (all (λ c. not (is_space c)) v) _ rest in
    record {
      filled = ground arith;
      solid = all_solid v solid;
      lowered = (list_beq_iff nat_equality (lower v) v).0 lowered;
    }

irregular_plain : all_values plain_test irregular_verb_heads ≡ true
unfolding is_space lower list_beq
irregular_plain = refl

head_form-IsPlain : (w : Text) → IsPlain w → IsPlain (head_form w)
unfolding head_form
head_form-IsPlain w p = if_case IsPlain (matches_word w) _ w (λ _. chosen) (λ _. p)
  where
    chosen :
        IsPlain (elim (lookup irregular_verb_heads w) [ some base ↦ base | none ↦ regular_head w ])
    chosen = elim (Option-cases (lookup irregular_verb_heads w)) [
      | inl n ↦ rw n (regular_head-IsPlain w p)
      | inr (v, e) ↦
          rw e (
            plain_test-IsPlain v (lookup-all plain_test irregular_verb_heads w v irregular_plain e))
    ]

first_part_solid : (w : Text) → All (λ c. is_space c ≡ false) w → first_part w ≡ w
unfolding first_part
first_part_solid [] h = refl
first_part_solid (c ∷ w) h = rw (space_apart c h.0) (ap (◌∷◌ c) (first_part_solid w h.1))

normalize_term_plain : (w : Text) → IsPlain w → normalize_term w ≡ w
normalize_term_plain w p =
    normalize_term-eq-join w
    ∙ ap (λ ws. join (map lower ws))
        (runs-single is_space w (record { filled = p.filled; solid = p.solid }))
    ∙ unfold join in p.lowered

-- On a plain word the method is its suffix rules and its table.
normalize_verb_head_plain : (w : Text) → IsPlain w → normalize_verb_head w ≡ head_form w
unfolding normalize_verb_head
normalize_verb_head_plain w p = rw (normalize_term_plain w p, p.filled, first_part_solid w p.solid)

pub normalize_verb_head-IsPlain : (w : Text) → IsPlain w → IsPlain (normalize_verb_head w)
normalize_verb_head-IsPlain w p = rw (normalize_verb_head_plain w p) (head_form-IsPlain w p)

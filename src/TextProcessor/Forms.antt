-- ===== src/TextProcessor/Forms.antt =====
-- Normal forms of terms: `unique`, `normalize_lexeme`, `normalize_term`, `normalize_verb_head`,
-- `_looks_like_verb_form` and `canonicalize_expression` of `TextProcessor`.
pub mod Unique
pub mod Terms
pub mod Lexemes
pub mod VerbHeads
pub mod Canonical
use vocabulary_micro.Prelude.{
  ℕ, ◌+◌, ◌-◌, Bool, true, false, ◌&&◌, ◌||◌, not, List, [], ◌∷◌, ◌++◌, Option, none, some, ltb,
  ◌==◌, nat_equality, list_equality, HasEquality, if◌then◌else◌, length, get_elem?, is_empty,
  contains, lookup,
}
use vocabulary_micro.Text.{
  Text, codes, space, lower, strip, split_parts, join, collapse, first_part, ends_with, drop_last,
  replace_code,
}
use vocabulary_micro.TextProcessor.Tables.{irregular_verb_heads, phrasal_particles}
use vocabulary_micro.TextProcessor.Patterns.{matches_word}

module _ {ℓ} {A : Type ℓ} ⦃e : HasEquality A⦄ where
  -- The loop of `unique`; `seen` holds the items of `output`, newest first.
  unfoldable pub unique_from : List A → List A → List A
  unique_from seen [] = []
  unique_from seen (x ∷ xs) =
      let fresh = x ∷ unique_from (x ∷ seen) xs in
      let again = unique_from seen xs in if contains seen x then again else fresh

  unfoldable pub unique : List A → List A
  unfolding unique_from
  unique xs = unique_from [] xs

abbrev plural_exceptions : List Text
plural_exceptions =
    codes "this" ∷ codes "these" ∷ codes "those" ∷ codes "news" ∷ codes "always" ∷ []

-- The guard under which a lexeme loses its final "s".
unfoldable pub is_plural : Text → Bool
is_plural v =
    ends_with (codes "s") v
    && (not (ends_with (codes "ss") v) && (ltb 3 (length v) && not (contains plural_exceptions v)))

-- `raw` is a text; for None the method returns "", as for "".
unfoldable pub normalize_lexeme : Text → Text
unfolding is_plural
normalize_lexeme raw =
    let value = lower (strip raw) in if is_plural value then drop_last 1 value else value

unfoldable pub normalize_term : Text → Text
normalize_term raw = collapse (lower (strip raw))

-- The last character of a text and the one before it.
abbrev last_code : Text → Option ℕ
last_code s = get_elem? s (length s - 1)

abbrev last_but_one_code : Text → Option ℕ
last_but_one_code s = get_elem? s (length s - 2)

abbrev same_code : Option ℕ → Option ℕ → Bool
same_code (some a) (some b) = a == b
same_code a b = false

abbrev is_kept_double : Option ℕ → Bool
is_kept_double (some c) = contains (b's' ∷ b'l' ∷ b'z' ∷ []) c
is_kept_double none = false

-- A doubled final consonant loses its second half.
unfoldable pub undouble : Text → Text
undouble stem =
    if ltb 2 (length stem)
      && (same_code (last_code stem) (last_but_one_code stem)
          && not (is_kept_double (last_code stem)))
    then drop_last 1 stem
    else stem

abbrev pub ends_with_any : List Text → Text → Bool
ends_with_any [] s = false
ends_with_any (e ∷ es) s = ends_with e s || ends_with_any es s

abbrev pub sibilant_endings : List Text
sibilant_endings =
    codes "oes" ∷ codes "ses" ∷ codes "xes" ∷ codes "zes" ∷ codes "ches" ∷ codes "shes" ∷ []

unfoldable pub base_of_ing : Text → Text
base_of_ing stem =
    if ends_with_any (codes "at" ∷ codes "bl" ∷ codes "iz" ∷ []) stem
    then stem ++ codes "e"
    else stem

unfoldable pub base_of_ed : Text → Text
base_of_ed stem = if ends_with (codes "i") stem then drop_last 1 stem ++ codes "y" else stem

-- `head.endswith(suffix) and len(head) > n`
unfoldable pub ends_long : Text → ℕ → Text → Bool
ends_long suffix n head = ends_with suffix head && ltb n (length head)

abbrev pub kept_singular : Text → Bool
kept_singular head = contains (codes "this" ∷ codes "these" ∷ codes "those" ∷ []) head

-- The suffix rules of `normalize_verb_head`, for a head that is no irregular form.
unfoldable pub regular_head : Text → Text
unfolding undouble base_of_ing base_of_ed ends_long
regular_head head =
    if ends_long (codes "ied") 4 head
    then drop_last 3 head ++ codes "y"
    else if ends_long (codes "ies") 4 head
    then drop_last 3 head ++ codes "y"
    else if ends_long (codes "ing") 5 head
    then base_of_ing (undouble (drop_last 3 head))
    else if ends_long (codes "ed") 4 head
    then base_of_ed (undouble (drop_last 2 head))
    else if ends_long (codes "es") 4 head
    then (if ends_with_any sibilant_endings head then drop_last 2 head else drop_last 1 head)
    else if ends_long (codes "s") 3 head && not (kept_singular head)
    then drop_last 1 head
    else head

-- The method from `head` on; every form in the table is a non-empty text.
unfoldable pub head_form : Text → Text
unfolding regular_head
head_form head =
    if matches_word head
    then elim (lookup irregular_verb_heads head) [ some base ↦ base | none ↦ regular_head head ]
    else head

-- For an empty value both the value and its first part are "".
unfoldable pub normalize_verb_head : Text → Text
normalize_verb_head raw =
    let value = normalize_term raw in if is_empty value then [] else head_form (first_part value)

abbrev is_some {ℓ} : {A : Type ℓ} → Option A → Bool
is_some none = false
is_some (some a) = true

unfoldable pub looks_like_verb_form : Text → Bool
looks_like_verb_form word =
    not (is_empty word)
    && (matches_word word
        && (is_some (lookup irregular_verb_heads word)
            || ((ends_with (codes "ied") word || ends_with (codes "ies") word)
                && ltb 4 (length word))))

-- `parts[-1] in PHRASAL_PARTICLES`
unfoldable pub ends_in_particle : List Text → Bool
ends_in_particle [] = false
ends_in_particle (p ∷ []) = contains phrasal_particles p
ends_in_particle (p ∷ q ∷ ps) = ends_in_particle (q ∷ ps)

-- `" ".join(parts)` with `parts[0]` replaced by its verb head.
abbrev join_with_head : List Text → Text
join_with_head [] = []
join_with_head (p ∷ ps) = join (normalize_verb_head p ∷ ps)

abbrev has_two : List Text → Bool
has_two (p ∷ q ∷ ps) = true
has_two ps = false

abbrev pub phrasal_verb_type : Text
phrasal_verb_type = codes "phrasal_verb"

abbrev pub idiom_type : Text
idiom_type = codes "idiom"

-- `str(expression_type or "").strip().lower().replace("-", "_")`
unfoldable pub normalize_type : Text → Text
normalize_type t = replace_code 45 95 (lower (strip t))

abbrev join_verb_form : List Text → Text
join_verb_form [] = []
join_verb_form (p ∷ ps) =
    if looks_like_verb_form p then join (normalize_verb_head p ∷ ps) else join (p ∷ ps)

-- The choice by `normalized_type`, once the parts are known.
unfoldable pub canonical_parts : Text → Text → List Text → Text
unfolding ends_in_particle
canonical_parts value kind parts =
    if kind == phrasal_verb_type && has_two parts
    then join_with_head parts
    else if kind == idiom_type && has_two parts
    then join_verb_form parts
    else if has_two parts && ends_in_particle parts
    then join_with_head parts
    else value

-- An empty value has no parts, and the method returns "" for both.
unfoldable pub canonicalize_expression : Text → Text → Text
canonicalize_expression raw expression_type =
    let value = normalize_term raw in
    let parts = split_parts value in
    if is_empty value || is_empty parts
    then []
    else canonical_parts value (normalize_type expression_type) parts

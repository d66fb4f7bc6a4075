-- ===== src/MweDetector/Separable/Entries.antt =====
-- The options of a verb that `_detect_separable` groups, against the entries of the index.
use mathlib.Core.Path.{subst}
use vocabulary_micro.Prelude.{
  if_case, IsIn, All-IsIn, All-map, nat_beq_iff, ◌∷◌, ◌++◌, All-append, lookup-upsert, contains, ℕ,
  ◌≡◌, sym, true, Option, none, some, List, [], arith, All, fold-invariant, ◌==◌, nat_equality,
  list_equality, lookup,
}
use vocabulary_micro.Text.{Text, same_text}
use vocabulary_micro.MweDetector.Separable.{
  SeparableIndex, Options, add_option, group_by_verb, options_of,
}

pub all_contained : (ids : List ℕ) → All (λ id. contains ids id ≡ true) ids
unfolding contains
all_contained [] = tt
all_contained (x ∷ xs) =
    (ground (arith, nat_beq_iff x x), All-map (λ y h. ground (arith, h)) xs (all_contained xs))

-- Every option of a verb is an entry of the index.
unfoldable pub AreOptions : SeparableIndex → List (Text × Options) → Type 0
AreOptions index by_verb =
    (lemma : Text) → All (λ o. IsIn index ((lemma, o.0), o.1)) (options_of by_verb lemma)

one_more :
    (index : SeparableIndex) (entry : (Text × Text) × List ℕ) (o : Option Options)
    → IsIn index entry
    → All
        (λ (x : Text × List ℕ). IsIn index ((entry.0.0, x.0), x.1))
        (elim o [ some options ↦ options | none ↦ [] ])
    → All
        (λ (x : Text × List ℕ). IsIn index ((entry.0.0, x.0), x.1))
        (elim o [
          | some options ↦ options ++ (entry.0.1, entry.1) ∷ []
          | none ↦ (entry.0.1, entry.1) ∷ []
        ])
one_more index entry none here old = (here, tt)
one_more index entry (some options) here old =
    All-append (λ (x : Text × List ℕ). IsIn index ((entry.0.0, x.0), x.1)) options
      ((entry.0.1, entry.1) ∷ []) old (here, tt)

add_option-AreOptions :
    (index : SeparableIndex) (by_verb : List (Text × Options)) (entry : (Text × Text) × List ℕ)
    → IsIn index entry
    → AreOptions index by_verb
    → AreOptions index (add_option by_verb entry)
unfolding AreOptions add_option options_of
add_option-AreOptions index by_verb entry here old lemma =
    let more : Option Options → Options = λ o. elim o [
      | some options ↦ options ++ (entry.0.1, entry.1) ∷ []
      | none ↦ (entry.0.1, entry.1) ∷ []
    ] in
    let Kept : Text → Options → Type 0 =
      λ l options. All (λ (x : Text × List ℕ). IsIn index ((l, x.0), x.1)) options in
    let P : Option Options → Type 0 =
      λ o. Kept lemma (elim o [ some options ↦ options | none ↦ [] ]) in
    let found = lookup by_verb entry.0.0 in
    subst P (sym (lookup-upsert by_verb entry.0.0 more lemma)) (
      if_case P (entry.0.0 == lemma) (some (more found)) (lookup by_verb lemma)
        (λ b.
          subst (λ l. Kept l (more found)) ((same_text entry.0.0 lemma).0 b)
            (one_more index entry found here (old entry.0.0)))
        (λ b. old lemma))

pub group_by_verb-AreOptions : (index : SeparableIndex) → AreOptions index (group_by_verb index)
unfolding group_by_verb AreOptions options_of lookup
group_by_verb-AreOptions index =
    fold-invariant add_option (AreOptions index) (IsIn index)
      (λ by_verb entry here old. add_option-AreOptions index by_verb entry here old) index
      (All-IsIn index) [] (λ lemma. tt)

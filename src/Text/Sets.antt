-- ===== src/Text/Sets.antt =====
-- Python's `set` of strings, as the list of its elements, and `sorted` on it.
use vocabulary_micro.Prelude.{
  contains-sort, sort-Distinct, ◌≡◌, refl, sym, ap, ◌∙◌, inl, inr, Bool, true, false, ◌||◌, List,
  [], ◌∷◌, ◌++◌, arith, if◌then◌else◌, Bool-cases, All, sort, IsSorted, sort-IsSorted, ◌==◌,
  nat_equality, list_equality, pair_equality, contains, Distinct, contains-append, Distinct-concat,
}
use vocabulary_micro.Text.{Text, same_text}
use vocabulary_micro.Text.Order.{text_before, text_before-IsWeakOrder, text_before_total}

-- `set(xs)`
unfoldable pub to_set : List Text → List Text
to_set [] = []
to_set (x ∷ xs) = let rest = to_set xs in if contains rest x then rest else x ∷ rest

-- `xs.add(x)`
unfoldable pub set_add : List Text → Text → List Text
set_add xs x = if contains xs x then xs else xs ++ x ∷ []

-- `tuple(sorted(set(xs)))`
unfoldable pub sorted_set : List Text → List Text
sorted_set xs = sort text_before (to_set xs)

pub contains-to_set : (xs : List Text) (a : Text) → contains (to_set xs) a ≡ contains xs a
unfolding to_set contains
contains-to_set [] a = refl
contains-to_set (x ∷ xs) a =
    ground (arith, same_text x a, contains-to_set xs a, contains-to_set xs x)

pub to_set-Distinct : (xs : List Text) → Distinct (to_set xs)
unfolding to_set
to_set-Distinct [] = tt
to_set-Distinct (x ∷ xs) = elim (Bool-cases (contains (to_set xs) x)) [
  | inl h ↦ rw h (to_set-Distinct xs)
  | inr h ↦ rw h (h, to_set-Distinct xs)
]

pub contains-set_add :
    (xs : List Text) (x a : Text) → contains (set_add xs x) a ≡ (contains xs a || x == a)
unfolding set_add contains
contains-set_add xs x a = ground (arith, contains-append xs (x ∷ []) a, same_text x a)

pub set_add-Distinct : (xs : List Text) (x : Text) → Distinct xs → Distinct (set_add xs x)
unfolding set_add
set_add-Distinct xs x d = elim (Bool-cases (contains xs x)) [
  | inl h ↦ rw h d
  | inr h ↦ rw h (Distinct-concat xs x d h)
]

All-contains :
    (P : Text → Bool) (xs : List Text) (a : Text)
    → All (λ y. P y ≡ false) xs
    → contains xs a ≡ true
    → P a ≡ false
unfolding contains
All-contains P [] a h k = absurd (ground arith)
All-contains P (x ∷ xs) a h k = elim (Bool-cases (x == a)) [
  | inl e ↦ ap P (sym ((same_text x a).0 e)) ∙ h.0
  | inr e ↦ All-contains P xs a h.1 (ground (arith, k, e))
]

-- Sorted lists without repetitions that have the same elements are equal.
sorted_unique :
    (xs ys : List Text)
    → IsSorted text_before xs
    → IsSorted text_before ys
    → Distinct xs
    → Distinct ys
    → ((a : Text) → contains xs a ≡ contains ys a)
    → xs ≡ ys
unfolding contains
sorted_unique [] [] s t d e same = refl
sorted_unique [] (y ∷ ys) s t d e same = absurd (ground (arith, same y, same_text y y))
sorted_unique (x ∷ xs) [] s t d e same = absurd (ground (arith, same x, same_text x x))
sorted_unique (x ∷ xs) (y ∷ ys) s t d e same =
    let heads : x ≡ y = ground (
      arith,
      same x,
      same y,
      same_text x x,
      same_text y y,
      same_text x y,
      same_text y x,
      text_before_total x y,
      All-contains (λ z. text_before z y) ys x t.0,
      All-contains (λ z. text_before z x) xs y s.0,
    ) in
    let tails : xs ≡ ys =
      sorted_unique xs ys s.1 t.1 d.1 e.1
        (λ a. ground (arith, heads, same a, same_text x a, same_text y a, d.0, e.0)) in
    cc

-- `sorted` sees only which elements a set has.
pub sort_same_elements :
    (xs ys : List Text)
    → Distinct xs
    → Distinct ys
    → ((a : Text) → contains xs a ≡ contains ys a)
    → sort text_before xs ≡ sort text_before ys
sort_same_elements xs ys d e same =
    sorted_unique (sort text_before xs) (sort text_before ys)
      (sort-IsSorted text_before text_before-IsWeakOrder xs)
      (sort-IsSorted text_before text_before-IsWeakOrder ys) (sort-Distinct text_before xs d)
      (sort-Distinct text_before ys e)
      (λ a. contains-sort text_before xs a ∙ same a ∙ sym (contains-sort text_before ys a))

-- ===== src/AssignmentScanner/Missing/Laws.antt =====
-- What the missing words are.
use vocabulary_micro.Prelude.{
  ℕ, ◌+◌, ◌<◌, ◌≡◌, refl, sym, ap, ◌∙◌, inl, inr, Bool, true, ◌&&◌, ◌||◌, not, List, [], ◌∷◌,
  Option, none, some, arith, ltb, ◌==◌, nat_equality, list_equality, if◌then◌else◌, Bool-cases,
  Option-cases, length, upsert, lookup, lookup-upsert, sort, then_by, map, list_beq_iff, if_case,
  contains, Distinct, keys, upsert-Distinct, lookup_own, lookup_present, contains-keys-sort, All,
  All-map, All-both, All-of_map, All-sort, IsSorted, IsSorted-map, sort-IsSorted, IsWeakOrder,
  then_by-IsWeakOrder, descending-IsWeakOrder, by_key-IsWeakOrder,
}
use vocabulary_micro.Text.{Text}
use vocabulary_micro.Text.Order.{text_before, text_before-IsWeakOrder}
use vocabulary_micro.AssignmentScanner.Missing.{
  MissingWord, count_unknown, plus_one, item_before, missing_of, collect_missing_words,
}

-- How often `w` stands among the tokens as an unknown word of two characters or more.
pub unknown_occurrences : Text → List Text → List Bool → ℕ
unknown_occurrences w [] mask = 0
unknown_occurrences w (t ∷ ts) [] = 0
unknown_occurrences w (t ∷ ts) (known ∷ mask) =
    (if t == w && not (known || ltb (length t) 2) then 1 else 0) + unknown_occurrences w ts mask

abbrev counted : Option ℕ → ℕ
counted none = 0
counted (some n) = n

-- The counter holds, for each word, the number of its unknown occurrences.
count_unknown_lem :
    (counter : List (Text × ℕ)) (ts : List Text) (mask : List Bool) (w : Text)
    → counted (lookup (count_unknown counter ts mask) w)
      ≡ counted (lookup counter w) + unknown_occurrences w ts mask
unfolding count_unknown unknown_occurrences
count_unknown_lem counter [] mask w = omega arith
count_unknown_lem counter (t ∷ ts) [] w = omega arith
count_unknown_lem counter (t ∷ ts) (known ∷ mask) w =
    elim (Bool-cases (known || ltb (length t) 2)) [
      | inl h ↦ rw h (ground (arith, count_unknown_lem counter ts mask w))
      | inr h ↦ rw h (
          ground (
            arith,
            count_unknown_lem (upsert counter t plus_one) ts mask w,
            lookup-upsert counter t plus_one w,
            list_beq_iff nat_equality t w,
          ))
    ]

count_unknown-Distinct :
    (counter : List (Text × ℕ)) (ts : List Text) (mask : List Bool)
    → Distinct (keys counter)
    → Distinct (keys (count_unknown counter ts mask))
unfolding count_unknown
count_unknown-Distinct counter [] mask d = d
count_unknown-Distinct counter (t ∷ ts) [] d = d
count_unknown-Distinct counter (t ∷ ts) (known ∷ mask) d =
    if_case (λ c. Distinct (keys (count_unknown c ts mask))) (known || ltb (length t) 2) _ _
      (λ _. count_unknown-Distinct counter ts mask d)
      (λ _.
        count_unknown-Distinct (upsert counter t plus_one) ts mask
          (upsert-Distinct counter t plus_one d))

abbrev Positive : Text × ℕ → Type 0
Positive x = 0 < x.1

upsert-Positive :
    (m : List (Text × ℕ)) (t : Text) → All Positive m → All Positive (upsert m t plus_one)
unfolding upsert
upsert-Positive [] t h = (omega arith, tt)
upsert-Positive ((j, n) ∷ m) t h = elim (Bool-cases (j == t)) [
  | inl e ↦ rw e (omega arith, h.1)
  | inr e ↦ rw e (h.0, upsert-Positive m t h.1)
]

count_unknown-Positive :
    (counter : List (Text × ℕ)) (ts : List Text) (mask : List Bool)
    → All Positive counter
    → All Positive (count_unknown counter ts mask)
unfolding count_unknown
count_unknown-Positive counter [] mask h = h
count_unknown-Positive counter (t ∷ ts) [] h = h
count_unknown-Positive counter (t ∷ ts) (known ∷ mask) h =
    if_case (λ c. All Positive (count_unknown c ts mask)) (known || ltb (length t) 2) _ _
      (λ _. count_unknown-Positive counter ts mask h)
      (λ _.
        count_unknown-Positive (upsert counter t plus_one) ts mask (upsert-Positive counter t h))

-- The order of the results: by falling number of occurrences, then by term.
abbrev pub word_before : MissingWord → MissingWord → Bool
word_before = then_by (λ a b. ltb b.occurrences a.occurrences) (λ a b. text_before a.term b.term)

item_before-IsWeakOrder : IsWeakOrder item_before
item_before-IsWeakOrder =
    then_by-IsWeakOrder (descending-IsWeakOrder (λ x. x.1))
      (by_key-IsWeakOrder text_before (λ x. x.0) text_before-IsWeakOrder)

-- The terms of the results.
abbrev pub terms_of : List MissingWord → List Text
terms_of [] = []
terms_of (x ∷ xs) = x.term ∷ terms_of xs

module _ (text : Text) (tokens : List Text) (mask : List Bool) where
  items : List (Text × ℕ)
  items = count_unknown [] tokens mask

  items_own : All (λ x. lookup items x.0 ≡ some x.1) items
  unfolding items
  items_own = lookup_own items (count_unknown-Distinct [] tokens mask tt)

  items-lookup : (w : Text) → counted (lookup items w) ≡ unknown_occurrences w tokens mask
  unfolding items
  items-lookup w = count_unknown_lem [] tokens mask w ∙ unfold lookup in omega arith

  Exact : MissingWord → Type 0
  Exact x = (x.occurrences ≡ unknown_occurrences x.term tokens mask) × (0 < x.occurrences)

  terms-keys : (xs : List (Text × ℕ)) → terms_of (map (missing_of text) xs) ≡ keys xs
  terms-keys [] = refl
  terms-keys (x ∷ xs) = ap (◌∷◌ x.0) (terms-keys xs)

  items-Positive : All Positive items
  unfolding items
  items-Positive = count_unknown-Positive [] tokens mask tt

  items-Exact : All (λ x. Exact (missing_of text x)) items
  unfolding Exact
  items-Exact =
      All-map (λ x h. (sym (ap counted h.0) ∙ items-lookup x.0, h.1)) items
        (All-both (λ x. lookup items x.0 ≡ some x.1) Positive items items_own items-Positive)

  present : (w : Text) → 0 < counted (lookup items w) → contains (keys items) w ≡ true
  present w h = elim (Option-cases (lookup items w)) [
    | inl n ↦ absurd (omega (arith, ap counted n))
    | inr (v, e) ↦ lookup_present items w v e
  ]

-- For every text, tokens and mask: the results are in the order of falling occurrences and then of
-- terms; each is a word of two characters or more with its number of unknown occurrences, which is
-- not 0; and every word of two characters or more with an unknown occurrence is among them.
pub collect_missing_words_lem :
    (text : Text) (tokens : List Text) (mask : List Bool)
    → let found = collect_missing_words text tokens mask in
      IsSorted word_before found
      × All
          (λ x. (x.occurrences ≡ unknown_occurrences x.term tokens mask) × (0 < x.occurrences))
          found
      × ((w : Text) → 0 < unknown_occurrences w tokens mask → contains (terms_of found) w ≡ true)
unfolding collect_missing_words items Exact
collect_missing_words_lem text tokens mask = (
  IsSorted-map word_before (missing_of text) _ (
      unfold then_by in sort-IsSorted item_before item_before-IsWeakOrder (items text tokens mask)),
  All-of_map (Exact text tokens mask) (missing_of text) _ (
      All-sort item_before (λ x. Exact text tokens mask (missing_of text x)) _
        (items-Exact text tokens mask)),
  λ w h.
      rw
        (
          terms-keys text tokens mask (sort item_before (items text tokens mask)),
          contains-keys-sort item_before (items text tokens mask) w,
        )
        (present text tokens mask w (omega (arith, items-lookup text tokens mask w))),
)

-- ===== src/IndexProvider/Build.antt =====
-- The index that index_provider.py extends entry by entry against the index it builds at once.
use vocabulary_micro.Prelude.{
  contains-sort, ℕ, ◌≡◌, refl, sym, ap, ◌∙◌, inl, inr, Bool, List, [], ◌∷◌, ◌++◌, arith, Bool-cases,
  fold, fold-append, sort, HasEquality, ◌==◌, nat_equality, list_equality, pair_equality, contains,
  Distinct, upsert,
}
use vocabulary_micro.Text.{Text}
use vocabulary_micro.Text.Order.{text_before}
use vocabulary_micro.Text.Sets.{
  to_set, set_add, contains-to_set, to_set-Distinct, contains-set_add, set_add-Distinct,
  sort_same_elements,
}
use vocabulary_micro.IndexProvider.Pieces.{pieces}
use vocabulary_micro.IndexProvider.{
  LexiconEntry, Maps, empty_maps, add_category, add_pieces, map_values, index_entry,
  snapshot_from_maps, build_snapshot, maps_of, apply_entries_to_snapshot,
}

-- Two sets with the same elements.
abbrev SameSets : List Text → List Text → Type 0
SameSets v w = Distinct v × Distinct w × ((a : Text) → contains v a ≡ contains w a)

-- Two dictionaries with the same keys in the same order, and sets with the same elements.
abbrev SameItems : {K : Type 0} → List (K × List Text) → List (K × List Text) → Type 0
SameItems [] [] = Unit
SameItems [] (y ∷ n) = ⊥
SameItems (x ∷ m) [] = ⊥
SameItems (x ∷ m) (y ∷ n) = (x.0 ≡ y.0) × SameSets x.1 y.1 × SameItems m n

set_add-SameSets :
    (v w : List Text) (c : Text) → SameSets v w → SameSets (set_add v c) (set_add w c)
set_add-SameSets v w c h = (
  set_add-Distinct v c h.0,
  set_add-Distinct w c h.1,
  λ a. ground (arith, contains-set_add v c a, contains-set_add w c a, h.2 a),
)

module _ {K : Type 0} where
  sort-SameItems :
      (m n : List (K × List Text))
      → SameItems m n
      → map_values (sort text_before) m ≡ map_values (sort text_before) n
  unfolding map_values
  sort-SameItems [] [] h = refl
  sort-SameItems [] (y ∷ n) h = absurd h
  sort-SameItems (x ∷ m) [] h = absurd h
  sort-SameItems (x ∷ m) (y ∷ n) h =
      let keys : x.0 ≡ y.0 = h.0 in
      let sets = sort_same_elements x.1 y.1 h.1.0 h.1.1 h.1.2 in
      let rest = sort-SameItems m n h.2 in cc

  add_category-SameItems :
      ⦃e : HasEquality K⦄ (m n : List (K × List Text)) (k : K) (c : Text)
      → SameItems m n
      → SameItems (add_category m k c) (add_category n k c)
  unfolding add_category upsert
  add_category-SameItems [] [] k c h = (refl, set_add-SameSets [] [] c (tt, tt, λ a. refl), tt)
  add_category-SameItems [] (y ∷ n) k c h = absurd h
  add_category-SameItems (x ∷ m) [] k c h = absurd h
  add_category-SameItems ⦃e⦄ (x ∷ m) (y ∷ n) k c h = elim (Bool-cases (x.0 == k)) [
    | inl b ↦ rw (b, ap (λ j. j == k) (sym h.0) ∙ b) (h.0, set_add-SameSets x.1 y.1 c h.1, h.2)
    | inr b ↦ rw (b, ap (λ j. j == k) (sym h.0) ∙ b) (h.0, h.1, add_category-SameItems m n k c h.2)
  ]

  -- The sets of a dictionary, as they are kept sorted and read back into sets.
  sets_of_sorted-SameItems :
      (m n : List (K × List Text))
      → SameItems m n
      → SameItems m (map_values to_set (map_values (sort text_before) n))
  unfolding map_values
  sets_of_sorted-SameItems [] [] h = tt
  sets_of_sorted-SameItems [] (y ∷ n) h = absurd h
  sets_of_sorted-SameItems (x ∷ m) [] h = absurd h
  sets_of_sorted-SameItems (x ∷ m) (y ∷ n) h = (
    h.0,
    (
      h.1.0,
      to_set-Distinct (sort text_before y.1),
      λ a. ground (
        arith,
        h.1.2 a,
        contains-to_set (sort text_before y.1) a,
        contains-sort text_before y.1 a,
      ),
    ),
    sets_of_sorted-SameItems m n h.2,
  )

abbrev SameMaps : Maps → Maps → Type 0
SameMaps m n = SameItems m.singles n.singles × SameItems m.multis n.multis

add_pieces-SameMaps :
    (m n : Maps) (ps : List Text) (c : Text)
    → SameMaps m n
    → SameMaps (add_pieces m ps c) (add_pieces n ps c)
unfolding add_pieces
add_pieces-SameMaps m n [] c h = h
add_pieces-SameMaps m n (p ∷ []) c h = (add_category-SameItems m.singles n.singles p c h.0, h.1)
add_pieces-SameMaps m n (p ∷ q ∷ ps) c h =
    (h.0, add_category-SameItems m.multis n.multis (p ∷ q ∷ ps) c h.1)

module _ (is_letter : ℕ → Bool) where
  fold-SameMaps :
      (m n : Maps) (entries : List LexiconEntry)
      → SameMaps m n
      → SameMaps (fold (index_entry is_letter) m entries) (fold (index_entry is_letter) n entries)
  unfolding fold index_entry
  fold-SameMaps m n [] h = h
  fold-SameMaps m n (x ∷ entries) h =
      fold-SameMaps (index_entry is_letter m x) (index_entry is_letter n x) entries
        (add_pieces-SameMaps m n (pieces is_letter x.value) x.category h)

module _ (is_letter : ℕ → Bool) (sha1 : Text → Text) where
  snapshot_SameMaps :
      (m n : Maps) (version : ℕ)
      → SameMaps m n
      → snapshot_from_maps is_letter sha1 m version ≡ snapshot_from_maps is_letter sha1 n version
  unfolding snapshot_from_maps
  snapshot_SameMaps m n version h =
      let singles = sort-SameItems m.singles n.singles h.0 in
      let multis = sort-SameItems m.multis n.multis h.1 in cc

  -- The index that is extended by entries is the index that is built at once from the old entries
  -- and the new ones: the incremental update and the rebuild give the same snapshot.
  pub apply_entries_to_snapshot-build_snapshot :
      (entries new_entries : List LexiconEntry) (version new_version : ℕ)
      → apply_entries_to_snapshot is_letter sha1
          (build_snapshot is_letter sha1 entries version)
          new_entries
          new_version
        ≡ build_snapshot is_letter sha1 (entries ++ new_entries) new_version
  unfolding apply_entries_to_snapshot build_snapshot
  apply_entries_to_snapshot-build_snapshot entries new_entries version new_version =
      let built = fold (index_entry is_letter) empty_maps entries in
      let reread = maps_of (snapshot_from_maps is_letter sha1 built version) in
      let same : SameMaps built built =
        fold-SameMaps is_letter empty_maps empty_maps entries (tt, tt) in
      let start : SameMaps built reread =
        (unfold snapshot_from_maps in
          unfold maps_of in
          (
            sets_of_sorted-SameItems built.singles built.singles same.0,
            sets_of_sorted-SameItems built.multis built.multis same.1,
          )) in
      rw (fold-append (index_entry is_letter) empty_maps entries new_entries) (
        sym (
          snapshot_SameMaps (fold (index_entry is_letter) built new_entries)
            (fold (index_entry is_letter) reread new_entries) new_version
            (fold-SameMaps is_letter built reread new_entries start)))

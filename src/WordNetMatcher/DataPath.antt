-- ===== src/WordNetMatcher/DataPath.antt =====
-- `_configure_local_nltk_data` of wordnet_matcher.py: the directories that nltk searches, the
-- project's own first. Without nltk it does nothing. `normcase` stands for
-- `os.path.normcase(os.path.abspath(p))`, `pathsep` for `os.pathsep`.
use vocabulary_micro.Prelude.{
  ℕ, ◌≡◌, refl, inl, inr, ◌||◌, some, List, [], ◌∷◌, ◌++◌, map, arith, if◌then◌else◌, Bool-cases,
  get_elem?, is_empty, ◌==◌, nat_equality, list_equality, pair_equality, contains,
}
use vocabulary_micro.Text.{Text, same_text, strip, runs}

-- `[item.strip() for item in items if item.strip()]`
unfoldable stripped_paths : List Text → List Text
stripped_paths [] = []
stripped_paths (p ∷ ps) =
    let rest = stripped_paths ps in if is_empty (strip p) then rest else strip p ∷ rest

module _ (normcase : Text → Text) (pathsep : ℕ) where
  -- The loop over the merged paths; `seen` holds the normal forms of the paths that are kept.
  unfoldable unique_paths : List Text → List Text → List Text
  unique_paths seen [] = []
  unique_paths seen (p ∷ ps) =
      let again = unique_paths seen ps in
      let fresh = p ∷ unique_paths (normcase p ∷ seen) ps in
      if contains seen (normcase p) then again else fresh

  -- `os.pathsep.join(paths)`
  unfoldable join_paths : List Text → Text
  join_paths [] = []
  join_paths (p ∷ []) = p
  join_paths (p ∷ q ∷ ps) = p ++ pathsep ∷ join_paths (q ∷ ps)

  -- What becomes of the variable NLTK_DATA, whose value is `env`, and of `nltk.data.path`. The
  -- parts of a text between separators are its runs, since blank parts are left out.
  unfoldable configure_local_nltk_data : Text → Text → List Text → Text × List Text
  configure_local_nltk_data local env runtime =
      let env_paths = stripped_paths (runs (λ c. c == pathsep) (strip env)) in
      let paths = unique_paths [] (local ∷ env_paths ++ stripped_paths runtime) in
      (join_paths paths, paths)

  -- With the paths kept so far, each normal form of a path occurs once.
  unique_paths-contains :
      (seen ps : List Text) (k : Text)
      → (contains seen k || contains (map normcase (unique_paths seen ps)) k)
        ≡ (contains seen k || contains (map normcase ps) k)
  unfolding unique_paths contains
  unique_paths-contains seen [] k = refl
  unique_paths-contains seen (p ∷ ps) k = elim (Bool-cases (contains seen (normcase p))) [
    | inl h ↦ rw h (ground (arith, same_text (normcase p) k, unique_paths-contains seen ps k))
    | inr h ↦ rw h (ground (arith, unique_paths-contains (normcase p ∷ seen) ps k))
  ]

  -- nltk searches the project's own directory first, and each directory that any of the three
  -- sources names.
  configure_local_nltk_data-contains :
      (local env : Text) (runtime : List Text) (k : Text)
      → (let paths = (configure_local_nltk_data local env runtime).1 in
          (get_elem? paths 0 ≡ some local)
          × (contains (map normcase paths) k
              ≡ contains
                  (map normcase (
                    local ∷ stripped_paths (runs (λ c. c == pathsep) (strip env))
                    ++ stripped_paths runtime))
                  k))
  unfolding configure_local_nltk_data unique_paths contains
  configure_local_nltk_data-contains local env runtime k = (
    refl,
    unfold contains in
        unique_paths-contains []
          (local ∷ stripped_paths (runs (λ c. c == pathsep) (strip env)) ++ stripped_paths runtime)
          k,
  )

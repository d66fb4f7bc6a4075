-- ===== src/MweIndex/Serve.antt =====
-- What the cache of the provider gives its caller.
use vocabulary_micro.Prelude.{
  ℕ, ◌≡◌, refl, ap, ◌∙◌, inl, inr, Bool, true, ◌&&◌, Option, none, some, arith, nat_beq_iff,
  Bool-cases, ◌==◌, nat_equality, list_equality, pair_equality,
}
use vocabulary_micro.Text.{Text, same_text}
use vocabulary_micro.MweIndex.{build_mwe_snapshot, same_revision, is_current, get_mwe_snapshot}
use vocabulary_micro.MweIndex.Records.{Tables, MweIndexSnapshot}

same_revision_iff :
    (is_letter : ℕ → Bool) (sha1 : Text → Text) (decimal : ℕ → Text) (o u : Option Text)
    → same_revision is_letter sha1 decimal o u ≡ true
    → o ≡ u
same_revision_iff is_letter sha1 decimal none none h = refl
same_revision_iff is_letter sha1 decimal none (some y) h = ground (arith, h)
same_revision_iff is_letter sha1 decimal (some x) none h = ground (arith, h)
same_revision_iff is_letter sha1 decimal (some x) (some y) h = ap some ((same_text x y).0 h)

module _ (is_letter : ℕ → Bool) (sha1 : Text → Text) (decimal : ℕ → Text) (store : ℕ → Tables) where
  -- The snapshot of the tables at a version.
  abbrev pub fresh_snapshot : ℕ → Text → Option Text → MweIndexSnapshot
  fresh_snapshot version name revision =
      build_mwe_snapshot is_letter sha1 decimal (store version) version name revision

  -- A cache that is empty, or has the snapshot of some version.
  abbrev pub IsTrue : Option MweIndexSnapshot → Type 0
  IsTrue none = Unit
  IsTrue (some s) = s ≡ fresh_snapshot s.version s.model_name s.model_revision

  build-IsTrue :
      (version : ℕ) (name : Text) (revision : Option Text)
      → IsTrue (some (fresh_snapshot version name revision))
  unfolding build_mwe_snapshot
  build-IsTrue version name revision = refl

  -- With a cache that is empty or has the snapshot of the tables at some version, and loaders that
  -- give the tables at the current version, get_snapshot gives the snapshot of these for the model
  -- that is asked for, and keeps it.
  pub get_mwe_snapshot-IsTrue :
      (cache : Option MweIndexSnapshot) (version : ℕ) (name : Text) (revision : Option Text)
      → IsTrue cache
      → (let r =
            get_mwe_snapshot is_letter sha1 decimal cache version (store version) name revision in
          (r.1 ≡ fresh_snapshot version name revision)
          × (r.0 ≡ some (fresh_snapshot version name revision))
          × IsTrue r.0)
  unfolding get_mwe_snapshot
  get_mwe_snapshot-IsTrue none version name revision h =
      (refl, refl, build-IsTrue version name revision)
  get_mwe_snapshot-IsTrue (some s) version name revision h =
      elim (Bool-cases (is_current is_letter sha1 decimal s version name revision)) [
        | inl c ↦
            let c' : (s.version == version
                  && (s.model_name == name
                      && same_revision is_letter sha1 decimal s.model_revision revision))
                ≡ true =
              (unfold is_current in c) in
            let v : s.version ≡ version = (nat_beq_iff s.version version).0 (ground (arith, c')) in
            let n : s.model_name ≡ name = (same_text s.model_name name).0 (ground (arith, c')) in
            let r : s.model_revision ≡ revision =
              same_revision_iff is_letter sha1 decimal s.model_revision revision
                (ground (arith, c')) in
            let own : s ≡ fresh_snapshot version name revision = h ∙ cc in
            rw c (own, ap some own, h)
        | inr c ↦ rw c (refl, refl, build-IsTrue version name revision)
      ]

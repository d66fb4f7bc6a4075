-- ===== src/IndexProvider/Provider/Store.antt =====
-- The provider of index_provider.py against the lexicon it indexes: `store v` are the entries of the
-- lexicon at its version `v`.
use vocabulary_micro.Prelude.{
  ℕ, ◌≤◌, ◌≡◌, refl, sym, ap, ◌∙◌, Bool, true, false, ◌&&◌, ◌||◌, not, Option, none, some, List, [],
  ◌∷◌, ◌++◌, append-nil, append_assoc, arith, leb, if_case, is_empty, nat_equality, list_equality,
  pair_equality,
}
use vocabulary_micro.Text.{Text}
use vocabulary_micro.IndexProvider.{
  snapshot_from_maps, LexiconEntry, LexiconIndexSnapshot, build_snapshot, apply_entries_to_snapshot,
}
use vocabulary_micro.IndexProvider.Build.{apply_entries_to_snapshot-build_snapshot}
use vocabulary_micro.IndexProvider.Provider.{
  LexiconIndexProvider, can_rebuild, invalidate, version_or, later_version, maybe_apply_pending,
  apply_entry,
}

abbrev pub provider :
    ℕ → ℕ → List LexiconEntry → Option ℕ → Option LexiconIndexSnapshot → LexiconIndexProvider
provider d l xs w o = record {
  cached = o;
  rebuild_debounce = d;
  last_rebuild = l;
  pending_entries = xs;
  pending_version = w;
}

-- The version that a provider's snapshot has when its pending entries are applied.
abbrev latest_version : Option ℕ → Option LexiconIndexSnapshot → Option ℕ
latest_version w none = none
latest_version w (some s) = some (version_or w s.version)

module _ (is_letter : ℕ → Bool) (sha1 : Text → Text) (store : ℕ → List LexiconEntry) where
  -- The index of the lexicon at a version.
  abbrev pub current_index : ℕ → LexiconIndexSnapshot
  current_index v = build_snapshot is_letter sha1 (store v) v

  abbrev HoldsEntries : Option LexiconIndexSnapshot → ℕ → List LexiconEntry → Option ℕ → Type 0
  HoldsEntries none debounce entries version = (entries ≡ []) × (version ≡ none)
  HoldsEntries (some s) debounce entries version =
      (s ≡ current_index s.version)
      × (store (version_or version s.version) ≡ store s.version ++ entries)
      × (debounce ≡ 0 → entries ≡ [])
      × (is_empty entries ≡ true → version ≡ none)

  -- A snapshot indexes the lexicon at the version it carries, and the pending entries lead from
  -- there to the latest version the provider knows; without a snapshot or without a debounce
  -- period nothing is pending.
  abbrev pub IsIndexed : LexiconIndexProvider → Type 0
  IsIndexed p = HoldsEntries p.cached p.rebuild_debounce p.pending_entries p.pending_version

  invalidate-IsIndexed : (p : LexiconIndexProvider) → IsIndexed (invalidate p)
  unfolding invalidate
  invalidate-IsIndexed p = (refl, refl)

  apply_entries-IsIndexed :
      (s : LexiconIndexSnapshot) (entries : List LexiconEntry) (v : ℕ)
      → s ≡ current_index s.version
      → store v ≡ store s.version ++ entries
      → apply_entries_to_snapshot is_letter sha1 s entries v ≡ current_index v
  apply_entries-IsIndexed s entries v h k =
      ap (λ t. apply_entries_to_snapshot is_letter sha1 t entries v) h
      ∙ apply_entries_to_snapshot-build_snapshot is_letter sha1 (store s.version) entries s.version
          v
      ∙ ap (λ es. build_snapshot is_letter sha1 es v) (sym k)

  version-current_index : (v : ℕ) → (current_index v).version ≡ v
  version-current_index v = (unfold build_snapshot in unfold snapshot_from_maps in refl)

  -- To prove it of a provider, by the snapshot it has.
  pub by_snapshot :
      (P : LexiconIndexProvider → Type 0)
      → ((d l : ℕ) (xs : List LexiconEntry) (w : Option ℕ) (o : Option LexiconIndexSnapshot)
          → P (provider d l xs w o))
      → (p : LexiconIndexProvider) → P p
  by_snapshot P f p =
      f p.rebuild_debounce p.last_rebuild p.pending_entries p.pending_version p.cached

  pub indexed_version :
      (v : ℕ) (t : LexiconIndexSnapshot) → t ≡ current_index v → t ≡ current_index t.version
  indexed_version v t h =
      h
      ∙ ap current_index
          (sym (ap (λ (u : LexiconIndexSnapshot). u.version) h ∙ version-current_index v))

  pub nothing_pending : (t : LexiconIndexSnapshot) → store t.version ≡ store t.version ++ []
  nothing_pending t = sym (append-nil (store t.version))

  pending-IsIndexed :
      (now : ℕ) (force : Bool) (d l : ℕ) (xs : List LexiconEntry) (w : Option ℕ)
      (o : Option LexiconIndexSnapshot)
      → IsIndexed (provider d l xs w o)
      → IsIndexed (maybe_apply_pending is_letter sha1 (provider d l xs w o) now force)
  unfolding maybe_apply_pending
  pending-IsIndexed now force d l xs w none h = h
  pending-IsIndexed now force d l xs w (some s) h =
      let t = apply_entries_to_snapshot is_letter sha1 s xs (version_or w s.version) in
      if_case IsIndexed
        (is_empty xs || not force && not (can_rebuild (provider d l xs w (some s)) now))
        (provider d l xs w (some s)) (provider d now [] none (some t)) (λ c. h)
        (λ c. (
          indexed_version (version_or w s.version) t
              (apply_entries-IsIndexed s xs (version_or w s.version) h.0 h.1),
          nothing_pending t,
          λ z. refl,
          λ z. refl,
        ))

  pub maybe_apply_pending-IsIndexed :
      (p : LexiconIndexProvider) (now : ℕ) (force : Bool)
      → IsIndexed p
      → IsIndexed (maybe_apply_pending is_letter sha1 p now force)
  maybe_apply_pending-IsIndexed p now force =
      by_snapshot (λ q. IsIndexed q → IsIndexed (maybe_apply_pending is_letter sha1 q now force))
        (pending-IsIndexed now force) p

  later_version_lem :
      (new_version v : ℕ) (w : Option ℕ)
      → version_or w v ≤ new_version
      → later_version new_version w ≡ new_version
  later_version_lem new_version v none h = omega arith
  later_version_lem new_version v (some w) h = ground arith

  not_empty : (xs : List LexiconEntry) (x : LexiconEntry) → is_empty (xs ++ x ∷ []) ≡ true → ⊥
  not_empty [] x h = ground arith
  not_empty (y ∷ xs) x h = ground arith

  entry-IsIndexed :
      (entry : LexiconEntry) (new_version now : ℕ) (d l : ℕ) (xs : List LexiconEntry) (w : Option ℕ)
      (o : Option LexiconIndexSnapshot)
      → ((v : ℕ) → latest_version w o ≡ some v → v ≤ new_version)
      → ((v : ℕ) → latest_version w o ≡ some v → store new_version ≡ store v ++ entry ∷ [])
      → IsIndexed (provider d l xs w o)
      → IsIndexed (apply_entry is_letter sha1 (provider d l xs w o) entry new_version now)
  unfolding apply_entry
  entry-IsIndexed entry new_version now d l xs w none k g h = h
  entry-IsIndexed entry new_version now d l xs w (some s) k g h =
      let v = version_or w s.version in
      let t = apply_entries_to_snapshot is_letter sha1 s (entry ∷ []) new_version in
      let xs' = xs ++ entry ∷ [] in
      let w' = some (later_version new_version w) in
      let later = later_version_lem new_version s.version w (k v refl) in
      let reached : store new_version ≡ store s.version ++ xs' =
        g v refl
        ∙ ap (λ es. es ++ entry ∷ []) h.1
        ∙ append_assoc (store s.version) xs (entry ∷ []) in
      if_case IsIndexed (leb d 0) (provider d l xs w (some t))
        (maybe_apply_pending is_letter sha1 (provider d l xs' w' (some s)) now false)
        (λ c.
          let nil : xs ≡ [] = h.2 (ground (arith, c)) in
          let no_version : w ≡ none = h.3 (ap is_empty nil) in
          (
            indexed_version new_version t (
                apply_entries-IsIndexed s (entry ∷ []) new_version h.0
                  (reached ∙ ap (λ ys. store s.version ++ (ys ++ entry ∷ [])) nil)),
            ap (λ y. store (version_or y t.version)) no_version
                ∙ nothing_pending t
                ∙ ap (λ ys. store t.version ++ ys) (sym nil),
            λ z. nil,
            λ z. no_version,
          ))
        (λ c. pending-IsIndexed now false d l xs' w' (some s) (
          h.0,
          ap store later ∙ reached,
          λ z. absurd (ground (arith, c)),
          λ z. absurd (not_empty xs entry z),
        ))

  -- An entry that the lexicon got at its next version keeps the index true to the lexicon,
  -- whether it is indexed at once or waits; without a snapshot nothing changes.
  pub apply_entry-IsIndexed :
      (p : LexiconIndexProvider) (entry : LexiconEntry) (new_version now : ℕ)
      → ((v : ℕ) → latest_version p.pending_version p.cached ≡ some v → v ≤ new_version)
      → ((v : ℕ)
          → latest_version p.pending_version p.cached ≡ some v
          → store new_version ≡ store v ++ entry ∷ [])
      → IsIndexed p
      → IsIndexed (apply_entry is_letter sha1 p entry new_version now)
  apply_entry-IsIndexed p entry new_version now =
      entry-IsIndexed entry new_version now p.rebuild_debounce p.last_rebuild p.pending_entries
        p.pending_version p.cached

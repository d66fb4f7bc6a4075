-- ===== src/IndexProvider/Provider/Serve.antt =====
-- What `get_snapshot` of index_provider.py gives its caller.
use vocabulary_micro.Prelude.{
  ℕ, ◌≡◌, refl, sym, ap, ◌∙◌, ◌⊎◌, inl, inr, Bool, true, false, ◌||◌, not, Option, none, some, List,
  [], ◌∷◌, ◌++◌, arith, nat_beq_iff, Bool-cases, if_case, ◌==◌, nat_equality, list_equality,
  pair_equality,
}
use vocabulary_micro.Text.{Text}
use vocabulary_micro.IndexProvider.{LexiconEntry, LexiconIndexSnapshot}
use vocabulary_micro.IndexProvider.Provider.{
  LexiconIndexProvider, can_rebuild, version_or, maybe_apply_pending, rebuild, serve, get_snapshot,
}
use vocabulary_micro.IndexProvider.Provider.Store.{
  provider, by_snapshot, current_index, IsIndexed, nothing_pending, indexed_version,
  maybe_apply_pending-IsIndexed,
}

module _ (is_letter : ℕ → Bool) (sha1 : Text → Text) (store : ℕ → List LexiconEntry) where
  -- No entry waits once a rebuild is allowed.
  abbrev IsSettled : LexiconIndexProvider → ℕ → Type 0
  IsSettled p now = can_rebuild p now ≡ true → (p.pending_entries ≡ []) × (p.pending_version ≡ none)

  abbrev pub IsServed :
      ℕ → ℕ → LexiconIndexProvider → LexiconIndexProvider × LexiconIndexSnapshot × Bool → Type 0
  IsServed current_version second p r =
      IsIndexed is_letter sha1 store r.0
      × (r.1 ≡ current_index is_letter sha1 store r.1.version)
      × ((r.1 ≡ current_index is_letter sha1 store current_version)
          ⊎ (can_rebuild p second ≡ false))

  rebuild_state :
      (current_version second third : ℕ) (p : LexiconIndexProvider)
      → p.pending_entries ≡ []
      → p.pending_version ≡ none
      → IsServed current_version second p
          (rebuild is_letter sha1 p current_version (store current_version) third)
  unfolding rebuild
  rebuild_state current_version second third p nil no_version =
      let t = current_index is_letter sha1 store current_version in
      let own = indexed_version is_letter sha1 store current_version t refl in
      (
        (
          own,
          ap (λ y. store (version_or y t.version)) no_version
              ∙ nothing_pending is_letter sha1 store t
              ∙ ap (λ ys. store t.version ++ ys) (sym nil),
          λ z. nil,
          λ z. no_version,
        ),
        own,
        inl refl,
      )

  serve_state :
      (current_version second third : ℕ) (d l : ℕ) (xs : List LexiconEntry) (w : Option ℕ)
      (o : Option LexiconIndexSnapshot)
      → IsIndexed is_letter sha1 store (provider d l xs w o)
      → IsSettled (provider d l xs w o) second
      → IsServed current_version second (provider d l xs w o) (
          serve is_letter sha1
            (provider d l xs w o)
            current_version
            (store current_version)
            second
            third)
  unfolding serve
  serve_state current_version second third d l xs w none h k =
      rebuild_state current_version second third (provider d l xs w none) h.0 h.1
  serve_state current_version second third d l xs w (some s) h k =
      let p = provider d l xs w (some s) in
      if_case (IsServed current_version second p) (s.version == current_version) (p, s, true) _
        (λ c. (
          h,
          h.0,
          inl (
              h.0
              ∙ ap (current_index is_letter sha1 store)
                  ((nat_beq_iff s.version current_version).0 c)),
        ))
        (λ c.
          if_case (IsServed current_version second p) (not (can_rebuild p second)) (p, s, true) _
            (λ b. (h, h.0, inr (ground (arith, b))))
            (λ b.
              let settled = k (ground (arith, b)) in
              rebuild_state current_version second third p settled.0 settled.1))

  settled :
      (first second : ℕ) (d l : ℕ) (xs : List LexiconEntry) (w : Option ℕ)
      (o : Option LexiconIndexSnapshot)
      → (not (can_rebuild (provider d l xs w o) second) || can_rebuild (provider d l xs w o) first)
        ≡ true
      → IsIndexed is_letter sha1 store (provider d l xs w o)
      → IsSettled (maybe_apply_pending is_letter sha1 (provider d l xs w o) first false) second
  unfolding maybe_apply_pending
  settled first second d l xs w none c h k = h
  settled first second d l [] w (some s) c h k = (refl, h.3 refl)
  settled first second d l (x ∷ xs) w (some s) c h k =
      elim (Bool-cases (can_rebuild (provider d l (x ∷ xs) w (some s)) first)) [
        | inl b ↦ rw b (refl, refl)
        | inr b ↦
            let k' : can_rebuild (provider d l (x ∷ xs) w (some s)) second ≡ true = rw b at k in
            absurd (ground (arith, b, c, k'))
      ]

  -- A provider that is true to the lexicon stays so, and the snapshot it gives is the index of the
  -- lexicon at the version the snapshot carries; that version is the current one, unless the
  -- debounce period still runs. The loader gives the lexicon at the current version, and the
  -- debounce period does not end between the first two readings of the clock.
  pub get_snapshot-IsServed :
      (p : LexiconIndexProvider) (current_version first second third : ℕ)
      → (not (can_rebuild p second) || can_rebuild p first) ≡ true
      → IsIndexed is_letter sha1 store p
      → IsServed current_version second
          (maybe_apply_pending is_letter sha1 p first false)
          (get_snapshot is_letter sha1 p current_version (store current_version) first second third)
  unfolding get_snapshot
  get_snapshot-IsServed p current_version first second third c h =
      by_snapshot is_letter sha1 store
        (λ q.
          IsIndexed is_letter sha1 store q
          → IsSettled q second
          → IsServed current_version second q
              (serve is_letter sha1 q current_version (store current_version) second third))
        (serve_state current_version second third)
        (maybe_apply_pending is_letter sha1 p first false)
        (maybe_apply_pending-IsIndexed is_letter sha1 store p first false h)
        (settled first second p.rebuild_debounce p.last_rebuild p.pending_entries p.pending_version
          p.cached c h)

  debounce-maybe_apply_pending :
      (p : LexiconIndexProvider) (now : ℕ)
      → (maybe_apply_pending is_letter sha1 p now false).rebuild_debounce ≡ p.rebuild_debounce
  unfolding maybe_apply_pending
  debounce-maybe_apply_pending p now = ground arith

  always_open :
      (q : LexiconIndexProvider) (now : ℕ) → q.rebuild_debounce ≡ 0 → can_rebuild q now ≡ true
  unfolding can_rebuild
  always_open q now z = ground arith

  -- Without a debounce period every caller gets the index of the lexicon at its current version.
  pub get_snapshot_current :
      (p : LexiconIndexProvider) (current_version first second third : ℕ)
      → p.rebuild_debounce ≡ 0
      → IsIndexed is_letter sha1 store p
      → (get_snapshot is_letter sha1 p current_version (store current_version) first second third).1
        ≡ current_index is_letter sha1 store current_version
  get_snapshot_current p current_version first second third z h =
      let q = maybe_apply_pending is_letter sha1 p first false in
      let open_first = always_open p first z in
      let open_second = always_open q second (debounce-maybe_apply_pending p first ∙ z) in
      elim (get_snapshot-IsServed p current_version first second third (ground (arith, open_first))
        h).2 [ inl same ↦ same | inr closed ↦ absurd (ground (arith, open_second, closed)) ]

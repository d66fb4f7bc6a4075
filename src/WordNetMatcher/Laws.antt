-- ===== src/WordNetMatcher/Laws.antt =====
-- The stage with its cache against the stage that asks WordNet every time.
use vocabulary_micro.Prelude.{
  ℕ, ◌+◌, ◌≡◌, refl, ap, ◌∙◌, inl, inr, Bool, false, ◌||◌, not, Option, none, some, List, [], ◌∷◌,
  map, arith, ltb, if◌then◌else◌, Bool-cases, is_empty, All, nat_equality, list_equality,
  pair_equality, lookup,
}
use vocabulary_micro.Text.{Text}
use vocabulary_micro.ExactMatcher.{TokenRecord}
use vocabulary_micro.LemmaMatcher.{count_unknown_tokens}
use vocabulary_micro.LruCache.Bounds.{IsBounded, cache_put-IsBounded, cache_get-IsBounded}
use vocabulary_micro.LruCache.Values.{All-lookup, All-cache_get, All-cache_put}
use vocabulary_micro.WordNetMatcher.Availability.{Nltk, WordNetState, ensure_available}
use vocabulary_micro.WordNetMatcher.{
  WordNetSettings, EntryCache, skip_probe, build_probe_forms, wordnet_lookup, recall_entry,
  has_wordnet_entry, first_entry, set_wordnet_match, match_form, match_wordnet, match_all_wordnet,
  apply_wordnet,
}

module _ (nltk : Nltk) where
  abbrev IsAnswer : Text × Bool → Type 0
  IsAnswer x = x.1 ≡ wordnet_lookup nltk x.0

  -- A cache with distinct keys, no more than `n` entries, and nothing but what WordNet answers.
  abbrev pub IsFaithful : ℕ → EntryCache → Type 0
  IsFaithful n cache =
      IsBounded n cache × All (λ (x : Text × Bool). x.1 ≡ wordnet_lookup nltk x.0) cache

  -- The first form that WordNet has, or the empty text.
  abbrev first_known : List Text → Text
  first_known [] = []
  first_known (form ∷ forms) = if wordnet_lookup nltk form then form else first_known forms

  -- What the stage makes of a token without a cache.
  abbrev pub match_uncached : WordNetSettings → TokenRecord → TokenRecord
  match_uncached self t =
      if t.known || skip_probe self t then t else match_form t (first_known (build_probe_forms t))

  recall_entry-IsFaithful :
      (n : ℕ) (cache : EntryCache) (value : Text) (o : Option Bool)
      → lookup cache value ≡ o
      → IsFaithful n cache
      → (let r = recall_entry nltk n cache value o in
          (r.0 ≡ wordnet_lookup nltk value) × IsFaithful n r.1)
  unfolding recall_entry
  recall_entry-IsFaithful n cache value none e h = (
    refl,
    (
      cache_put-IsBounded n cache value (wordnet_lookup nltk value) h.0.0,
      All-cache_put IsAnswer n cache value (wordnet_lookup nltk value) refl h.1,
    ),
  )
  recall_entry-IsFaithful n cache value (some cached) e h = (
    All-lookup IsAnswer cache value cached e h.1,
    (cache_get-IsBounded n cache value h.0, All-cache_get IsAnswer cache value h.1),
  )

  has_wordnet_entry-IsFaithful :
      (n : ℕ) (cache : EntryCache) (value : Text)
      → IsFaithful n cache
      → (let r = has_wordnet_entry nltk n cache value in
          (r.0 ≡ wordnet_lookup nltk value) × IsFaithful n r.1)
  unfolding has_wordnet_entry
  has_wordnet_entry-IsFaithful n cache value h =
      recall_entry-IsFaithful n cache value (lookup cache value) refl h

  first_entry-IsFaithful :
      (n : ℕ) (cache : EntryCache) (forms : List Text)
      → IsFaithful n cache
      → (let r = first_entry nltk n cache forms in (r.0 ≡ first_known forms) × IsFaithful n r.1)
  unfolding first_entry
  first_entry-IsFaithful n cache [] h = (refl, h)
  first_entry-IsFaithful n cache (form ∷ forms) h =
      let asked = has_wordnet_entry-IsFaithful n cache form h in
      let rest = first_entry-IsFaithful n (has_wordnet_entry nltk n cache form).1 forms asked.1 in
      elim (Bool-cases (wordnet_lookup nltk form)) [
        | inl b ↦ rw (asked.0 ∙ b, b) (refl, asked.1)
        | inr b ↦ rw (asked.0 ∙ b, b) rest
      ]

  counted :
      (t : TokenRecord) (form : Text)
      → t.known ≡ false
      → (if not (is_empty form) then 1 else 0) + (if (match_form t form).known then 0 else 1)
        ≡ (if t.known then 0 else 1)
  unfolding match_form set_wordnet_match
  counted t [] h = ground (arith, h)
  counted t (c ∷ form) h = ground (arith, h)

  match_wordnet-IsFaithful :
      (self : WordNetSettings) (t : TokenRecord) (cache : EntryCache)
      → IsFaithful self.cache_max_entries cache
      → (let r = match_wordnet nltk self t cache in
          (r.0 ≡ match_uncached self t)
          × ((if r.1 then 1 else 0) + (if r.0.known then 0 else 1) ≡ (if t.known then 0 else 1))
          × IsFaithful self.cache_max_entries r.2)
  unfolding match_wordnet
  match_wordnet-IsFaithful self t cache h =
      let found = first_entry-IsFaithful self.cache_max_entries cache (build_probe_forms t) h in
      elim (Bool-cases (t.known || skip_probe self t)) [
        | inl b ↦ rw b (refl, ground arith, h)
        | inr b ↦ rw b (
          ap (match_form t) found.0,
          counted t (first_entry nltk self.cache_max_entries cache (build_probe_forms t)).0
              (ground (arith, b)),
          found.1,
        )
      ]

  match_all_wordnet-IsFaithful :
      (self : WordNetSettings) (ts : List TokenRecord) (cache : EntryCache)
      → IsFaithful self.cache_max_entries cache
      → (let r = match_all_wordnet nltk self ts cache in
          (r.0 ≡ map (match_uncached self) ts)
          × (r.1 + count_unknown_tokens r.0 ≡ count_unknown_tokens ts)
          × IsFaithful self.cache_max_entries r.2)
  unfolding match_all_wordnet
  match_all_wordnet-IsFaithful self [] cache h = (refl, omega arith, h)
  match_all_wordnet-IsFaithful self (t ∷ ts) cache h =
      let first = match_wordnet-IsFaithful self t cache h in
      let rest = match_all_wordnet-IsFaithful self ts (match_wordnet nltk self t cache).2 first.2 in
      (
        ap (λ u. u ∷ (match_all_wordnet nltk self ts (match_wordnet nltk self t cache).2).0) first.0
            ∙ ap (λ us. match_uncached self t ∷ us) rest.0,
        ground (arith, first.1, rest.1),
        rest.2,
      )

  -- The tokens behind a run of the stage that asks WordNet every time.
  abbrev pub tokens_uncached : WordNetSettings → WordNetState → List TokenRecord → List TokenRecord
  tokens_uncached self s tokens =
      if ltb self.max_unknown_tokens (count_unknown_tokens tokens)
        || not (ensure_available nltk self.enable_wordnet s).available
      then tokens
      else map (match_uncached self) tokens

  abbrev pub or_zero : Option ℕ → ℕ
  or_zero none = 0
  or_zero (some n) = n

  -- From a cache with distinct keys, within its bound, and with nothing but the answers of WordNet,
  -- apply makes of the tokens what it would without a cache, and leaves such a cache; the number of
  -- tokens that it reports as matched is that by which the unknown ones get fewer.
  pub apply_wordnet-IsFaithful :
      (self : WordNetSettings) (s : WordNetState) (tokens : List TokenRecord) (cache : EntryCache)
      → IsFaithful self.cache_max_entries cache
      → (let r = apply_wordnet nltk self s tokens cache in
          (r.0 ≡ tokens_uncached self s tokens)
          × IsFaithful self.cache_max_entries r.2
          × (or_zero r.3.matched_tokens + count_unknown_tokens r.0 ≡ r.3.unknown_tokens))
  unfolding apply_wordnet
  apply_wordnet-IsFaithful self s tokens cache h =
      elim (Bool-cases (ltb self.max_unknown_tokens (count_unknown_tokens tokens))) [
        | inl b ↦ rw b (refl, h, omega arith)
        | inr b ↦ elim (Bool-cases (ensure_available nltk self.enable_wordnet s).available) [
          | inl a ↦
              let done = match_all_wordnet-IsFaithful self tokens cache h in
              rw (b, a) (done.0, done.2, done.1)
          | inr a ↦ rw (b, a) (refl, h, omega arith)
        ]
      ]

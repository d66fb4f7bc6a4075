-- ===== src/LemmaMatcher/Faithful.antt =====
-- The stage with its two caches against the stage that computes the candidates of every token.
use mathlib.Core.Path.{subst}
use vocabulary_micro.Prelude.{
  ◌+◌, ◌≡◌, refl, sym, ap, ◌∙◌, inl, inr, ◌||◌, not, Option, none, some, List, [], ◌∷◌, map, ltb,
  if◌then◌else◌, Bool-cases, All, nat_equality, list_equality, pair_equality, lookup, upsert, ◌==◌,
}
use vocabulary_micro.Text.{Text, same_text}
use vocabulary_micro.ExactMatcher.{TokenRecord}
use vocabulary_micro.LruCache.{BoundedCache}
use vocabulary_micro.LruCache.Bounds.{IsBounded}
use vocabulary_micro.LruCache.Values.{All-lookup, All-cache_get, All-cache_put}
use vocabulary_micro.LemmaMatcher.{
  match_candidates, match_lemma, match_lemmas, count_unknown_tokens, apply_lemmas,
}
use vocabulary_micro.LemmaMatcher.Candidates.{
  LemmaMatcher, Caches, recall_candidates, cache_key, compute_candidates, skip_token,
  lemma_inflect_candidates, is_available,
}
use vocabulary_micro.LemmaMatcher.Laws.{apply_lemmas-AreMatched, apply_lemmas-IsBounded}

All-upsert :
    (P : Text × List Text → Type 0) (m : List (Text × List Text)) (key : Text) (v : List Text)
    → P (key, v)
    → All P m
    → All P (upsert m key (λ o. v))
unfolding upsert
All-upsert P [] key v p h = (p, tt)
All-upsert P (x ∷ m) key v p h = elim (Bool-cases (x.0 == key)) [
  | inl b ↦ rw b (subst P (ap (λ k. (k, v)) (sym ((same_text x.0 key).0 b))) p, h.1)
  | inr b ↦ rw b (h.0, All-upsert P m key v p h.1)
]

-- What the stage makes of a token without a cache.
abbrev pub match_uncached : LemmaMatcher → List (Text × List Text) → TokenRecord → TokenRecord
match_uncached self single_word t =
    if t.known || skip_token self t
    then t
    else match_candidates single_word t (compute_candidates self t)

-- The tokens behind a run of the stage that computes the candidates of every token.
abbrev pub tokens_uncached :
    LemmaMatcher → List (Text × List Text) → List TokenRecord → List TokenRecord
tokens_uncached self single_word tokens =
    if ltb self.max_unknown_tokens (count_unknown_tokens tokens) || not (is_available self)
    then tokens
    else map (match_uncached self single_word) tokens

-- `of_key` says which candidates belong to a key.
module _ (self : LemmaMatcher) (of_key : Text → List Text) where
  abbrev pub IsOwn : Text × List Text → Type 0
  IsOwn x = x.1 ≡ of_key x.0

  -- The key of a token says what its candidates are.
  abbrev pub IsKeyed : TokenRecord → Type 0
  IsKeyed t = compute_candidates self t ≡ of_key (cache_key t)

  abbrev AreOwn : Caches → Type 0
  AreOwn c = All IsOwn c.request_cache × All IsOwn c.global_cache

  recall_candidates-AreOwn :
      (t : TokenRecord) (c : Caches) (o g : Option (List Text))
      → lookup c.request_cache (cache_key t) ≡ o
      → lookup c.global_cache (cache_key t) ≡ g
      → IsKeyed t
      → AreOwn c
      → (let r = recall_candidates self t c o g in (r.0 ≡ compute_candidates self t) × AreOwn r.1)
  unfolding recall_candidates
  recall_candidates-AreOwn t c (some found) g e d k h =
      (All-lookup IsOwn c.request_cache (cache_key t) found e h.0 ∙ sym k, h)
  recall_candidates-AreOwn t c none (some found) e d k h =
      let own = All-lookup IsOwn c.global_cache (cache_key t) found d h.1 in
      (
        own ∙ sym k,
        (
          All-upsert IsOwn c.request_cache (cache_key t) found own h.0,
          All-cache_get IsOwn c.global_cache (cache_key t) h.1,
        ),
      )
  recall_candidates-AreOwn t c none none e d k h = (
    refl,
    (
      All-upsert IsOwn c.request_cache (cache_key t) (compute_candidates self t) k h.0,
      All-cache_put IsOwn self.cache_max_entries c.global_cache (cache_key t)
          (compute_candidates self t) k h.1,
    ),
  )

  lemma_inflect_candidates-AreOwn :
      (t : TokenRecord) (c : Caches)
      → IsKeyed t
      → AreOwn c
      → (let r = lemma_inflect_candidates self t c in
          (r.0 ≡ compute_candidates self t) × AreOwn r.1)
  unfolding lemma_inflect_candidates
  lemma_inflect_candidates-AreOwn t c k h =
      recall_candidates-AreOwn t c (lookup c.request_cache (cache_key t))
        (lookup c.global_cache (cache_key t)) refl refl k h

  module _ (single_word : List (Text × List Text)) where
    match_lemma-AreOwn :
        (t : TokenRecord) (c : Caches)
        → IsKeyed t
        → AreOwn c
        → (let r = match_lemma self single_word t c in
            (r.0 ≡ match_uncached self single_word t) × AreOwn r.2)
    unfolding match_lemma
    match_lemma-AreOwn t c k h =
        let found = lemma_inflect_candidates-AreOwn t c k h in
        elim (Bool-cases (t.known || skip_token self t)) [
          | inl b ↦ rw b (refl, h)
          | inr b ↦ rw b (ap (match_candidates single_word t) found.0, found.1)
        ]

    match_lemmas-AreOwn :
        (ts : List TokenRecord) (c : Caches)
        → All IsKeyed ts
        → AreOwn c
        → (let r = match_lemmas self single_word ts c in
            (r.0 ≡ map (match_uncached self single_word) ts) × AreOwn r.2)
    unfolding match_lemmas
    match_lemmas-AreOwn [] c k h = (refl, h)
    match_lemmas-AreOwn (t ∷ ts) c k h =
        let first = match_lemma-AreOwn t c k.0 h in
        let rest = match_lemmas-AreOwn ts (match_lemma self single_word t c).2 k.1 first.1 in
        (
          ap (λ u. u ∷ (match_lemmas self single_word ts (match_lemma self single_word t c).2).0)
                first.0
              ∙ ap (λ us. match_uncached self single_word t ∷ us) rest.0,
          rest.1,
        )

    apply_lemmas-AreOwn :
        (tokens : List TokenRecord) (cache : BoundedCache (List Text))
        → All IsKeyed tokens
        → All IsOwn cache
        → (let r = apply_lemmas self single_word tokens cache in
            (r.0 ≡ tokens_uncached self single_word tokens) × All IsOwn r.1)
    unfolding apply_lemmas
    apply_lemmas-AreOwn tokens cache k h =
        let start : Caches = record { request_cache = []; global_cache = cache } in
        let done = match_lemmas-AreOwn tokens start k (tt, h) in
        elim (Bool-cases (ltb self.max_unknown_tokens (count_unknown_tokens tokens))) [
          | inl b ↦ rw b (refl, h)
          | inr b ↦ elim (Bool-cases (is_available self)) [
            | inl a ↦ rw (b, a) (done.0, done.1.1)
            | inr a ↦ rw (b, a) (refl, h)
          ]
        ]

    -- If the key of each token says what its candidates are, then from a cache with distinct keys,
    -- within its bound, and with nothing but the candidates of its keys, `apply` makes of the tokens
    -- what it would if it computed the candidates of each, and leaves such a cache; the number of
    -- tokens that it reports as matched is that by which the unknown ones get fewer.
    pub apply_lemmas-IsFaithful :
        (tokens : List TokenRecord) (cache : BoundedCache (List Text))
        → All IsKeyed tokens
        → IsBounded self.cache_max_entries cache
        → All IsOwn cache
        → (let r = apply_lemmas self single_word tokens cache in
            (r.0 ≡ tokens_uncached self single_word tokens)
            × IsBounded self.cache_max_entries r.1
            × All IsOwn r.1
            × (r.2.matched_tokens + count_unknown_tokens r.0 ≡ count_unknown_tokens tokens))
    apply_lemmas-IsFaithful tokens cache k b h =
        let own = apply_lemmas-AreOwn tokens cache k h in
        let counts = apply_lemmas-AreMatched self single_word tokens cache in
        (own.0, apply_lemmas-IsBounded self single_word tokens cache b, own.1, counts.1 ∙ counts.2)

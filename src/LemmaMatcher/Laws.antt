-- ===== src/LemmaMatcher/Laws.antt =====
-- The stage of lemma_inflect_matcher.py: the bound of its cache, and what becomes of each token.
use vocabulary_micro.Prelude.{
  ◌+◌, ◌≡◌, refl, inl, inr, Bool, true, false, ◌||◌, not, Option, none, some, List, [], ◌∷◌, arith,
  ltb, Bool-cases, is_empty, nat_equality, list_equality, pair_equality, lookup,
}
use vocabulary_micro.Text.{Text}
use vocabulary_micro.ExactMatcher.{TokenRecord}
use vocabulary_micro.LruCache.{BoundedCache}
use vocabulary_micro.LruCache.Bounds.{IsBounded, cache_put-IsBounded, cache_get-IsBounded}
use vocabulary_micro.LemmaMatcher.{
  matched_categories, set_lemma_match, match_candidates, match_lemma, match_lemmas,
  count_unknown_tokens, apply_lemmas,
}
use vocabulary_micro.LemmaMatcher.Candidates.{
  LemmaMatcher, Caches, recall_candidates, cache_key, compute_candidates, skip_token,
  lemma_inflect_candidates, is_available,
}

recall_candidates-IsBounded :
    (self : LemmaMatcher) (t : TokenRecord) (c : Caches) (o g : Option (List Text))
    → IsBounded self.cache_max_entries c.global_cache
    → IsBounded self.cache_max_entries (recall_candidates self t c o g).1.global_cache
unfolding recall_candidates
recall_candidates-IsBounded self t c (some found) g h = h
recall_candidates-IsBounded self t c none (some found) h =
    cache_get-IsBounded self.cache_max_entries c.global_cache (cache_key t) h
recall_candidates-IsBounded self t c none none h =
    cache_put-IsBounded self.cache_max_entries c.global_cache (cache_key t)
      (compute_candidates self t) h.0

candidates-IsBounded :
    (self : LemmaMatcher) (t : TokenRecord) (c : Caches)
    → IsBounded self.cache_max_entries c.global_cache
    → IsBounded self.cache_max_entries (lemma_inflect_candidates self t c).1.global_cache
unfolding lemma_inflect_candidates
candidates-IsBounded self t c h =
    recall_candidates-IsBounded self t c (lookup c.request_cache (cache_key t))
      (lookup c.global_cache (cache_key t)) h

-- A token that the stage leaves as it is, or that was unknown and is known now, with its form kept.
abbrev pub IsMatched : TokenRecord → TokenRecord → Bool → Type 0
IsMatched t u matched =
    (matched ≡ false → u ≡ t)
    × (matched ≡ true → t.known ≡ false)
    × (u.known ≡ (t.known || matched))
    × (u.normalized ≡ t.normalized)

match_candidates-IsMatched :
    (single_word : List (Text × List Text)) (t : TokenRecord) (cs : List Text)
    → t.known ≡ false
    → IsMatched t
        (match_candidates single_word t cs)
        (not (is_empty (matched_categories single_word cs)))
unfolding match_candidates set_lemma_match
match_candidates-IsMatched single_word t cs h =
    elim (Bool-cases (is_empty (matched_categories single_word cs))) [
      | inl e ↦ rw e (λ q. refl, λ q. h, ground arith, refl)
      | inr e ↦ rw e (λ q. ground (arith, q), λ q. h, ground arith, refl)
    ]

match_lemma-IsMatched :
    (self : LemmaMatcher) (single_word : List (Text × List Text)) (t : TokenRecord) (c : Caches)
    → (let r = match_lemma self single_word t c in IsMatched t r.0 r.1)
unfolding match_lemma
match_lemma-IsMatched self single_word t c = elim (Bool-cases (t.known || skip_token self t)) [
  | inl e ↦ rw e (λ q. refl, λ q. ground (arith, q), ground arith, refl)
  | inr e ↦ rw e (
      match_candidates-IsMatched single_word t (lemma_inflect_candidates self t c).0
        (ground (arith, e)))
]

match_lemma-IsBounded :
    (self : LemmaMatcher) (single_word : List (Text × List Text)) (t : TokenRecord) (c : Caches)
    → IsBounded self.cache_max_entries c.global_cache
    → IsBounded self.cache_max_entries (match_lemma self single_word t c).2.global_cache
unfolding match_lemma
match_lemma-IsBounded self single_word t c h = elim (Bool-cases (t.known || skip_token self t)) [
  | inl e ↦ rw e h
  | inr e ↦ rw e (candidates-IsBounded self t c h)
]

match_lemmas-IsBounded :
    (self : LemmaMatcher) (single_word : List (Text × List Text)) (ts : List TokenRecord)
    (c : Caches)
    → IsBounded self.cache_max_entries c.global_cache
    → IsBounded self.cache_max_entries (match_lemmas self single_word ts c).2.global_cache
unfolding match_lemmas
match_lemmas-IsBounded self single_word [] c h = h
match_lemmas-IsBounded self single_word (t ∷ ts) c h =
    match_lemmas-IsBounded self single_word ts (match_lemma self single_word t c).2
      (match_lemma-IsBounded self single_word t c h)

-- Each token with what the stage makes of it.
abbrev AreMatched : List TokenRecord → List TokenRecord → Type 0
AreMatched [] us = us ≡ []
AreMatched (t ∷ ts) [] = ⊥
AreMatched (t ∷ ts) (u ∷ us) = ((matched : Bool) × IsMatched t u matched) × AreMatched ts us

match_lemmas-AreMatched :
    (self : LemmaMatcher) (single_word : List (Text × List Text)) (ts : List TokenRecord)
    (c : Caches)
    → (let r = match_lemmas self single_word ts c in
        AreMatched ts r.0 × (r.1 + count_unknown_tokens r.0 ≡ count_unknown_tokens ts))
unfolding match_lemmas
match_lemmas-AreMatched self single_word [] c = (refl, omega arith)
match_lemmas-AreMatched self single_word (t ∷ ts) c =
    let first = match_lemma self single_word t c in
    let head = match_lemma-IsMatched self single_word t c in
    let rest = match_lemmas-AreMatched self single_word ts first.2 in
    (((first.1, head), rest.0), ground (arith, head.1, head.2, rest.1))

AreMatched-same : (ts : List TokenRecord) → AreMatched ts ts
AreMatched-same [] = refl
AreMatched-same (t ∷ ts) =
    ((false, (λ q. refl, λ q. ground (arith, q), ground arith, refl)), AreMatched-same ts)

-- `apply` answers with as many tokens, in order. Each is left as it is or was unknown and is known
-- now, with its normalized form kept, and the number matched is that by which the unknown tokens
-- get fewer.
pub apply_lemmas-AreMatched :
    (self : LemmaMatcher) (single_word : List (Text × List Text)) (tokens : List TokenRecord)
    (cache : BoundedCache (List Text))
    → (let r = apply_lemmas self single_word tokens cache in
        AreMatched tokens r.0
        × (r.2.matched_tokens + count_unknown_tokens r.0 ≡ r.2.unknown_tokens)
        × (r.2.unknown_tokens ≡ count_unknown_tokens tokens))
unfolding apply_lemmas
apply_lemmas-AreMatched self single_word tokens cache =
    elim (Bool-cases (ltb self.max_unknown_tokens (count_unknown_tokens tokens))) [
      | inl h ↦ rw h (AreMatched-same tokens, omega arith, refl)
      | inr h ↦ elim (Bool-cases (is_available self)) [
        | inl k ↦
            rw (h, k)
              (let done =
                  match_lemmas-AreMatched self single_word tokens
                    (record { request_cache = []; global_cache = cache }) in
                (done.0, done.1, refl))
        | inr k ↦ rw (h, k) (AreMatched-same tokens, omega arith, refl)
      ]
    ]

-- A run of `apply` on a cache with distinct keys and no more entries than the setting allows leaves
-- such a cache.
pub apply_lemmas-IsBounded :
    (self : LemmaMatcher) (single_word : List (Text × List Text)) (tokens : List TokenRecord)
    (cache : BoundedCache (List Text))
    → IsBounded self.cache_max_entries cache
    → IsBounded self.cache_max_entries (apply_lemmas self single_word tokens cache).1
unfolding apply_lemmas
apply_lemmas-IsBounded self single_word tokens cache b =
    elim (Bool-cases (ltb self.max_unknown_tokens (count_unknown_tokens tokens))) [
      | inl h ↦ rw h b
      | inr h ↦ elim (Bool-cases (is_available self)) [
        | inl k ↦
            rw (h, k)
              (match_lemmas-IsBounded self single_word tokens
                (record { request_cache = []; global_cache = cache }) b)
        | inr k ↦ rw (h, k) b
      ]
    ]

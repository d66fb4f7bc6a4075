-- ===== src/LexiconEngine/Stats/Laws.antt =====
-- The counts that lexicon_engine.py reports of a request's tokens.
use vocabulary_micro.Prelude.{
  ℕ, ◌+◌, ◌≤◌, ◌≡◌, refl, ◌↔◌, inl, inr, true, false, ◌||◌, Option, none, some, List, [], ◌∷◌,
  arith, if◌then◌else◌, Bool-cases, length, any, fold, any_or, ◌==◌, nat_equality, list_equality,
  pair_equality, lookup, lookup-upsert,
}
use vocabulary_micro.Text.{Text, same_text, codes}
use vocabulary_micro.ExactMatcher.{TokenRecord}
use vocabulary_micro.LexiconEngine.Stages.{StageStatus}
use vocabulary_micro.LexiconEngine.Stats.{
  count_known, count_source, one_more, build_stats, derive_pipeline_status, has_status,
}

count_known_le : (ts : List TokenRecord) → count_known ts ≤ length ts
unfolding count_known
count_known_le [] = omega arith
count_known_le (t ∷ ts) = ground (arith, count_known_le ts)

-- How many tokens have a source.
unfoldable tokens_from : Text → List TokenRecord → ℕ
tokens_from source [] = 0
tokens_from source (t ∷ ts) = (if t.match_source == source then 1 else 0) + tokens_from source ts

abbrev count_or_zero : Option ℕ → ℕ
count_or_zero none = 0
count_or_zero (some n) = n

one_more_lem : (o : Option ℕ) → count_or_zero (some (one_more o)) ≡ count_or_zero o + 1
one_more_lem none = omega arith
one_more_lem (some n) = refl

count_source_lem :
    (counts : List (Text × ℕ)) (t : TokenRecord) (source : Text)
    → count_or_zero (lookup (count_source counts t) source)
      ≡ count_or_zero (lookup counts source) + (if t.match_source == source then 1 else 0)
unfolding count_source
count_source_lem counts t source =
    rw (lookup-upsert counts t.match_source one_more source)
      (elim (Bool-cases (t.match_source == source)) [
        | inl h ↦
            rw (h, (same_text t.match_source source).0 h) (one_more_lem (lookup counts source))
        | inr h ↦ rw h (omega arith)
      ])

fold-count_source :
    (counts : List (Text × ℕ)) (ts : List TokenRecord) (source : Text)
    → count_or_zero (lookup (fold count_source counts ts) source)
      ≡ count_or_zero (lookup counts source) + tokens_from source ts
unfolding fold tokens_from
fold-count_source counts [] source = omega arith
fold-count_source counts (t ∷ ts) source =
    omega
      (arith, fold-count_source (count_source counts t) ts source, count_source_lem counts t source)

nothing_counted : (source : Text) → count_or_zero (lookup [] source) ≡ 0
unfolding lookup
nothing_counted source = refl

-- The known and the unknown tokens are all tokens, and under each source the statistics count
-- the tokens that have it.
build_stats_lem :
    (percent : ℕ → ℕ → ℕ) (tokens : List TokenRecord) (source : Text)
    → ((build_stats percent tokens).known_tokens + (build_stats percent tokens).unknown_tokens
        ≡ (build_stats percent tokens).tokens_total)
      × (count_or_zero (lookup (build_stats percent tokens).source_counts source)
          ≡ tokens_from source tokens)
unfolding build_stats
build_stats_lem percent tokens source = (
  omega (arith, count_known_le tokens),
  omega (arith, fold-count_source [] tokens source, nothing_counted source),
)

-- The pipeline is reported as ok exactly when no stage failed, timed out or was skipped, and as
-- failed exactly when some stage failed.
derive_pipeline_status_iff :
    (statuses : List StageStatus)
    → ((derive_pipeline_status statuses ≡ codes "ok") ↔ (
        any
          (λ s.
            has_status (codes "failed") s
            || (has_status (codes "timed_out") s || has_status (codes "skipped") s))
          statuses
        ≡ false))
      × ((derive_pipeline_status statuses ≡ codes "failed")
          ↔ (any (has_status (codes "failed")) statuses ≡ true))
unfolding derive_pipeline_status
derive_pipeline_status_iff statuses =
    let all_three =
      any_or (has_status (codes "failed"))
        (λ s. has_status (codes "timed_out") s || has_status (codes "skipped") s) statuses in
    (
      (λ h. ground (arith, all_three, h), λ h. ground (arith, all_three, h)),
      (λ h. ground (arith, h), λ h. ground (arith, h)),
    )

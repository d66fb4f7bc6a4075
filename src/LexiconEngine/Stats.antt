-- ===== src/LexiconEngine/Stats.antt =====
-- `_build_stats` and `_derive_pipeline_status` of lexicon_engine.py. `percent` is the float
-- arithmetic of the coverage, `round(known / total * 100, 2)`, in hundredths.
pub mod Laws
use vocabulary_micro.Prelude.{
  ℕ, ◌+◌, ◌-◌, ◌*◌, Bool, ◌||◌, Option, none, some, List, [], ◌∷◌, if◌then◌else◌, length, any, fold,
  ◌==◌, nat_equality, list_equality, pair_equality, upsert,
}
use vocabulary_micro.Text.{Text, codes}
use vocabulary_micro.ExactMatcher.{TokenRecord}
use vocabulary_micro.LexiconEngine.Stages.{StageStatus}

pub record PipelineStats : Type 0 where
  pub tokens_total : ℕ
  pub known_tokens : ℕ
  pub unknown_tokens : ℕ
  pub coverage_percent : ℕ
  pub source_counts : List (Text × ℕ)

unfoldable pub count_known : List TokenRecord → ℕ
count_known [] = 0
count_known (t ∷ ts) = (if t.known then 1 else 0) + count_known ts

abbrev pub one_more : Option ℕ → ℕ
one_more none = 1
one_more (some n) = n + 1

-- `source_counts[source] += 1` on a `defaultdict(int)`
unfoldable pub count_source : List (Text × ℕ) → TokenRecord → List (Text × ℕ)
count_source counts t = upsert counts t.match_source one_more

unfoldable pub build_stats : (ℕ → ℕ → ℕ) → List TokenRecord → PipelineStats
build_stats percent tokens = record {
  tokens_total = length tokens;
  known_tokens = count_known tokens;
  unknown_tokens = length tokens - count_known tokens;
  coverage_percent = if length tokens == 0 then 0 else percent (count_known tokens) (length tokens);
  source_counts = fold count_source [] tokens;
}

abbrev pub has_status : Text → StageStatus → Bool
has_status status s = s.status == status

unfoldable pub derive_pipeline_status : List StageStatus → Text
derive_pipeline_status statuses =
    if any (has_status (codes "failed")) statuses
    then codes "failed"
    else if any (λ s. s.status == codes "timed_out" || s.status == codes "skipped") statuses
    then codes "partial"
    else codes "ok"

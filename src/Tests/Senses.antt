-- ===== src/Tests/Senses.antt =====
-- Runs of the choice of senses, with what holds of them. A score is a number of thousandths.
use vocabulary_micro.Prelude.{
  ℕ, ◌+◌, ◌-◌, ◌*◌, ◌≡◌, refl, false, none, some, List, [], ◌∷◌, map, ltb, if◌then◌else◌, ◌==◌,
  nat_equality, list_equality, pair_equality,
}
use vocabulary_micro.Text.{Text, codes}
use vocabulary_micro.MweDetector.{MweCandidate}
use vocabulary_micro.MweIndex.Records.{MweSenseRecord, SenseIndex}
use vocabulary_micro.MweDisambiguator.{Floats, Disambiguation, SensesSettings, disambiguate}
use vocabulary_micro.MweDisambiguator.Laws.{AreJudged, count_resolved, disambiguate-AreJudged}

abbrev thousandths : Text → ℕ
thousandths s =
    if s == codes "0.9"
    then 900
    else if s == codes "0.85"
    then 850
    else if s == codes "0.65"
    then 650
    else if s == codes "0.3"
    then 300
    else 100

abbrev floats : Floats ℕ
floats = record {
  literal = thousandths;
  zero_score = 0;
  less = ltb;
  minus = λ a b. a - b;
  times = λ n a. n * a;
}

abbrev sense : ℕ → ℕ → MweSenseRecord
sense id priority = record {
  sense_id = id;
  expression_id = 1;
  sense_key = [];
  gloss = codes "g";
  usage_label = codes "idiomatic";
  example = [];
  priority = priority;
  embedding = none;
}

abbrev senses : SenseIndex
senses = (1, sense 8 5 ∷ sense 7 1 ∷ []) ∷ (2, sense 9 0 ∷ []) ∷ []

abbrev candidate : ℕ → MweCandidate ℕ
candidate id = record {
  expression_id = id;
  canonical_form = codes "up to";
  expression_type = codes "idiom";
  is_separable = false;
  span_start = 0;
  span_end = 5;
  token_start_index = 0;
  token_end_index = 1;
  surface = codes "up to";
  sentence_text = codes "up to";
  detection_source = [];
  semantic_score = 0;
  semantic_boosted = false;
}

abbrev candidates : List (MweCandidate ℕ)
candidates = candidate 1 ∷ candidate 2 ∷ candidate 3 ∷ []

abbrev thresholds : SensesSettings ℕ
thresholds = record { similarity_threshold = 800; margin_threshold = 150 }

abbrev judged : Disambiguation ℕ
judged = disambiguate floats thresholds candidates senses 1

chosen_ids :
    map (λ o. elim o.sense as (λ x. ℕ) [ some s ↦ s.sense_id | none ↦ 0 ]) judged.occurrences
    ≡ 7 ∷ 9 ∷ 0 ∷ []
unfolding disambiguate vocabulary_micro.MweDisambiguator.judge_candidates
    vocabulary_micro.MweDisambiguator.occurrence_of
    vocabulary_micro.MweDisambiguator.alternatives_of vocabulary_micro.MweDisambiguator.choices_from
    vocabulary_micro.Prelude.sort vocabulary_micro.Prelude.lookup
    vocabulary_micro.MweIndex.sense_before vocabulary_micro.MweDisambiguator.with_senses
    vocabulary_micro.MweDisambiguator.without_senses vocabulary_micro.Prelude.then_by
    vocabulary_micro.MweDisambiguator.is_resolved vocabulary_micro.MweDisambiguator.choice_at
    vocabulary_micro.MweDisambiguator.score_for_rank vocabulary_micro.Prelude.list_beq
chosen_ids = refl

disambiguate-AreJudged_example :
    AreJudged floats thresholds senses 1 candidates judged.occurrences
    × (judged.resolved_count ≡ count_resolved floats judged.occurrences)
    × (judged.resolved_count + judged.uncertain_count ≡ 3)
disambiguate-AreJudged_example = disambiguate-AreJudged floats thresholds candidates senses 1

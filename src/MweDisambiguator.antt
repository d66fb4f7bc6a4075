-- ===== src/MweDisambiguator.antt =====
-- backend/python_services/infrastructure/nlp/mwe_disambiguator.py with the records of mwe_models.py:
-- the sense of each candidate, by the order of its senses. A score is a float, of which the code uses
-- the literals, the comparison, the difference and the multiple of a rank: these are the fields of
-- `Floats`.
pub mod Laws
use vocabulary_micro.Prelude.{
  ℕ, ◌+◌, ◌*◌, max, Bool, false, ◌&&◌, not, Option, none, some, List, [], ◌∷◌, leb, if◌then◌else◌,
  length, take, sort, ◌==◌, nat_equality, list_equality, pair_equality, lookup,
}
use vocabulary_micro.Text.{Text, codes, or_else}
use vocabulary_micro.MweDetector.{MweCandidate, max_score}
use vocabulary_micro.MweIndex.{sense_before}
use vocabulary_micro.MweIndex.Records.{MweSenseRecord, SenseIndex, or_no_items}

-- `literal s` is the float that the text `s` denotes, `times n a` is `n * a`.
pub record Floats (Score : Type 0) : Type 0 where
  pub literal : Text → Score
  pub zero_score : Score
  pub less : Score → Score → Bool
  pub minus : Score → Score → Score
  pub times : ℕ → Score → Score

pub record SenseChoice (Score : Type 0) : Type 0 where
  pub sense_id : ℕ
  pub sense_key : Text
  pub gloss : Text
  pub usage_label : Text
  pub score : Score

pub record MweOccurrence (Score : Type 0) : Type 0 where
  pub surface : Text
  pub canonical_form : Text
  pub expression_type : Text
  pub is_separable : Bool
  pub span_start : ℕ
  pub span_end : ℕ
  pub sentence_text : Text
  pub sense : Option (SenseChoice Score)
  pub alternatives : List (SenseChoice Score)
  pub score : Score
  pub margin : Score
  pub usage_label : Text
  pub status : Text
  pub source : Text

pub record Disambiguation (Score : Type 0) : Type 0 where
  pub status : Text
  pub reason : Text
  pub occurrences : List (MweOccurrence Score)
  pub resolved_count : ℕ
  pub uncertain_count : ℕ
  pub cache_hit : Bool

pub record SensesSettings (Score : Type 0) : Type 0 where
  pub similarity_threshold : Score
  pub margin_threshold : Score

module _ {Score : Type 0} (f : Floats Score) where
  -- `_score_for_rank`
  unfoldable pub score_for_rank : ℕ → ℕ → Score
  score_for_rank rank sense_count =
      if leb sense_count 1
      then f.literal (codes "0.9")
      else if rank == 0
      then f.literal (codes "0.85")
      else if rank == 1
      then f.literal (codes "0.65")
      else max_score f.less f.zero_score (f.literal (codes "0.3"))
          (f.minus (f.literal (codes "0.65")) (f.times rank (f.literal (codes "0.1"))))

  unfoldable pub choice_at : ℕ → ℕ → MweSenseRecord → SenseChoice Score
  choice_at rank sense_count s = record {
    sense_id = s.sense_id;
    sense_key = s.sense_key;
    gloss = s.gloss;
    usage_label = s.usage_label;
    score = score_for_rank rank sense_count;
  }

  -- The loop over the senses that are looked at, from a rank on.
  unfoldable pub choices_from : ℕ → ℕ → List MweSenseRecord → List (SenseChoice Score)
  choices_from rank sense_count [] = []
  choices_from rank sense_count (s ∷ senses) =
      choice_at rank sense_count s ∷ choices_from (rank + 1) sense_count senses

  -- `alternatives[1].score if len(alternatives) > 1 else 0.0`, behind the first one.
  abbrev pub second_score : List (SenseChoice Score) → Score
  second_score [] = f.zero_score
  second_score (c ∷ cs) = c.score

  -- `max(0.0, float(candidate.semantic_score or 0.0))`
  unfoldable pub semantic_confidence : MweCandidate Score → Score
  semantic_confidence c = max_score f.less f.zero_score f.zero_score c.semantic_score

  unfoldable pub source_of : MweCandidate Score → Text
  source_of c = or_else c.detection_source (codes "second_pass_spacy")

  -- The occurrence of a candidate whose expression has no sense.
  unfoldable pub without_senses : MweCandidate Score → MweOccurrence Score
  without_senses c = record {
    surface = c.surface;
    canonical_form = c.canonical_form;
    expression_type = c.expression_type;
    is_separable = c.is_separable;
    span_start = c.span_start;
    span_end = c.span_end;
    sentence_text = c.sentence_text;
    sense = none;
    alternatives = [];
    score =
        if f.less f.zero_score (semantic_confidence c) then semantic_confidence c else f.zero_score;
    margin = f.zero_score;
    usage_label = codes "uncertain";
    status = codes "uncertain";
    source = source_of c;
  }

  unfoldable pub is_resolved :
      SensesSettings Score → SenseChoice Score → List (SenseChoice Score) → Bool
  is_resolved t first others =
      not (f.less first.score t.similarity_threshold)
      && not (f.less (f.minus first.score (second_score others)) t.margin_threshold)

  -- The occurrence of a candidate with a first alternative and others.
  unfoldable pub with_senses :
      MweCandidate Score → SenseChoice Score → List (SenseChoice Score) → Bool → MweOccurrence Score
  with_senses c first others resolved = record {
    surface = c.surface;
    canonical_form = c.canonical_form;
    expression_type = c.expression_type;
    is_separable = c.is_separable;
    span_start = c.span_start;
    span_end = c.span_end;
    sentence_text = c.sentence_text;
    sense = if resolved then some first else none;
    alternatives = first ∷ others;
    score =
        if c.semantic_boosted && f.less f.zero_score (semantic_confidence c)
        then semantic_confidence c
        else first.score;
    margin = f.minus first.score (second_score others);
    usage_label = if resolved then first.usage_label else codes "uncertain";
    status = if resolved then codes "resolved" else codes "uncertain";
    source = source_of c;
  }

  unfoldable pub occurrence_of :
      SensesSettings Score → MweCandidate Score → List (SenseChoice Score) → MweOccurrence Score
  occurrence_of t c [] = without_senses c
  occurrence_of t c (first ∷ others) = with_senses c first others (is_resolved t first others)

  -- `ordered[: max(1, top_n)]` with its scores; it is empty exactly if there is no sense.
  unfoldable pub alternatives_of : ℕ → List MweSenseRecord → List (SenseChoice Score)
  alternatives_of top_n senses =
      let ordered = sort sense_before senses in
      choices_from 0 (length ordered) (take (max 1 top_n) ordered)

  unfoldable pub counts_as_resolved : SensesSettings Score → List (SenseChoice Score) → Bool
  counts_as_resolved t [] = false
  counts_as_resolved t (first ∷ others) = is_resolved t first others

  -- The loop over the candidates: the occurrences, and how many are resolved and uncertain.
  unfoldable pub judge_candidates :
      SensesSettings Score
      → SenseIndex
      → ℕ
      → List (MweCandidate Score)
      → List (MweOccurrence Score) × ℕ × ℕ
  judge_candidates t senses top_n [] = ([], 0, 0)
  judge_candidates t senses top_n (c ∷ cs) =
      let rest = judge_candidates t senses top_n cs in
      let alternatives = alternatives_of top_n (or_no_items (lookup senses c.expression_id)) in
      let resolved = counts_as_resolved t alternatives in
      (
        occurrence_of t c alternatives ∷ rest.0,
        (if resolved then 1 else 0) + rest.1,
        (if resolved then 0 else 1) + rest.2,
      )

  -- `disambiguate`, which for no candidate returns what its loop does.
  unfoldable pub disambiguate :
      SensesSettings Score → List (MweCandidate Score) → SenseIndex → ℕ → Disambiguation Score
  disambiguate t candidates senses top_n =
      let judged = judge_candidates t senses top_n candidates in
      record {
        status = codes "ok";
        reason = [];
        occurrences = judged.0;
        resolved_count = judged.1;
        uncertain_count = judged.2;
        cache_hit = false;
      }

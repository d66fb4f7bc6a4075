-- ===== src/MweDetector.antt =====
-- core/domain/services/mwe_detector.py: the data of the detector and `_build_candidate`. The search
-- for particles, the two passes and the choice among overlapping candidates are the modules below.
-- Scores are floats, of which the code uses the comparison and zero: they are the parameters `Score`,
-- `less` and `zero_score`.
pub mod Particles
pub mod Overlaps
pub mod Contiguous
pub mod Separable
pub mod Choices
use vocabulary_micro.Prelude.{ℕ, ◌-◌, max, Bool, List, if◌then◌else◌, take, drop, is_empty}
use vocabulary_micro.Text.{Text, strip, or_else}

pub record MweToken : Type 0 where
  pub index : ℕ
  pub doc_index : ℕ
  pub text : Text
  pub lower_text : Text
  pub lemma : Text
  pub pos : Text
  pub dep : Text
  pub start : ℕ
  pub stop : ℕ
  pub sentence_text : Text
  pub children_indices : List ℕ

pub record MweExpression : Type 0 where
  pub expression_id : ℕ
  pub canonical_form : Text
  pub expression_type : Text
  pub is_separable : Bool
  pub max_gap_tokens : ℕ
  pub base_lemma : Text
  pub particle : Text
  pub words : List Text

-- `token_start_index` and `token_end_index` are the ends of the candidate's interval of tokens.
pub record MweCandidate (Score : Type 0) : Type 0 where
  pub expression_id : ℕ
  pub canonical_form : Text
  pub expression_type : Text
  pub is_separable : Bool
  pub span_start : ℕ
  pub span_end : ℕ
  pub token_start_index : ℕ
  pub token_end_index : ℕ
  pub surface : Text
  pub sentence_text : Text
  pub detection_source : Text
  pub semantic_score : Score
  pub semantic_boosted : Bool

-- The settings of the detector, as `__init__` stores them.
pub record MweSettings (Score : Type 0) : Type 0 where
  pub second_pass_max_gap_tokens : ℕ
  pub wordnet_semantic_threshold : Score
  pub trf_semantic_threshold : Score

module _ {Score : Type 0} (less : Score → Score → Bool) (zero_score : Score) where
  -- `max(a, b)`
  unfoldable pub max_score : Score → Score → Score
  max_score a b = if less a b then b else a

  -- `__init__`
  unfoldable pub init_detector : ℕ → Score → Score → MweSettings Score
  init_detector gap wordnet trf = record {
    second_pass_max_gap_tokens = max 1 gap;
    wordnet_semantic_threshold = max_score zero_score wordnet;
    trf_semantic_threshold = max_score zero_score trf;
  }

  -- `_build_candidate`
  unfoldable pub build_candidate :
      Text → MweToken → MweToken → ℕ → ℕ → MweExpression → Text → Score → Bool → MweCandidate Score
  build_candidate text token_start token_end start_index end_index e source score boosted =
      let span_end = max token_start.start token_end.stop in
      record {
        expression_id = e.expression_id;
        canonical_form = e.canonical_form;
        expression_type = e.expression_type;
        is_separable = e.is_separable;
        span_start = token_start.start;
        span_end = span_end;
        token_start_index = start_index;
        token_end_index = end_index;
        surface = take (span_end - token_start.start) (drop token_start.start text);
        sentence_text = or_else token_start.sentence_text (strip text);
        detection_source = source;
        semantic_score = max_score zero_score score;
        semantic_boosted = boosted;
      }

-- ===== src/ThirdPass.antt =====
-- core/use_cases/third_pass_orchestrator.py: `ThirdPassOrchestrator`, first the policy by which the
-- third pass is allowed. A confidence is of a type with a strict order and a zero; `to_float` is
-- `float`, none where it raises.
pub mod PolicyLaws
pub mod Upsert
pub mod Extractor
use vocabulary_micro.Prelude.{
  ℕ, ◌+◌, ◌*◌, Bool, true, false, not, Option, none, some, List, [], ◌∷◌, ltb, if◌then◌else◌,
  is_empty, fold, ◌==◌, nat_equality, list_equality, pair_equality, contains,
}
use vocabulary_micro.Text.{Text, codes, lower, strip}
use vocabulary_micro.TextProcessor.Tokens.{Occurrence}

-- The reasons of `evaluate_validation_policy`.
pub data PolicyReason : Type 0 where
  not_requested : PolicyReason
  requires_second_pass : PolicyReason
  second_pass_empty_fallback : PolicyReason
  blocked_high_confidence_trf : PolicyReason
  suspicious_trf_uncertain : PolicyReason
  trf_not_uncertain : PolicyReason
  no_trf_signal_fallback : PolicyReason

-- The payload, before the confidence is rounded.
pub record Policy (Score : Type 0) : Type 0 where
  pub allowed : Bool
  pub reason : PolicyReason
  pub max_trf_confidence : Score
  pub suspicious_trf_uncertain_count : ℕ
  pub trf_signal_count : ℕ

-- The occurrence comes from the semantic pass.
unfoldable pub is_trf_signal : Occurrence → Bool
is_trf_signal o = lower (strip o.source) == codes "spacy_trf_semantic"

abbrev suspicious_statuses : List Text
suspicious_statuses = [] ∷ codes "uncertain" ∷ codes "failed" ∷ codes "partial" ∷ []

unfoldable pub is_suspicious : Occurrence → Bool
is_suspicious o = contains suspicious_statuses (lower (strip o.status))

-- `occurrences` is none where it is no list, an item none where it is no dictionary.
abbrev pub listed : Option (List (Option Occurrence)) → List (Option Occurrence)
listed none = []
listed (some os) = os

-- The counters of the loop.
pub record Signals (Score : Type 0) : Type 0 where
  pub max_confidence : Score
  pub suspicious_count : ℕ
  pub signal_count : ℕ

module _ {Score : Type 0} (less : Score → Score → Bool) (zero_score : Score) where
  -- `_safe_float`
  unfoldable pub safe_float : (Text → Option Score) → Option Text → Score
  safe_float to_float none = zero_score
  safe_float to_float (some raw) = elim (to_float raw) [ some s ↦ s | none ↦ zero_score ]

  -- The body of the loop.
  unfoldable pub count_signal :
      (Text → Option Score) → Signals Score → Option Occurrence → Signals Score
  count_signal to_float s none = s
  count_signal to_float s (some o) =
      let confidence = safe_float to_float o.score in
      if not (is_trf_signal o) then s else record {
        max_confidence = if less s.max_confidence confidence then confidence else s.max_confidence;
        suspicious_count = if is_suspicious o then s.suspicious_count + 1 else s.suspicious_count;
        signal_count = s.signal_count + 1;
      }

  abbrev pub no_signals : Signals Score
  no_signals = record { max_confidence = zero_score; suspicious_count = 0; signal_count = 0 }

  abbrev policy_of : Bool → PolicyReason → Signals Score → Policy Score
  policy_of allowed reason s = record {
    allowed = allowed;
    reason = reason;
    max_trf_confidence = s.max_confidence;
    suspicious_trf_uncertain_count = s.suspicious_count;
    trf_signal_count = s.signal_count;
  }

  -- The decision behind the loop.
  unfoldable pub judge_signals : Score → Signals Score → Policy Score
  judge_signals threshold s =
      if less threshold s.max_confidence
      then policy_of false blocked_high_confidence_trf s
      else if ltb 0 s.suspicious_count
      then policy_of true suspicious_trf_uncertain s
      else if ltb 0 s.signal_count
      then policy_of false trf_not_uncertain s
      else policy_of true no_trf_signal_fallback s

  unfoldable pub evaluate_validation_policy :
      (Text → Option Score) → Score → Bool → Bool → Option (List (Option Occurrence)) → Policy Score
  evaluate_validation_policy to_float threshold third_requested second_requested occurrences =
      if not third_requested
      then policy_of false not_requested no_signals
      else if not second_requested
      then policy_of false requires_second_pass no_signals
      else if is_empty (listed occurrences)
      then policy_of true second_pass_empty_fallback no_signals
      else judge_signals threshold (fold (count_signal to_float) no_signals (listed occurrences))

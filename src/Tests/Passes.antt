-- ===== src/Tests/Passes.antt =====
-- third_pass_orchestrator.py: the policy, the upserts and the attempts on small inputs.
use vocabulary_micro.Prelude.{
  ℕ, ◌-◌, ◌≡◌, refl, Bool, true, false, ◌&&◌, ◌||◌, not, Option, none, some, List, [], ◌∷◌, ltb,
  is_empty, any, ascending-IsWeakOrder, nat_equality, list_beq, list_equality, pair_equality,
}
use vocabulary_micro.Text.{Text, codes, runs}
use vocabulary_micro.TextProcessor.Tokens.{Occurrence}
use vocabulary_micro.ThirdPass.{is_suspicious, listed, evaluate_validation_policy}
use vocabulary_micro.ThirdPass.PolicyLaws.{signal_with, exceeds, evaluate_validation_policy_iff}
use vocabulary_micro.ThirdPass.Upsert.{MweRecord, guess_phrasal_parts}
use vocabulary_micro.ThirdPass.Extractor.{
  CallOutcome, returned, unexpected_keyword, Attempt, with_timeout, with_enabled, with_think_mode,
  minimal,
}

abbrev trf_idiom : Text → Occurrence
trf_idiom status = record {
  canonical_form = codes "spill the beans";
  surface = codes "spilled the beans";
  expression_type = codes "idiom";
  usage_label = codes "idiomatic";
  source = codes "spacy_trf_semantic";
  score = some (codes "7");
  status = status;
  gloss = [];
  sentence_text = [];
  is_separable = false;
}

abbrev reports : Option (List (Option Occurrence))
reports =
    some (some (trf_idiom (codes "uncertain")) ∷ none ∷ some (trf_idiom (codes "resolved")) ∷ [])

-- A score is read as its first digit.
abbrev digit : Text → Option ℕ
digit [] = none
digit (c ∷ s) = some (c - 48)

evaluate_validation_policy_iff_example :
    (evaluate_validation_policy ltb 0 digit 8 true true reports).allowed ≡ (
      true
      && (true
          && (is_empty (listed reports)
              || not (
                  any
                    (signal_with (exceeds ltb 0 (ascending-IsWeakOrder (λ n. n)) digit 8))
                    (listed reports))
                && (any (signal_with is_suspicious) (listed reports)
                    || not (any (signal_with (λ o. true)) (listed reports))))))
evaluate_validation_policy_iff_example =
    evaluate_validation_policy_iff ltb 0 (ascending-IsWeakOrder (λ n. n)) digit 8 true true reports
      refl

parts_of_phrase :
    guess_phrasal_parts (codes "look forward to") (codes "phrasal_verb")
    ≡ (codes "look", codes "to")
unfolding guess_phrasal_parts list_beq runs
parts_of_phrase = refl

abbrev takes_all : MweRecord → Bool
takes_all r = true

-- A repository of an older version, which knows "think_mode" but not "enabled".
abbrev old_detector : Attempt → CallOutcome ℕ
old_detector with_timeout = unexpected_keyword
old_detector with_enabled = unexpected_keyword
old_detector with_think_mode = returned 1
old_detector minimal = returned 2

abbrev four_attempts : List Attempt
four_attempts = with_timeout ∷ with_enabled ∷ with_think_mode ∷ minimal ∷ []

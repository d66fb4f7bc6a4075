-- ===== src/ThirdPass/Extractor.antt =====
-- `_call_third_pass_extractor` of `ThirdPassOrchestrator`: the calls of `detect_third_pass` with
-- fewer and fewer keywords, and `run`, which turns what it raises into a failed summary.
use vocabulary_micro.Prelude.{
  ◌≡◌, Bool, List, [], ◌∷◌, ◌++◌, if◌then◌else◌, All, nat_equality, list_equality, pair_equality,
}
use vocabulary_micro.Text.{Text}

-- Which of the keywords "timeout_ms", "enabled" and "think_mode" an attempt passes.
pub data Attempt : Type 0 where
  with_timeout : Attempt
  with_enabled : Attempt
  with_think_mode : Attempt
  minimal : Attempt

-- What a call does: it returns, it raises TypeError over an unexpected keyword, or it raises
-- anything else.
pub data CallOutcome (Payload : Type 0) : Type 0 where
  returned : Payload → CallOutcome Payload
  unexpected_keyword : CallOutcome Payload
  raised : Text → CallOutcome Payload

-- `attempts`; `timeout_ms` is given or not.
unfoldable pub attempts : Bool → List Attempt
attempts has_timeout =
    (if has_timeout then with_timeout else with_enabled)
    ∷ with_enabled
    ∷ with_think_mode
    ∷ minimal
    ∷ []

module _ {Payload : Type 0} (detect : Attempt → CallOutcome Payload) where
  -- The loop; at its end `last_error` is raised, which the attempts have set.
  unfoldable pub try_all : List Attempt → CallOutcome Payload
  try_all [] = unexpected_keyword
  try_all (a ∷ rest) =
      let later = try_all rest in
      elim (detect a) [ returned p ↦ returned p | raised e ↦ raised e | unexpected_keyword ↦ later ]

  unfoldable pub call_third_pass_extractor : Bool → CallOutcome Payload
  call_third_pass_extractor has_timeout = try_all (attempts has_timeout)

  -- `a` is the first of the attempts that the repository takes, and its answer is the result.
  pub record IsFirst (tried : List Attempt) (r : CallOutcome Payload) : Type 0 where
    pub before : List Attempt
    pub attempt : Attempt
    pub after : List Attempt
    pub split : tried ≡ before ++ attempt ∷ after
    pub refused : All (λ a. detect a ≡ unexpected_keyword) before
    pub answered : detect attempt ≡ r

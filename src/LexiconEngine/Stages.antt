-- ===== src/LexiconEngine/Stages.antt =====
-- `StageStatus` of backend/python_services/core/domain/models.py, and the methods of lexicon_engine.py
-- that run a stage and chain the five stages.
use vocabulary_micro.Prelude.{
  ℕ, ◌⊎◌, inl, inr, Bool, false, ◌||◌, Option, none, some, List, [], ◌++◌, ltb, if◌then◌else◌,
  length, ◌==◌, nat_equality, list_equality, pair_equality,
}
use vocabulary_micro.Text.{Text, codes}
use vocabulary_micro.IndexProvider.{LexiconIndexSnapshot}
use vocabulary_micro.ExactMatcher.{
  TokenRecord, PhraseMatchRecord, apply_token_matching, apply_phrase_matching,
}

-- The entries of a stage's metadata that the engine reads or writes.
pub record Metadata : Type 0 where
  pub reported_status : Option Text
  pub reported_reason : Option Text
  pub token_count : Option ℕ
  pub truncated : Option Bool
  pub tokenizer_backend : Option Text
  pub error : Option Text

abbrev pub no_metadata : Metadata
no_metadata = record {
  reported_status = none;
  reported_reason = none;
  token_count = none;
  truncated = none;
  tokenizer_backend = none;
  error = none;
}

pub record StageStatus : Type 0 where
  pub stage : Text
  pub status : Text
  pub duration : ℕ
  pub reason : Text
  pub metadata : Metadata

-- What the stages of one request change.
pub record Session : Type 0 where
  pub tokens : List TokenRecord
  pub phrase_matches : List PhraseMatchRecord

-- How the call of a stage, and of what consumes its result, ends: with the dictionary that one of
-- them returns, or with the text of an exception.
pub data Outcome : Type 0 where
  returned : Metadata → Outcome
  raised : Text → Outcome

-- The readings of the clock for a stage: when it is asked to run, and how long it ran.
pub record Reading : Type 0 where
  pub now : ℕ
  pub elapsed : ℕ

-- `metadata.get(key, default)`
abbrev get_or : Option Text → Text → Text
get_or none default = default
get_or (some t) default = t

unfoldable pub outcome_status : Text → ℕ → Reading → Outcome → StageStatus
outcome_status stage timeout reading (returned metadata) =
    if ltb timeout reading.elapsed
    then record {
      stage = stage;
      status = codes "timed_out";
      duration = reading.elapsed;
      reason = codes "stage_timeout_exceeded";
      metadata = metadata;
    }
    else record {
      stage = stage;
      status = get_or metadata.reported_status (codes "ok");
      duration = reading.elapsed;
      reason = get_or metadata.reported_reason [];
      metadata = metadata;
    }
outcome_status stage timeout reading (raised error) = record {
  stage = stage;
  status = codes "failed";
  duration = reading.elapsed;
  reason = codes "stage_exception";
  metadata = record {
    reported_status = none;
    reported_reason = none;
    token_count = none;
    truncated = none;
    tokenizer_backend = none;
    error = some error;
  };
}

unfoldable pub skipped_stage_status : Text → Text → StageStatus
skipped_stage_status stage reason = record {
  stage = stage;
  status = codes "skipped";
  duration = 0;
  reason = reason;
  metadata = no_metadata;
}

-- `_run_stage`; `execute` changes the session also when it raises.
unfoldable pub run_stage :
    Text → ℕ → ℕ → Reading → (Session → Session × Outcome) → Session → Session × StageStatus
run_stage stage timeout deadline reading execute session =
    if ltb deadline reading.now
    then (session, skipped_stage_status stage (codes "request_deadline_exceeded"))
    else ((execute session).0, outcome_status stage timeout reading (execute session).1)

unfoldable pub is_blocking_stage : StageStatus → Bool
is_blocking_stage s = s.status == codes "failed" || s.status == codes "timed_out"

-- What `tokenize` gives: a list of tokens, or a tuple, whose first two components count if it has
-- two or more.
pub data Payload : Type 0 where
  token_list : List TokenRecord → Payload
  token_tuple : List TokenRecord → Bool → Payload
  short_tuple : Payload

abbrev stage_tokens : Payload → List TokenRecord
stage_tokens (token_list ts) = ts
stage_tokens (token_tuple ts b) = ts
stage_tokens short_tuple = []

abbrev is_truncated : Payload → Bool
is_truncated (token_list ts) = false
is_truncated (token_tuple ts b) = b
is_truncated short_tuple = false

-- `_tokenize_on_result`
unfoldable pub tokenize_on_result : Text → Payload → Session → Session × Outcome
tokenize_on_result backend payload session = (
  record {
    tokens = session.tokens ++ stage_tokens payload;
    phrase_matches = session.phrase_matches;
  },
  returned (record {
    reported_status = none;
    reported_reason = none;
    token_count = some (length (stage_tokens payload));
    truncated = some (is_truncated payload);
    tokenizer_backend = some backend;
    error = none;
  }),
)

-- What the engine is built from: its settings, and the stages that other libraries do.
pub record Engine : Type 0 where
  pub max_input_chars : ℕ
  pub max_request_bytes : ℕ
  pub request_timeout : ℕ
  pub tokenize_timeout : ℕ
  pub exact_match_timeout : ℕ
  pub lemma_timeout : ℕ
  pub wordnet_timeout : ℕ
  pub bert_timeout : ℕ
  pub tokenizer : Text → (Payload ⊎ Text)
  pub last_backend : Text
  pub lemma : List (Text × List Text) → List TokenRecord → List TokenRecord × Outcome
  pub wordnet : List TokenRecord → List TokenRecord × Outcome
  pub semantic : LexiconIndexSnapshot → List TokenRecord → List TokenRecord × Outcome

unfoldable pub run_tokenizer : Engine → Text → Session → Session × Outcome
run_tokenizer engine text session = elim (engine.tokenizer text) [
  | inl payload ↦ tokenize_on_result engine.last_backend payload session
  | inr error ↦ (session, raised error)
]

-- `_run_exact_stage`, and the phrase matches added to the request's.
unfoldable pub run_exact_stage : LexiconIndexSnapshot → Text → Session → Session × Outcome
run_exact_stage snapshot text session =
    let matched =
      apply_phrase_matching text (apply_token_matching snapshot session.tokens) snapshot in
    (
      record { tokens = matched.0; phrase_matches = session.phrase_matches ++ matched.1 },
      returned no_metadata,
    )

-- A stage that changes the tokens only.
unfoldable pub on_tokens :
    (List TokenRecord → List TokenRecord × Outcome) → Session → Session × Outcome
on_tokens change session = (
  record { tokens = (change session.tokens).0; phrase_matches = session.phrase_matches },
  (change session.tokens).1,
)

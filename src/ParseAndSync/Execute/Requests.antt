-- ===== src/ParseAndSync/Execute/Requests.antt =====
-- What `execute` of parse_and_sync.py takes and answers. What the parser reports besides its tokens is
-- passed on unread and left out.
use vocabulary_micro.Prelude.{
  ℕ, Bool, true, false, Option, none, some, List, [], nat_equality, list_equality, pair_equality,
}
use vocabulary_micro.Text.{Text, codes}
use vocabulary_micro.TextProcessor.Tokens.{ParsedToken, format_sync_message}
use vocabulary_micro.CandidateResolver.{LexiconIndex}
use vocabulary_micro.TableBuilder.{Table}
use vocabulary_micro.ThirdPass.{PolicyReason}
use vocabulary_micro.ThirdPass.Extractor.{Attempt, CallOutcome}
use vocabulary_micro.ParseAndSync.Summaries.{
  SyncStage, stage_skipped, PassPayload, PassSummary, CallAnswer, answered, type_error, failure,
}
use vocabulary_micro.ParseAndSync.Progress.{Syncing}

-- The arguments of a call; a missing one is none.
pub record ParseRequest : Type 0 where
  pub text : Text
  pub sync : Option Bool
  pub second_pass_wsd : Option Bool
  pub third_pass_enabled : Option Bool
  pub has_timeout : Bool

-- What the parser returns: a dictionary with an "error", or with "tokens".
pub data Parsed : Type 0 where
  parse_error : Text → Parsed
  parsed_tokens : List ParsedToken → Parsed

-- The settings, the services and the repositories of the interactor. The clock says of each pass
-- and each round of its sync whether the time is over.
pub record Interactor (Score : Type 0) : Type 0 where
  pub auto_sync_enabled : Bool
  pub enable_second_pass_wsd : Bool
  pub enable_third_pass_llm : Bool
  pub trf_confidence_threshold : Score
  pub syncing : Syncing
  pub parse : Bool → CallAnswer Parsed
  pub pipeline_status : CallAnswer Unit
  pub index : Option LexiconIndex
  pub listed_categories : Option (List Text)
  pub parse_mwe : Option (Bool → CallAnswer (Option PassPayload))
  pub detect_third : Attempt → CallOutcome (Option PassPayload)
  pub keyword_error : Text
  pub late : ℕ → ℕ → Bool
  pub to_float : Text → Option Score
  pub render_score : Text → Text

-- What a call returns, with the status code, the summary's entries, and beside them the number of
-- releases of the request's resources.
pub record ExecutionReport : Type 0 where
  pub ok : Bool
  pub status_code : Text
  pub error_message : Text
  pub table : Table
  pub lexemes : List Text
  pub phrasal_verbs : List Text
  pub added : List Text
  pub already_existed : List Text
  pub rejected_candidates : List Text
  pub queued_for_sync : List Text
  pub category_review_required : List (Text × Text)
  pub sync_message : Text
  pub sync_enabled : Bool
  pub sync_async : Bool
  pub sync_stage_status : SyncStage
  pub second_pass : PassSummary
  pub third_pass : PassSummary
  pub releases : ℕ

-- `_parse_with_request_id`: the request's id is left out if the parser does not take it.
unfoldable pub parse_with_request_id : (Bool → CallAnswer Parsed) → CallAnswer Parsed
parse_with_request_id parse = elim (parse true) [
  | answered p ↦ answered p
  | type_error e ↦ parse false
  | failure e ↦ failure e
]

-- `default if value is None else value`
abbrev pub or_setting : Option Bool → Bool → Bool
or_setting none default = default
or_setting (some b) default = b

-- `REASON_...` of core/domain/reason_codes.py
unfoldable pub reason_text : PolicyReason → Text
reason_text PolicyReason.not_requested = codes "not_requested"
reason_text PolicyReason.requires_second_pass = codes "validation_requires_second_pass"
reason_text PolicyReason.second_pass_empty_fallback = codes "validation_second_pass_empty_fallback"
reason_text PolicyReason.blocked_high_confidence_trf =
    codes "validation_blocked_high_confidence_trf"
reason_text PolicyReason.suspicious_trf_uncertain = codes "validation_suspicious_trf_uncertain"
reason_text PolicyReason.trf_not_uncertain = codes "validation_trf_not_uncertain"
reason_text PolicyReason.no_trf_signal_fallback = codes "validation_no_trf_signal_fallback"

-- The report of a text that is blank or that the parser refuses.
unfoldable pub failed_report : Text → Text → Bool → PassSummary → PassSummary → ExecutionReport
failed_report status_code message should_sync second third = record {
  ok = false;
  status_code = status_code;
  error_message = message;
  table = [];
  lexemes = [];
  phrasal_verbs = [];
  added = [];
  already_existed = [];
  rejected_candidates = [];
  queued_for_sync = [];
  category_review_required = [];
  sync_message = format_sync_message [] [];
  sync_enabled = should_sync;
  sync_async = false;
  sync_stage_status = stage_skipped (codes "sync_disabled");
  second_pass = second;
  third_pass = third;
  releases = 1;
}

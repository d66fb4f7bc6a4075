-- ===== src/ParseAndSync/Execute.antt =====
-- `ParseAndSyncInteractor.execute` of parse_and_sync.py. A `think_mode` is only passed on to the
-- model, so it is part of the model's answer here.
pub mod Requests
pub mod Laws
pub mod Reports
use vocabulary_micro.ParseAndSync.Execute.Requests.{
  ExecutionReport, Interactor, ParseRequest, Parsed, failed_report, or_setting, parse_error,
  parse_with_request_id, parsed_tokens, reason_text,
}
use vocabulary_micro.Prelude.{
  ℕ, ◌*◌, Bool, true, false, ◌&&◌, not, Option, none, some, List, [], ◌++◌, if◌then◌else◌, is_empty,
  nat_equality, list_equality, pair_equality,
}
use vocabulary_micro.Text.{Text, codes, strip}
use vocabulary_micro.TextProcessor.Forms.{unique}
use vocabulary_micro.TextProcessor.Tokens.{
  ParsedToken, Occurrence, extract_lexemes, build_candidate_categories, format_sync_message,
}
use vocabulary_micro.TextProcessor.Tokens.Phrasal.{extract_phrasal_verbs}
use vocabulary_micro.SyncQueue.{Queue}
use vocabulary_micro.CandidateResolver.{
  LexiconIndex, SyncIndex, load_sync_index_state, load_known_terms_from_repository,
  canonicalize_candidate_categories,
}
use vocabulary_micro.CandidateResolver.Enqueue.{AsyncSyncJob, build_sync_message}
use vocabulary_micro.CandidateResolver.Partition.{partition_sync_candidates}
use vocabulary_micro.TableBuilder.{
  Table, build_table, append_occurrence_rows, append_heuristic_phrasal_rows,
}
use vocabulary_micro.ThirdPass.{Policy, PolicyReason, evaluate_validation_policy}
use vocabulary_micro.ThirdPass.Extractor.{Attempt, CallOutcome}
use vocabulary_micro.ParseAndSync.Summaries.{
  SyncStage, stage_skipped, stage_status, PassPayload, PassSummary, CallAnswer, answered,
  type_error, failure, default_second_pass_summary, default_third_pass_summary, run_second_pass,
  run_third_pass,
}
use vocabulary_micro.ParseAndSync.Progress.{
  RequestState, Syncing, uses_queue, sync_accepted, sync_second_pass, sync_third_pass,
  extend_rejected,
}

module _ {Score : Type 0} (less : Score → Score → Bool) (zero_score : Score)
    (self : Interactor Score) where
  -- The state before a request, of which only the queue lasts from request to request.
  abbrev pub start_progress : Option (Queue AsyncSyncJob) → List Text → RequestState
  start_progress queue rejected = record {
    added = [];
    already_existed = [];
    queued_for_sync = [];
    rejected = rejected;
    category_review_required = [];
    sync_async = false;
    known_terms_index = load_sync_index_state self.index self.listed_categories;
    async_queue = queue;
    repository_calls = [];
    mwe_records = [];
    raised = none;
  }

  -- `known_lemmas` and `known_terms`: what the direct sync starts from, or normalised terms.
  unfoldable pub known_of : Bool → Option (Queue AsyncSyncJob) → List Text × List Text
  known_of should_sync queue =
      let state = load_sync_index_state self.index self.listed_categories in
      if should_sync && not (uses_queue self.syncing queue)
      then (state.known_lemmas, state.existing_single ++ state.existing_multi)
      else load_known_terms_from_repository self.index self.listed_categories

  unfoldable pub sync_first_pass :
      Bool → Option (Queue AsyncSyncJob) → List ParsedToken → RequestState × SyncStage
  sync_first_pass should_sync queue tokens =
      let phrasal_verbs = extract_phrasal_verbs tokens in
      let candidates = unique (extract_lexemes tokens ++ phrasal_verbs) in
      let categories =
        canonicalize_candidate_categories self.syncing.auto_add_category
          (some (build_candidate_categories tokens phrasal_verbs)) in
      let sides = partition_sync_candidates candidates categories in
      let start = start_progress queue sides.1 in
      let done = sync_accepted self.syncing (self.late 0) categories sides.0 start in
      if should_sync then (done.0, done.1) else (start, stage_skipped (codes "sync_disabled"))

  unfoldable pub second_pass_step : Bool → Bool → RequestState → RequestState × PassSummary
  second_pass_step should_sync requested p =
      if requested
      then sync_second_pass self.syncing should_sync (self.late 1) (run_second_pass self.parse_mwe)
          p
      else (p, default_second_pass_summary false (codes "not_requested"))

  abbrev pub third_pass_policy : Bool → Bool → PassSummary → Policy Score
  third_pass_policy third_requested second_requested second =
      evaluate_validation_policy less zero_score self.to_float self.trf_confidence_threshold
        third_requested second_requested second.occurrences

  unfoldable pub third_pass_step :
      Bool → Bool → Bool → Bool → PassSummary → RequestState → RequestState × PassSummary
  third_pass_step should_sync third_requested second_requested has_timeout second p =
      let policy = third_pass_policy third_requested second_requested second in
      if third_requested && policy.allowed
      then sync_third_pass self.syncing should_sync (self.late 2)
          (run_third_pass self.keyword_error self.detect_third has_timeout) p
      else if third_requested
      then (p, default_third_pass_summary true (reason_text policy.reason))
      else (p, default_third_pass_summary false (codes "not_requested"))

  -- The rows of the tokens, of the two later passes and of the heuristic phrases.
  unfoldable pub result_table :
      List ParsedToken → List Text × List Text → PassSummary → PassSummary → Table
  result_table tokens known second third =
      append_heuristic_phrasal_rows known.1
        (append_occurrence_rows self.render_score (codes "third_pass_llm") known.1
          (append_occurrence_rows self.render_score (codes "second_pass_spacy") known.1
            (build_table tokens known.0) second.occurrences)
          third.occurrences)
        (extract_phrasal_verbs tokens)

  unfoldable pub final_report :
      List ParsedToken
      → Bool
      → Table
      → SyncStage
      → PassSummary
      → PassSummary
      → RequestState
      → ExecutionReport
  final_report tokens should_sync table stage second third p = record {
    ok = true;
    status_code = codes "ok";
    error_message = [];
    table = table;
    lexemes = extract_lexemes tokens;
    phrasal_verbs = extract_phrasal_verbs tokens;
    added = unique p.added;
    already_existed = unique p.already_existed;
    rejected_candidates = unique p.rejected;
    queued_for_sync = unique p.queued_for_sync;
    category_review_required = p.category_review_required;
    sync_message =
        build_sync_message (unique p.added) (unique p.already_existed) (unique p.queued_for_sync)
          (stage_status stage);
    sync_enabled = should_sync;
    sync_async = p.sync_async;
    sync_stage_status = stage;
    second_pass = second;
    third_pass = third;
    releases = 1;
  }

  -- `self.parser.pipeline_status()`, which is called for every report of a parse.
  abbrev pub with_pipeline_status : CallAnswer Unit → ExecutionReport → CallAnswer ExecutionReport
  with_pipeline_status (answered u) r = answered r
  with_pipeline_status (type_error e) r = type_error e
  with_pipeline_status (failure e) r = failure e

  -- An error of a sync leaves `execute`, and nothing follows it; the kind of the error is not told.
  abbrev pub unless_failed :
      RequestState
      → CallAnswer ExecutionReport × RequestState
      → CallAnswer ExecutionReport × RequestState
  unless_failed p next = elim p.raised [ none ↦ next | some e ↦ (failure e, p) ]

  -- `execute` on the tokens of a text that the parser took.
  unfoldable pub process_tokens :
      Bool
      → Bool
      → Bool
      → Bool
      → Option (Queue AsyncSyncJob)
      → List ParsedToken
      → CallAnswer ExecutionReport × RequestState
  process_tokens should_sync second_requested third_requested has_timeout queue tokens =
      let first = sync_first_pass should_sync queue tokens in
      let second = second_pass_step should_sync second_requested first.0 in
      let third =
        third_pass_step should_sync third_requested second_requested has_timeout second.1
          second.0 in
      let table = result_table tokens (known_of should_sync queue) second.1 third.1 in
      let report = final_report tokens should_sync table first.1 second.1 third.1 third.0 in
      unless_failed first.0 (
        unless_failed second.0
          (unless_failed third.0 (with_pipeline_status self.pipeline_status report, third.0)))

  -- `execute` behind the call of the parser, whose exceptions are not caught.
  unfoldable pub handle_parsed :
      Bool
      → Bool
      → Bool
      → Bool
      → Option (Queue AsyncSyncJob)
      → CallAnswer Parsed
      → CallAnswer ExecutionReport × RequestState
  handle_parsed should_sync second_requested third_requested has_timeout queue (type_error e) =
      (type_error e, start_progress queue [])
  handle_parsed should_sync second_requested third_requested has_timeout queue (failure e) =
      (failure e, start_progress queue [])
  handle_parsed should_sync second_requested third_requested has_timeout queue
        (answered (parse_error message)) =
      (
        with_pipeline_status self.pipeline_status (
            failed_report (codes "parse_failed") (strip message) should_sync
              (default_second_pass_summary second_requested (codes "parse_error"))
              (default_third_pass_summary third_requested (codes "parse_error"))),
        start_progress queue [],
      )
  handle_parsed should_sync second_requested third_requested has_timeout queue
        (answered (parsed_tokens tokens)) =
      process_tokens should_sync second_requested third_requested has_timeout queue tokens

  unfoldable pub execute :
      ParseRequest → Option (Queue AsyncSyncJob) → CallAnswer ExecutionReport × RequestState
  execute r queue =
      let should_sync = or_setting r.sync self.auto_sync_enabled in
      let second_requested = or_setting r.second_pass_wsd self.enable_second_pass_wsd in
      let third_requested = or_setting r.third_pass_enabled self.enable_third_pass_llm in
      if is_empty (strip r.text)
      then (
        answered (
            failed_report (codes "empty_text") (codes "Enter English text for parsing.") should_sync
              (default_second_pass_summary second_requested (codes "empty_text"))
              (default_third_pass_summary third_requested (codes "empty_text"))),
        start_progress queue [],
      )
      else handle_parsed should_sync second_requested third_requested r.has_timeout queue
          (parse_with_request_id self.parse)

-- ===== src/ParseAndSync/Summaries.antt =====
-- The summaries of the second and the third pass. Of a summary the versions, the model's
-- description and the statuses of its stages are left out: they are passed on unread.
use vocabulary_micro.Prelude.{
  ℕ, Bool, true, false, Option, none, some, List, [], nat_equality, list_equality, pair_equality,
}
use vocabulary_micro.Text.{Text, codes}
use vocabulary_micro.TextProcessor.Tokens.{Occurrence}
use vocabulary_micro.CandidateResolver.Sync.{SyncReport}
use vocabulary_micro.CandidateResolver.Enqueue.{QueueStatus}
use vocabulary_micro.ThirdPass.Upsert.{UpsertReport}
use vocabulary_micro.ThirdPass.Extractor.{
  Attempt, CallOutcome, returned, unexpected_keyword, raised, call_third_pass_extractor,
}

-- The status of a sync stage: it was skipped, it had no candidates, or what the resolver reports.
pub data SyncStage : Type 0 where
  stage_skipped : Text → SyncStage
  stage_without_candidates : SyncStage
  stage_synced : SyncReport → SyncStage
  stage_queued : QueueStatus → SyncStage

unfoldable pub stage_status : SyncStage → Text
stage_status (stage_skipped reason) = codes "skipped"
stage_status stage_without_candidates = codes "ok"
stage_status (stage_synced r) = r.status
stage_status (stage_queued q) = q.status

-- The lists of terms that a sync stage gives to a summary.
pub record PassLists : Type 0 where
  pub added : List Text
  pub already_existed : List Text
  pub queued_for_sync : List Text
  pub rejected_candidates : List Text
  pub category_review_required : List (Text × Text)

abbrev pub no_lists : PassLists
no_lists = record {
  added = [];
  already_existed = [];
  queued_for_sync = [];
  rejected_candidates = [];
  category_review_required = [];
}

-- `occurrences` is none where its value is no list.
pub record PassSummary : Type 0 where
  pub enabled : Bool
  pub status : Text
  pub reason : Text
  pub candidates_count : ℕ
  pub resolved_count : ℕ
  pub uncertain_count : ℕ
  pub occurrences : Option (List (Option Occurrence))
  pub cache_hit : Bool
  pub sync_enabled : Bool
  pub sync_stage_status : SyncStage
  pub lists : PassLists
  pub error : Option Text
  pub mwe_upsert_status : Option UpsertReport

-- `default_summary` and `_default_second_pass_summary`, which differ in the reason of the stage.
unfoldable pub default_summary : Text → Bool → Text → PassSummary
default_summary not_synced enabled reason = record {
  enabled = enabled;
  status = codes "skipped";
  reason = reason;
  candidates_count = 0;
  resolved_count = 0;
  uncertain_count = 0;
  occurrences = some [];
  cache_hit = false;
  sync_enabled = false;
  sync_stage_status = stage_skipped not_synced;
  lists = no_lists;
  error = none;
  mwe_upsert_status = none;
}

abbrev pub default_second_pass_summary : Bool → Text → PassSummary
default_second_pass_summary = default_summary (codes "second_pass_not_synced")

abbrev pub default_third_pass_summary : Bool → Text → PassSummary
default_third_pass_summary = default_summary (codes "third_pass_not_synced")

-- The default summary, with the status failed and the error, if there is one.
unfoldable pub failed_summary : Text → Text → Option Text → PassSummary
failed_summary not_synced reason error = record {
  enabled = true;
  status = codes "failed";
  reason = reason;
  candidates_count = 0;
  resolved_count = 0;
  uncertain_count = 0;
  occurrences = some [];
  cache_hit = false;
  sync_enabled = false;
  sync_stage_status = stage_skipped not_synced;
  lists = no_lists;
  error = error;
  mwe_upsert_status = none;
}

-- A pass's answer: each entry may be missing, and `occurrences` may be no list.
pub record PassPayload : Type 0 where
  pub given_enabled : Option Bool
  pub given_status : Option Text
  pub given_reason : Option Text
  pub given_candidates_count : Option ℕ
  pub given_resolved_count : Option ℕ
  pub given_uncertain_count : Option ℕ
  pub given_occurrences : Option (Option (List (Option Occurrence)))
  pub given_cache_hit : Option Bool
  pub given_error : Option Text

-- `d.setdefault(key, default)`
abbrev or_default : {A : Type 0} → Option A → A → A
or_default none d = d
or_default (some a) d = a

-- The calls of `setdefault` on an answer; the answers have none of the entries on the sync.
unfoldable pub normalize_payload : Text → PassPayload → PassSummary
normalize_payload not_synced p = record {
  enabled = or_default p.given_enabled true;
  status = or_default p.given_status (codes "ok");
  reason = or_default p.given_reason [];
  candidates_count = or_default p.given_candidates_count 0;
  resolved_count = or_default p.given_resolved_count 0;
  uncertain_count = or_default p.given_uncertain_count 0;
  occurrences = or_default p.given_occurrences (some []);
  cache_hit = or_default p.given_cache_hit false;
  sync_enabled = false;
  sync_stage_status = stage_skipped not_synced;
  lists = no_lists;
  error = p.given_error;
  mwe_upsert_status = none;
}

-- What a call of another service does: it returns, it raises TypeError, or it raises another
-- exception; both exceptions have a text.
pub data CallAnswer (A : Type 0) : Type 0 where
  answered : A → CallAnswer A
  type_error : Text → CallAnswer A
  failure : Text → CallAnswer A

-- What `parse_mwe_text` returns; none stands for a value that is no dictionary.
unfoldable pub second_pass_of : Option PassPayload → PassSummary
second_pass_of none =
    failed_summary (codes "second_pass_not_synced") (codes "invalid_second_pass_payload") none
second_pass_of (some p) = normalize_payload (codes "second_pass_not_synced") p

unfoldable pub second_pass_failed : Text → PassSummary
second_pass_failed error =
    failed_summary (codes "second_pass_not_synced") (codes "second_pass_failed") (some error)

unfoldable pub second_pass_fallback : CallAnswer (Option PassPayload) → PassSummary
second_pass_fallback (answered payload) = second_pass_of payload
second_pass_fallback (type_error e) = second_pass_failed e
second_pass_fallback (failure e) = second_pass_failed e

-- `_run_second_pass`; the parser has `parse_mwe_text` or not, which is called with the keywords, and
-- without them if it does not take them.
unfoldable pub run_second_pass : Option (Bool → CallAnswer (Option PassPayload)) → PassSummary
run_second_pass none = default_second_pass_summary true (codes "mwe_parser_unavailable")
run_second_pass (some parse_mwe) = elim (parse_mwe true) [
  | answered payload ↦ second_pass_of payload
  | type_error e ↦ second_pass_fallback (parse_mwe false)
  | failure e ↦ second_pass_failed e
]

-- `run` of the orchestrator; `keyword_error` is the text of the TypeError that it may raise.
unfoldable pub run_third_pass :
    Text → (Attempt → CallOutcome (Option PassPayload)) → Bool → PassSummary
run_third_pass keyword_error detect has_timeout =
    let failed : Text → PassSummary =
      λ e. failed_summary (codes "third_pass_not_synced") (codes "third_pass_failed") (some e) in
    elim (call_third_pass_extractor detect has_timeout) [
      | unexpected_keyword ↦ failed keyword_error
      | raised e ↦ failed e
      | returned none ↦
          failed_summary (codes "third_pass_not_synced") (codes "invalid_third_pass_payload") none
      | returned (some p) ↦ normalize_payload (codes "third_pass_not_synced") p
    ]

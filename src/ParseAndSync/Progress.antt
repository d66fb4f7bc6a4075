-- ===== src/ParseAndSync/Progress.antt =====
-- What `execute` of parse_and_sync.py carries from pass to pass, and the sync of one pass.
pub mod Laws
use vocabulary_micro.Prelude.{
  ℕ, ◌*◌, Bool, true, false, Option, none, some, List, [], ◌∷◌, ◌++◌, if◌then◌else◌, nat_equality,
  list_equality, pair_equality,
}
use vocabulary_micro.Text.{Text, codes}
use vocabulary_micro.TextProcessor.Tokens.{Occurrence, extract_occurrence_sync_candidates}
use vocabulary_micro.SyncQueue.{Queue}
use vocabulary_micro.CandidateResolver.{SyncIndex, canonicalize_candidate_categories}
use vocabulary_micro.CandidateResolver.Sync.{
  SyncState, SyncRepository, RepositoryCall, sync_candidates,
}
use vocabulary_micro.CandidateResolver.Enqueue.{AsyncSyncJob, enqueue_async_sync}
use vocabulary_micro.CandidateResolver.Partition.{partition_sync_candidates}
use vocabulary_micro.ThirdPass.Upsert.{MweRecord, UpsertReport, upsert_mwe_records_from_occurrences}
use vocabulary_micro.ParseAndSync.Summaries.{
  SyncStage, stage_skipped, stage_without_candidates, stage_synced, stage_queued, PassLists,
  no_lists, PassSummary,
}

-- The lists of `execute`, the sets of known terms that the direct sync changes, the queue, and what
-- the repository was told to do. `raised` is the error that leaves `execute`; the lists of the pass
-- that raises it are lost.
pub record RequestState : Type 0 where
  pub added : List Text
  pub already_existed : List Text
  pub queued_for_sync : List Text
  pub rejected : List Text
  pub category_review_required : List (Text × Text)
  pub sync_async : Bool
  pub known_terms_index : SyncIndex
  pub async_queue : Option (Queue AsyncSyncJob)
  pub repository_calls : List RepositoryCall
  pub mwe_records : List MweRecord
  pub raised : Option Text

-- The settings and the repositories that a sync uses. `create_category` is
-- `ensure_category_exists`'s call, `repository` answers the entries, and the last three belong to the
-- upserts of expressions.
pub record Syncing : Type 0 where
  pub async_sync_enabled : Bool
  pub persistent_queue_enabled : Bool
  pub auto_add_category : Text
  pub request_id : Text
  pub create_category : Text → Option (List Text)
  pub repository : SyncRepository
  pub mwe_available : Bool
  pub mwe_succeeds : MweRecord → Bool
  pub max_gap_tokens : ℕ

-- `self.settings.async_sync_enabled and self._async_queue is not None`
abbrev pub uses_queue : Syncing → Option (Queue AsyncSyncJob) → Bool
uses_queue s none = false
uses_queue s (some q) = s.async_sync_enabled

-- The sets behind a direct sync, which changes them in place.
abbrev pub index_behind : SyncIndex → SyncState → SyncIndex
index_behind index s = record {
  known_lemmas = index.known_lemmas;
  existing_single = s.existing_single;
  existing_multi = s.existing_multi;
  existing_categories = s.existing_categories;
}

-- `added`, `already_existed`, `queued_for_sync` and `category_review_required` of one sync.
abbrev lists_of : List Text → List Text → List Text → List (Text × Text) → PassLists
lists_of added existed queued review = record {
  added = added;
  already_existed = existed;
  queued_for_sync = queued;
  rejected_candidates = [];
  category_review_required = review;
}

-- `xs.extend(ys)` behind a call, which an error of the call prevents.
abbrev pub unless_raised : {A : Type 0} → Option Text → List A → List A → List A
unless_raised none xs ys = xs ++ ys
unless_raised (some e) xs ys = xs

-- What follows a sync, which its error prevents.
abbrev pub behind_sync :
    RequestState → PassSummary → RequestState × PassSummary → RequestState × PassSummary
behind_sync p summary next = elim p.raised [ none ↦ next | some e ↦ (p, summary) ]

module _ (sync : Syncing) where
  unfoldable pub sync_by_queue :
      Option (List (Text × Text)) → List Text → RequestState → RequestState × SyncStage × PassLists
  sync_by_queue categories accepted p =
      let r =
        enqueue_async_sync sync.persistent_queue_enabled sync.auto_add_category sync.request_id
          categories accepted p.async_queue in
      (
        record {
          added = p.added;
          already_existed = p.already_existed;
          queued_for_sync = p.queued_for_sync ++ r.1;
          rejected = p.rejected;
          category_review_required = p.category_review_required;
          sync_async = true;
          known_terms_index = p.known_terms_index;
          async_queue = r.0;
          repository_calls = p.repository_calls;
          mwe_records = p.mwe_records;
          raised = p.raised;
        },
        stage_queued r.2,
        lists_of [] [] r.1 [],
      )

  unfoldable pub sync_directly :
      (ℕ → Bool)
      → Option (List (Text × Text))
      → List Text
      → RequestState
      → RequestState × SyncStage × PassLists
  sync_directly late categories accepted p =
      let r =
        sync_candidates sync.create_category sync.auto_add_category categories late sync.repository
          p.known_terms_index accepted in
      (
        record {
          added = unless_raised r.1.1 p.added r.0.added;
          already_existed = unless_raised r.1.1 p.already_existed r.0.already_existed;
          queued_for_sync = p.queued_for_sync;
          rejected = p.rejected;
          category_review_required =
              unless_raised r.1.1 p.category_review_required r.0.category_review_required;
          sync_async = p.sync_async;
          known_terms_index = index_behind p.known_terms_index r.0;
          async_queue = p.async_queue;
          repository_calls = p.repository_calls ++ r.1.0;
          mwe_records = p.mwe_records;
          raised = r.1.1;
        },
        stage_synced r.2,
        lists_of r.0.added r.0.already_existed [] r.0.category_review_required,
      )

  unfoldable pub sync_accepted :
      (ℕ → Bool)
      → Option (List (Text × Text))
      → List Text
      → RequestState
      → RequestState × SyncStage × PassLists
  sync_accepted late categories accepted p =
      if uses_queue sync p.async_queue
      then sync_by_queue categories accepted p
      else sync_directly late categories accepted p

  -- A later pass syncs only if it has accepted candidates.
  unfoldable pub sync_later :
      (ℕ → Bool)
      → Option (List (Text × Text))
      → List Text
      → RequestState
      → RequestState × SyncStage × PassLists
  sync_later late categories [] p = (p, stage_without_candidates, no_lists)
  sync_later late categories (c ∷ cs) p = sync_accepted late categories (c ∷ cs) p

  -- The candidates of a summary's occurrences, accepted and rejected, and their categories.
  unfoldable pub pass_candidates :
      Option (List (Option Occurrence)) → (List Text × List Text) × Option (List (Text × Text))
  pass_candidates occurrences =
      let gathered = extract_occurrence_sync_candidates occurrences sync.auto_add_category in
      let categories = canonicalize_candidate_categories sync.auto_add_category (some gathered.1) in
      (partition_sync_candidates gathered.0 categories, categories)

abbrev with_rejected : PassLists → List Text → PassLists
with_rejected l rejected = record {
  added = l.added;
  already_existed = l.already_existed;
  queued_for_sync = l.queued_for_sync;
  rejected_candidates = rejected;
  category_review_required = l.category_review_required;
}

-- `rejected.extend(...)`
abbrev pub extend_rejected : RequestState → List Text → RequestState
extend_rejected p rejected = record {
  added = p.added;
  already_existed = p.already_existed;
  queued_for_sync = p.queued_for_sync;
  rejected = p.rejected ++ rejected;
  category_review_required = p.category_review_required;
  sync_async = p.sync_async;
  known_terms_index = p.known_terms_index;
  async_queue = p.async_queue;
  repository_calls = p.repository_calls;
  mwe_records = p.mwe_records;
  raised = p.raised;
}

abbrev pub add_mwe_records : RequestState → List MweRecord → RequestState
add_mwe_records p records = record {
  added = p.added;
  already_existed = p.already_existed;
  queued_for_sync = p.queued_for_sync;
  rejected = p.rejected;
  category_review_required = p.category_review_required;
  sync_async = p.sync_async;
  known_terms_index = p.known_terms_index;
  async_queue = p.async_queue;
  repository_calls = p.repository_calls;
  mwe_records = p.mwe_records ++ records;
  raised = p.raised;
}

abbrev with_sync : PassSummary → Bool → SyncStage → PassLists → Option UpsertReport → PassSummary
with_sync s sync_enabled stage lists upserts = record {
  enabled = s.enabled;
  status = s.status;
  reason = s.reason;
  candidates_count = s.candidates_count;
  resolved_count = s.resolved_count;
  uncertain_count = s.uncertain_count;
  occurrences = s.occurrences;
  cache_hit = s.cache_hit;
  sync_enabled = sync_enabled;
  sync_stage_status = stage;
  lists = lists;
  error = s.error;
  mwe_upsert_status = upserts;
}

module _ (sync : Syncing) (should_sync : Bool) (late : ℕ → Bool) where
  -- What follows the run of the second pass.
  unfoldable pub sync_second_pass : PassSummary → RequestState → RequestState × PassSummary
  sync_second_pass summary p =
      let c = pass_candidates sync summary.occurrences in
      let done = sync_later sync late c.1 c.0.0 p in
      if should_sync
      then behind_sync done.0 summary (
        extend_rejected done.0 c.0.1,
        with_sync summary true done.1 (with_rejected done.2 c.0.1) summary.mwe_upsert_status,
      )
      else (
        p,
        with_sync summary false (stage_skipped (codes "sync_disabled")) summary.lists
            summary.mwe_upsert_status,
      )

  -- What follows the run of the third pass, which also records its expressions.
  unfoldable pub sync_third_pass : PassSummary → RequestState → RequestState × PassSummary
  sync_third_pass summary p =
      let c = pass_candidates sync summary.occurrences in
      let done = sync_later sync late c.1 c.0.0 p in
      let upserts =
        upsert_mwe_records_from_occurrences sync.mwe_available sync.mwe_succeeds sync.max_gap_tokens
          summary.occurrences in
      if should_sync
      then behind_sync done.0 summary (
        extend_rejected (add_mwe_records done.0 upserts.1) c.0.1,
        with_sync summary true done.1 (with_rejected done.2 c.0.1) (some upserts.0),
      )
      else (
        extend_rejected p c.0.1,
        with_sync summary false (stage_skipped (codes "sync_disabled"))
            (with_rejected no_lists c.0.1) summary.mwe_upsert_status,
      )

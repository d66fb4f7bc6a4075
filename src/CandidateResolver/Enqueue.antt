-- ===== src/CandidateResolver/Enqueue.antt =====
-- `enqueue_async_sync` and `build_sync_message` of `SyncCandidateResolver`, on the queue of
-- sync_queue.py.
use vocabulary_micro.Prelude.{
  ℕ, ◌<◌, ◌≡◌, refl, ◌⊎◌, inl, inr, Bool, true, false, not, Option, none, some, List, [], ◌∷◌, ◌++◌,
  map, leb, if◌then◌else◌, leb→lt, Bool-cases, length, is_empty, ◌==◌, nat_equality, list_equality,
}
use vocabulary_micro.Text.{Text, codes}
use vocabulary_micro.TextProcessor.Tokens.{join_lines, item_line, format_sync_message}
use vocabulary_micro.SyncQueue.{Queue, enqueue}
use vocabulary_micro.CandidateResolver.Sync.{suggested_for}

-- `AsyncSyncJob`, but for the time of its making.
pub record AsyncSyncJob : Type 0 where
  pub request_id : Text
  pub candidates : List Text
  pub auto_add_category : Text
  pub candidate_categories : List (Text × Text)

-- The status that the stage reports; `queue_depth` is none where the dictionary has no such key.
pub record QueueStatus : Type 0 where
  pub status : Text
  pub reason : Text
  pub queue_depth : Option ℕ
  pub candidate_count : ℕ
  pub queued_count : ℕ

unfoldable pub job_of : Text → Text → Option (List (Text × Text)) → List Text → AsyncSyncJob
job_of auto request_id categories candidates = record {
  request_id = request_id;
  candidates = candidates;
  auto_add_category = auto;
  candidate_categories = map (λ c. (c, suggested_for auto categories c)) candidates;
}

abbrev status_of : Text → Text → Option ℕ → List Text → ℕ → QueueStatus
status_of status reason depth candidates queued = record {
  status = status;
  reason = reason;
  queue_depth = depth;
  candidate_count = length candidates;
  queued_count = queued;
}

-- The queue after the call, the candidates that are queued and the status.
unfoldable pub enqueue_async_sync :
    Bool
    → Text
    → Text
    → Option (List (Text × Text))
    → List Text
    → Option (Queue AsyncSyncJob)
    → Option (Queue AsyncSyncJob) × List Text × QueueStatus
enqueue_async_sync persistent auto request_id categories candidates none =
    if is_empty candidates
    then (none, [], status_of (codes "ok") (codes "no_candidates") none [] 0)
    else (none, [], status_of (codes "failed") (codes "async_queue_unavailable") none candidates 0)
enqueue_async_sync persistent auto request_id categories candidates (some q) =
    let answer = enqueue q (job_of auto request_id categories candidates) in
    let reason =
      if persistent
      then codes "async_sync_enabled_persistent"
      else codes "async_sync_enabled_inmemory" in
    if is_empty candidates
    then (some q, [], status_of (codes "ok") (codes "no_candidates") none [] 0)
    else if answer.1
    then (
      some answer.0,
      candidates,
      status_of (codes "queued") reason (some answer.2) candidates (length candidates),
    )
    else (
      some answer.0,
      [],
      status_of (codes "rejected") (codes "queue_full") (some answer.2) candidates 0,
    )

unfoldable pub build_sync_message : List Text → List Text → List Text → Text → Text
build_sync_message added already_existed queued_for_sync status =
    let message = format_sync_message added already_existed in
    if not (is_empty queued_for_sync)
    then message ++ 10 ∷ join_lines (codes "queued for async sync:" ∷ map item_line queued_for_sync)
    else if status == codes "rejected"
    then message ++ 10 ∷ codes "async sync queue is full; request not enqueued."
    else message

-- The job of a request: all its candidates, each with the category suggested for it.
pub record IsJob (auto request_id : Text) (categories : Option (List (Text × Text)))
    (candidates : List Text) (job : AsyncSyncJob) : Type 0 where
  pub whole : job.candidates ≡ candidates
  pub asked : job.request_id ≡ request_id
  pub automatic : job.auto_add_category ≡ auto
  pub suggested :
      job.candidate_categories ≡ map (λ c. (c, suggested_for auto categories c)) candidates

-- What the stage promises: either the queue takes one job with all the candidates behind the others,
-- and all of them are reported as queued, or it stays as it is and none is.
abbrev pub TakenOrLeft :
    (AsyncSyncJob → Type 0)
    → List Text
    → Queue AsyncSyncJob
    → Queue AsyncSyncJob
    → List Text
    → QueueStatus
    → Type 0
TakenOrLeft Wanted candidates q r queued s =
    ((job : AsyncSyncJob) × Wanted job × (r.jobs ≡ q.jobs ++ job ∷ []))
      × (queued ≡ candidates)
      × (s.queued_count ≡ length candidates)
      × (q.stopped ≡ false)
      × (length q.jobs < q.limit)
    ⊎ (r ≡ q) × (queued ≡ []) × (s.queued_count ≡ 0)

enqueue-cases :
    (q : Queue AsyncSyncJob) (job : AsyncSyncJob)
    → ((enqueue q job).1 ≡ true)
        × ((enqueue q job).0.jobs ≡ q.jobs ++ job ∷ [])
        × (q.stopped ≡ false)
        × (length q.jobs < q.limit)
      ⊎ ((enqueue q job).1 ≡ false) × ((enqueue q job).0 ≡ q)
unfolding enqueue
enqueue-cases q job = elim (Bool-cases q.stopped) [
  | inl f ↦ simp f (inr (refl, refl))
  | inr f ↦ elim (Bool-cases (leb q.limit (length q.jobs))) [
    | inl g ↦ simp (f, g) (inr (refl, refl))
    | inr g ↦ simp (f, g) (inl (refl, refl, refl, leb→lt q.limit (length q.jobs) g))
  ]
]

-- On a queue, whatever the candidates: one job is taken, by a queue that is not stopped and has room,
-- with all candidates in order, their suggested categories and the request's id, and all candidates
-- are reported as queued; or nothing is queued and the queue stays as it is.
pub enqueue_async_sync_lem :
    (persistent : Bool) (auto request_id : Text) (categories : Option (List (Text × Text)))
    (candidates : List Text) (q : Queue AsyncSyncJob)
    → (r : Queue AsyncSyncJob) × ((enqueue_async_sync persistent auto request_id categories
          candidates
          (some q)).0
        ≡ some r)
      × TakenOrLeft
          (IsJob auto request_id categories candidates)
          candidates
          q
          r
          (enqueue_async_sync persistent auto request_id categories candidates (some q)).1
          (enqueue_async_sync persistent auto request_id categories candidates (some q)).2
unfolding enqueue_async_sync job_of
enqueue_async_sync_lem persistent auto request_id categories candidates q =
    let job = job_of auto request_id categories candidates in
    let wanted : IsJob auto request_id categories candidates job = record {
      whole = refl;
      asked = refl;
      automatic = refl;
      suggested = refl;
    } in
    elim (Bool-cases (is_empty candidates)) [
      | inl e ↦ rw e (q, refl, inr (refl, refl, refl))
      | inr e ↦ elim (enqueue-cases q job) [
        | inl t ↦ rw (e, t.0) (_, refl, inl ((job, wanted, t.1), refl, refl, t.2, t.3))
        | inr l ↦ rw (e, l.0) (_, refl, inr (l.1, refl, refl))
      ]
    ]

-- ===== src/SyncQueue.antt =====
-- core/domain/services/sync_queue.py: `AsyncSyncQueue`. Each method body under `self._lock` is one
-- atomic action on the record of the object's fields; time and threads are in `SyncQueue.Threads`.
pub mod Threads
pub mod Actions
pub mod Invariant
pub mod Order
pub mod Shutdown
pub mod Draining
pub mod Reports
use vocabulary_micro.Prelude.{
  ℕ, zero, suc, ◌+◌, ◌-◌, max, Bool, true, false, ◌&&◌, ◌||◌, not, List, [], ◌∷◌, ◌++◌, Option,
  none, some, leb, ltb, ◌==◌, nat_equality, if◌then◌else◌, length, is_empty,
}

-- The fields of the object; `jobs` is the content of the `queue.Queue`, whose bound is `limit` and
-- whose count of unfinished tasks is `unfinished`.
pub record Queue (A : Type 0) : Type 0 where
  pub jobs : List A
  pub limit : ℕ
  pub unfinished : ℕ
  pub stopped : Bool
  pub queued : ℕ
  pub in_flight : ℕ

module _ {A : Type 0} where
  -- `__init__`, but for its worker threads.
  unfoldable pub init : ℕ → Queue A
  init max_size = record {
    jobs = [];
    limit = max 1 max_size;
    unfinished = 0;
    stopped = false;
    queued = 0;
    in_flight = 0;
  }

  -- `enqueue`: the new state, whether the job was accepted, and the depth.
  unfoldable pub enqueue : Queue A → A → Queue A × Bool × ℕ
  enqueue q job =
      if q.stopped
      then (q, false, q.queued)
      else if leb q.limit (length q.jobs)
      then (q, false, q.queued)
      else (
        record q {
          jobs = q.jobs ++ job ∷ [];
          unfinished = q.unfinished + 1;
          queued = q.queued + 1;
        },
        true,
        q.queued + 1,
      )

  -- `_snapshot_state`
  unfoldable pub snapshot : Queue A → ℕ × ℕ × Bool
  snapshot q = (q.queued, q.in_flight, is_empty q.jobs && (q.queued == 0 && q.in_flight == 0))

  abbrev pub is_idle : Queue A → Bool
  is_idle q = (snapshot q).2

  -- The body of `_claim_next_job` behind its guard; the first clause is `queue.Empty`.
  unfoldable claim_from : List A → Queue A → Queue A × Option A
  claim_from [] q = (record q { in_flight = (q.in_flight + 1) - 1; queued = 0 }, none)
  claim_from (job ∷ rest) q =
      (record q { jobs = rest; in_flight = q.in_flight + 1; queued = q.queued - 1 }, some job)

  -- `_claim_next_job`
  unfoldable pub claim_next_job : Queue A → Queue A × Option A
  unfolding claim_from
  claim_next_job q = if q.queued == 0 then (q, none) else claim_from q.jobs q

  -- `_release_in_flight`
  unfoldable pub release_in_flight : Queue A → Queue A
  release_in_flight q = record q { in_flight = q.in_flight - 1 }

  -- `self._queue.task_done()`, which raises ValueError when no task is unfinished.
  unfoldable pub task_done : Queue A → Option (Queue A)
  task_done q =
      if q.unfinished == 0 then none else some (record q { unfinished = q.unfinished - 1 })

  -- `self._stop_event.set()`
  unfoldable pub set_stop : Queue A → Queue A
  set_stop q = record q { stopped = true }

  -- The locked part of one round of `_clear_queued_jobs`: the job that is taken out, or none where
  -- the method returns.
  unfoldable clear_from : List A → Queue A → Queue A × Option A
  clear_from [] q = (record q { queued = 0 }, none)
  clear_from (job ∷ rest) q = (record q { jobs = rest; queued = q.queued - 1 }, some job)

  unfoldable pub clear_one : Queue A → Queue A × Option A
  unfolding clear_from
  clear_one q = if q.queued == 0 then (q, none) else clear_from q.jobs q

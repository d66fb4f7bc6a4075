-- ===== src/SyncQueue/Actions.antt =====
-- What single actions do to the counters of a queue.
use vocabulary_micro.Prelude.{ℕ, ◌+◌, ◌≤◌, ◌≡◌, refl, ◌↔◌, true, [], ◌++◌, arith, length}
use vocabulary_micro.SyncQueue.{
  Queue, is_idle, snapshot, claim_next_job, release_in_flight, task_done,
}
use vocabulary_micro.SyncQueue.Threads.{Worker, top, handling, releasing, crashed, worker_step}

module _ {A : Type 0} where
  -- A worker that holds a job, or has yet to release it.
  abbrev pub busy : Worker A → ℕ
  busy (handling job) = 1
  busy releasing = 1
  busy w = 0

  -- A worker that owes a `task_done`.
  abbrev pub serving : Worker A → ℕ
  serving (handling job) = 1
  serving w = 0

  abbrev pub dead : Worker A → ℕ
  dead crashed = 1
  dead w = 0

  -- The counters fit the content, given how many other threads are busy (`b`) and owe a
  -- `task_done` (`d`).
  pub record Fits (b d : ℕ) (q : Queue A) (w : Worker A) : Type 0 where
    pub counted : q.queued ≡ length q.jobs
    pub bounded : length q.jobs ≤ q.limit
    pub flying : q.in_flight ≡ b + busy w
    pub owing : q.unfinished ≡ length q.jobs + (d + serving w)
    pub alive : dead w ≡ 0

  pub worker_step-Fits :
      (b d : ℕ) (q : Queue A) (w : Worker A)
      → Fits b d q w
      → Fits b d (worker_step q w).0 (worker_step q w).1
  unfolding worker_step claim_next_job release_in_flight task_done
  worker_step-Fits b d q top h = ground arith
  worker_step-Fits b d q _ h = ground arith

  -- A worker takes jobs from the front of the queue, and sends none back.
  pub jobs-worker_step :
      (q : Queue A) (w : Worker A) → q.jobs ≡ (worker_step q w).2 ++ (worker_step q w).0.jobs
  unfolding worker_step claim_next_job release_in_flight task_done
  jobs-worker_step q top = refl
  jobs-worker_step q _ = ground arith

  -- No job is queued and none is in flight exactly when the queue reports that it is idle.
  pub is_idle_iff :
      (q : Queue A)
      → q.queued ≡ length q.jobs
      → (is_idle q ≡ true) ↔ ((q.jobs ≡ []) × (q.in_flight ≡ 0))
  unfolding snapshot
  is_idle_iff q h = ground arith

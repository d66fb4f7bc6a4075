-- ===== src/SyncQueue/Threads.antt =====
-- The worker threads of `AsyncSyncQueue` and the callers of its methods, as interleaved steps.
use vocabulary_micro.Prelude.{
  ℕ, suc, ◌+◌, ◌≡◌, Bool, ◌&&◌, List, [], ◌∷◌, ◌++◌, Option, none, some, if◌then◌else◌, replicate,
}
use vocabulary_micro.SyncQueue.{
  Queue, init, enqueue, is_idle, claim_next_job, release_in_flight, task_done, set_stop, clear_one,
}

-- Where a worker stands in `_worker_loop`: at the top; behind the snapshot, with the idle flag that
-- it holds; about to claim; in the handler; behind `task_done`; out of the loop; or dead, by an
-- error that `task_done` raised.
pub data Worker (A : Type 0) : Type 0 where
  top : Worker A
  looked : Bool → Worker A
  claiming : Worker A
  handling : A → Worker A
  releasing : Worker A
  exited : Worker A
  crashed : Worker A

-- The object, its workers, how many rounds of `_clear_queued_jobs` owe a `task_done`, and, for the
-- statements, the jobs that were accepted, taken out of the queue, taken to be canceled, and handled, oldest
-- first.
pub record System (A : Type 0) : Type 0 where
  pub queue : Queue A
  pub workers : List (Worker A)
  pub clearing : ℕ
  pub accepted : List A
  pub taken : List A
  pub canceled : List A
  pub handled : List A

module _ {A : Type 0} where
  -- `max(1, int(worker_count))` workers are started.
  unfoldable pub start : ℕ → ℕ → System A
  start max_size more_workers = record {
    queue = init max_size;
    workers = replicate (suc more_workers) top;
    clearing = 0;
    accepted = [];
    taken = [];
    canceled = [];
    handled = [];
  }

  abbrev pub from_option : Option A → List A
  from_option none = []
  from_option (some a) = a ∷ []

  abbrev claimed : Option A → Worker A
  claimed none = top
  claimed (some job) = handling job

  abbrev done_or_dead : Queue A → Option (Queue A) → Queue A × Worker A
  done_or_dead q none = (q, crashed)
  done_or_dead q (some q') = (q', releasing)

  -- One atomic action of a worker: the new state, the worker behind it, and the jobs that it took
  -- out of the queue and that it finished.
  unfoldable pub worker_step : Queue A → Worker A → Queue A × Worker A × List A × List A
  worker_step q top = (q, looked (is_idle q), [], [])
  worker_step q (looked idle) = (q, if q.stopped && idle then exited else claiming, [], [])
  worker_step q claiming =
      let (q', job) = claim_next_job q in (q', claimed job, from_option job, [])
  worker_step q (handling job) = let (q', w) = done_or_dead q (task_done q) in (q', w, [], job ∷ [])
  worker_step q releasing = (release_in_flight q, top, [], [])
  worker_step q exited = (q, exited, [], [])
  worker_step q crashed = (q, crashed, [], [])

  -- What follows when the worker between `ws` and `vs` makes its step.
  unfoldable pub after_work : System A → List (Worker A) → Worker A → List (Worker A) → System A
  after_work s ws w vs =
      let (q, w', took, finished) = worker_step s.queue w in
      record s {
        queue = q;
        workers = ws ++ w' ∷ vs;
        taken = s.taken ++ took;
        handled = s.handled ++ finished;
      }

  unfoldable pub after_enqueue : System A → A → System A
  after_enqueue s job =
      let (q, done, depth) = enqueue s.queue job in
      record s { queue = q; accepted = s.accepted ++ (if done then job ∷ [] else []) }

  abbrev owed : Option A → ℕ
  owed none = 0
  owed (some a) = 1

  unfoldable pub after_clear : System A → System A
  after_clear s =
      let (q, job) = clear_one s.queue in
      record s {
        queue = q;
        clearing = s.clearing + owed job;
        taken = s.taken ++ from_option job;
        canceled = s.canceled ++ from_option job;
      }

  -- The steps: of a worker, of a caller of `enqueue`, of `shutdown` that sets the event, and of
  -- `_clear_queued_jobs`, whose round is a locked part and a `task_done`.
  pub data Step : System A → System A → Type 0 where
    work :
        (s : System A) (ws : List (Worker A)) (w : Worker A) (vs : List (Worker A))
        → s.workers ≡ ws ++ w ∷ vs
        → Step s (after_work s ws w vs)
    submit : (s : System A) (job : A) → Step s (after_enqueue s job)
    stop : (s : System A) → Step s (record s { queue = set_stop s.queue })
    clear : (s : System A) → Step s (after_clear s)
    cleared :
        (s : System A) (n : ℕ) (q : Queue A)
        → s.clearing ≡ suc n
        → task_done s.queue ≡ some q
        → Step s (record s { queue = q; clearing = n })

  pub data Reach (s : System A) : System A → Type 0 where
    here : Reach s s
    next : {t u : System A} → Reach s t → Step t u → Reach s u

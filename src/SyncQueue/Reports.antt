-- ===== src/SyncQueue/Reports.antt =====
-- `wait_for_idle` and `shutdown` of sync_queue.py, and what the report of a shutdown says. Other
-- threads make steps between the actions of the caller, and the clock decides how many.
pub mod Steps
pub mod Laws
use vocabulary_micro.Prelude.{
  ℕ, suc, ◌≡◌, Bool, true, false, none, some, List, [], ◌∷◌, if◌then◌else◌, nat_equality,
  list_equality, pair_equality,
}
use vocabulary_micro.SyncQueue.{
  Queue, enqueue, is_idle, snapshot, set_stop, clear_one, claim_next_job, release_in_flight,
  task_done,
}
use vocabulary_micro.SyncQueue.Threads.{
  Worker, top, looked, claiming, handling, releasing, exited, crashed, System, start, worker_step,
  after_work, after_enqueue, after_clear, from_option, Step, work, submit, stop, clear, cleared,
  Reach, here, next,
}
use vocabulary_micro.SyncQueue.Actions.{busy}
use vocabulary_micro.SyncQueue.Invariant.{
  tally, tally-append, IsConsistent, Reach-IsConsistent, idle_iff,
}
use vocabulary_micro.SyncQueue.Order.{tally_jobs, held, accepted_accounted, Reach-Closed}

pub record ShutdownReport : Type 0 where
  pub drain : Bool
  pub waited_for_idle : Bool
  pub idle_reached : Bool
  pub remaining_depth : ℕ
  pub in_flight_jobs : ℕ
  pub canceled_jobs : ℕ
  pub alive_workers : ℕ

module _ {A : Type 0} where
  -- `wait_for_idle`: the states at its looks ahead of the deadline, and that at the last one.
  unfoldable pub wait_for_idle : List (Queue A) → Queue A → Bool
  wait_for_idle [] last = is_idle last
  wait_for_idle (q ∷ qs) last = if is_idle q then true else wait_for_idle qs last

  -- `worker.is_alive()`
  abbrev pub is_alive : Worker A → ℕ
  is_alive exited = 0
  is_alive crashed = 0
  is_alive w = 1

  -- The end of `shutdown`: the workers are counted in one state, and the counters read in another.
  unfoldable pub shutdown_report : Bool → Bool → ℕ → System A → System A → ShutdownReport
  shutdown_report drain waited canceled joined last = record {
    drain = drain;
    waited_for_idle = waited;
    idle_reached = is_idle last.queue;
    remaining_depth = (snapshot last.queue).0;
    in_flight_jobs = (snapshot last.queue).1;
    canceled_jobs = canceled;
    alive_workers = tally is_alive joined.workers;
  }

  abbrev pub with_stop : System A → System A
  with_stop s = record s { queue = set_stop s.queue }

  -- The rounds of `_clear_queued_jobs` that took a job, with the steps of other threads.
  pub data Clears (s : System A) : ℕ → System A → Type 0 where
    begin : Clears s 0 s
    others : {n : ℕ} {t u : System A} → Clears s n t → Step t u → Clears s n u
    round :
        {n : ℕ} {t : System A} (job : A)
        → Clears s n t
        → (clear_one t.queue).1 ≡ some job
        → Clears s (suc n) (after_clear t)

  -- The looks of `wait_for_idle` up to the one that ends it, with the steps of other threads ahead of
  -- each.
  pub data Waits : System A → List (Queue A) → System A → Type 0 where
    last_look : {s t : System A} → Reach s t → Waits s [] t
    look :
        {s t u : System A} {qs : List (Queue A)}
        → Reach s t
        → is_idle t.queue ≡ false
        → Waits t qs u
        → Waits s (t.queue ∷ qs) u

  -- A call of `shutdown`, from the state in which it sets the event to that of its last reading.
  pub data Shutdown (s : System A) : System A → ShutdownReport → Type 0 where
    draining :
        {t u v : System A} (qs : List (Queue A))
        → Waits (with_stop s) qs t
        → Reach t u
        → Reach u v
        → Shutdown s v (shutdown_report true (wait_for_idle qs t.queue) 0 u v)
    canceling :
        {t u v : System A} (n : ℕ)
        → Clears (with_stop s) n t
        → (clear_one t.queue).1 ≡ none
        → Reach (after_clear t) u
        → Reach u v
        → Shutdown s v (shutdown_report false false n u v)

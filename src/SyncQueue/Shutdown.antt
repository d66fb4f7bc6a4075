-- ===== src/SyncQueue/Shutdown.antt =====
-- A stop that comes between a worker's snapshot and its test of the event.
use vocabulary_micro.Prelude.{
  ℕ, max, ◌≡◌, refl, ap, true, false, List, [], ◌∷◌, ◌++◌, append-nil, arith,
}
use vocabulary_micro.SyncQueue.{Queue, init, enqueue, set_stop, snapshot}
use vocabulary_micro.SyncQueue.Threads.{
  Worker, top, looked, exited, System, start, worker_step, after_work, after_enqueue, after_clear,
  Step, work, submit, stop, clear, cleared, Reach, here, next,
}
use vocabulary_micro.SyncQueue.Invariant.{tally, tally-append}

module _ {A : Type 0} where
  -- The system once the only worker has left, with `job` still in the queue.
  stranded_state : ℕ → A → System A
  stranded_state m job = record {
    queue = record {
      jobs = job ∷ [];
      limit = max 1 m;
      unfinished = 1;
      stopped = true;
      queued = 1;
      in_flight = 0;
    };
    workers = exited ∷ [];
    clearing = 0;
    accepted = job ∷ [];
    taken = [];
    canceled = [];
    handled = [];
  }

  looked_state : ℕ → System A
  looked_state m = after_work (start m 0) [] top []

  submitted_state : ℕ → A → System A
  submitted_state m job = record {
    queue = record {
      jobs = job ∷ [];
      limit = max 1 m;
      unfinished = 1;
      stopped = false;
      queued = 1;
      in_flight = 0;
    };
    workers = looked true ∷ [];
    clearing = 0;
    accepted = job ∷ [];
    taken = [];
    canceled = [];
    handled = [];
  }

  submitted_lem : (m : ℕ) (job : A) → after_enqueue (looked_state m) job ≡ submitted_state m job
  unfolding looked_state submitted_state start init after_work worker_step snapshot after_enqueue
      enqueue
  submitted_lem m job = ground arith

  submitted-Reach : (m : ℕ) (job : A) → Reach (start m 0) (submitted_state m job)
  submitted-Reach m job =
      let e : (start {A = A} m 0).workers ≡ top ∷ [] = unfold start in refl in
      let r : Reach (start m 0) (looked_state m) =
        unfold looked_state in next here (work (start m 0) [] top [] e) in
      rw (submitted_lem m job) at (next r (submit (looked_state m) job))

  stranded-Reach : (m : ℕ) (job : A) → Reach (start m 0) (stranded_state m job)
  unfolding stranded_state submitted_state after_work worker_step set_stop
  stranded-Reach m job =
      let s = record (submitted_state m job) { queue = set_stop (submitted_state m job).queue } in
      next (next (submitted-Reach m job) (stop (submitted_state m job)))
        (work s [] (looked true) [] refl)

  abbrev running : Worker A → ℕ
  running exited = 0
  running w = 1

  idle_worker : (q : Queue A) (w : Worker A) → running w ≡ 0 → worker_step q w ≡ (q, w, [], [])
  unfolding worker_step
  idle_worker q exited h = refl
  idle_worker q _ h = absurd (omega arith)

  -- Every worker has left, and nothing was handled.
  abbrev Abandoned : System A → Type 0
  Abandoned s = (tally running s.workers ≡ 0) × (s.handled ≡ [])

  work-Abandoned :
      (s : System A) (ws : List (Worker A)) (w : Worker A) (vs : List (Worker A))
      → s.workers ≡ ws ++ w ∷ vs
      → Abandoned s
      → Abandoned (after_work s ws w vs)
  unfolding after_work
  work-Abandoned s ws w vs e (h, k) =
      let gone : running w ≡ 0 =
        omega (arith, h, ap (tally running) e, tally-append running ws w vs) in
      rw (idle_worker s.queue w gone, append-nil s.handled) (rw (← e) h, k)

  Step-Abandoned : {s t : System A} → Step s t → Abandoned s → Abandoned t
  Step-Abandoned (work s ws w vs e) h = work-Abandoned s ws w vs e h
  Step-Abandoned (submit s job) h = unfold after_enqueue in h
  Step-Abandoned (stop s) h = h
  Step-Abandoned (clear s) h = unfold after_clear in h
  Step-Abandoned (cleared s n q e k) h = h

  Reach-Abandoned : {s t : System A} → Reach s t → Abandoned s → Abandoned t
  Reach-Abandoned here h = h
  Reach-Abandoned (next r st) h = Step-Abandoned st (Reach-Abandoned r h)

  -- With one worker, for every queue size and job: there is an interleaving in which `enqueue`
  -- accepts the job, the stop event is set, the worker leaves its loop, and the job is still
  -- queued; and no further step of any thread handles a job.
  pub drain_can_strand :
      (m : ℕ) (job : A)
      → (s : System A) × Reach (start m 0) s
        × (s.accepted ≡ job ∷ [])
        × (s.queue.jobs ≡ job ∷ [])
        × (s.queue.stopped ≡ true)
        × ((t : System A) → Reach s t → t.handled ≡ [])
  unfolding stranded_state
  drain_can_strand m job = (
    stranded_state m job,
    stranded-Reach m job,
    refl,
    refl,
    refl,
    λ t r. (Reach-Abandoned r (unfold tally in refl, refl)).1,
  )

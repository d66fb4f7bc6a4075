-- ===== src/SyncQueue/Order.antt =====
-- Where the accepted jobs are, and which jobs are accepted after the stop.
use vocabulary_micro.Prelude.{
  ℕ, suc, ◌+◌, ◌≡◌, refl, ap, ◌∙◌, Bool, true, List, [], ◌∷◌, ◌++◌, arith, if◌then◌else◌,
  append-nil,
}
use vocabulary_micro.SyncQueue.{
  Queue, enqueue, claim_next_job, release_in_flight, task_done, set_stop, clear_one,
}
use vocabulary_micro.SyncQueue.Threads.{
  Worker, top, handling, System, start, worker_step, after_work, after_enqueue, after_clear,
  from_option, Step, work, submit, stop, clear, cleared, Reach, here, next,
}
use vocabulary_micro.SyncQueue.Invariant.{tally, tally-append, tally-replicate, Reach-IsConsistent}

module _ {A : Type 0} where
  -- How many jobs of a list pass a test.
  unfoldable pub tally_jobs : (A → Bool) → List A → ℕ
  tally_jobs p [] = 0
  tally_jobs p (a ∷ rest) = (if p a then 1 else 0) + tally_jobs p rest

  tally_jobs-append :
      (p : A → Bool) (xs ys : List A) → tally_jobs p (xs ++ ys) ≡ tally_jobs p xs + tally_jobs p ys
  unfolding tally_jobs
  tally_jobs-append p [] ys = omega arith
  tally_jobs-append p (a ∷ rest) ys = omega (arith, tally_jobs-append p rest ys)

  -- The job in a worker's hands, if it passes the test.
  abbrev pub held : (A → Bool) → Worker A → ℕ
  held p (handling job) = if p job then 1 else 0
  held p w = 0

  held-worker_step :
      (p : A → Bool) (q : Queue A) (w : Worker A)
      → held p w + tally_jobs p (worker_step q w).2
        ≡ held p (worker_step q w).1 + tally_jobs p (worker_step q w).3
  unfolding worker_step claim_next_job release_in_flight task_done tally_jobs
  held-worker_step p q top = ground arith
  held-worker_step p q _ = ground arith

  -- Every job taken out of the queue was handled, was canceled, or is in a worker's hands.
  abbrev Conserves : (A → Bool) → System A → Type 0
  Conserves p s =
      tally_jobs p s.taken
      ≡ tally_jobs p s.canceled + tally_jobs p s.handled + tally (held p) s.workers

  module _ (p : A → Bool) where
    after_work-Conserves :
        (s : System A) (ws : List (Worker A)) (w : Worker A) (vs : List (Worker A))
        → s.workers ≡ ws ++ w ∷ vs
        → Conserves p s
        → Conserves p (after_work s ws w vs)
    unfolding after_work
    after_work-Conserves s ws w vs e c =
        let (q, w', took, finished) = worker_step s.queue w in
        omega (
          arith,
          c,
          tally_jobs-append p s.taken took,
          tally_jobs-append p s.handled finished,
          tally-append (held p) ws w vs,
          tally-append (held p) ws w' vs,
          held-worker_step p s.queue w,
          ap (tally (held p)) e,
        )

    after_clear-Conserves : (s : System A) → Conserves p s → Conserves p (after_clear s)
    unfolding after_clear
    after_clear-Conserves s c =
        let took = from_option (clear_one s.queue).1 in
        omega (arith, c, tally_jobs-append p s.taken took, tally_jobs-append p s.canceled took)

    Step-Conserves : {s t : System A} → Step s t → Conserves p s → Conserves p t
    Step-Conserves (work s ws w vs e) c = after_work-Conserves s ws w vs e c
    Step-Conserves (submit s job) c = unfold after_enqueue in c
    Step-Conserves (stop s) c = c
    Step-Conserves (clear s) c = after_clear-Conserves s c
    Step-Conserves (cleared s n q e k) c = c

    Reach-Conserves : {s t : System A} → Reach s t → Conserves p s → Conserves p t
    Reach-Conserves here c = c
    Reach-Conserves (next r st) c = Step-Conserves st (Reach-Conserves r c)

    start-Conserves : (m n : ℕ) → Conserves p (start m n)
    unfolding start tally_jobs
    start-Conserves m n = omega (arith, tally-replicate (held p) (suc n) refl)

    -- Of the accepted jobs that pass a test, each one is queued, canceled, handled, or in the hands
    -- of one worker, and counted once.
    pub accepted_accounted :
        (m n : ℕ) (s : System A)
        → Reach (start m n) s
        → tally_jobs p s.accepted
          ≡ tally_jobs p s.queue.jobs
            + tally_jobs p s.canceled
            + tally_jobs p s.handled
            + tally (held p) s.workers
    accepted_accounted m n s r = omega (
      arith,
      ap (tally_jobs p) (Reach-IsConsistent m n s r).ordered,
      tally_jobs-append p s.taken s.queue.jobs,
      Reach-Conserves r (start-Conserves m n),
    )

  worker_step-stopped : (q : Queue A) (w : Worker A) → (worker_step q w).0.stopped ≡ q.stopped
  unfolding worker_step claim_next_job release_in_flight task_done
  worker_step-stopped q top = refl
  worker_step-stopped q _ = ground arith

  abbrev Closed : List A → System A → Type 0
  Closed xs s = (s.queue.stopped ≡ true) × (s.accepted ≡ xs)

  Step-Closed : (xs : List A) {s t : System A} → Step s t → Closed xs s → Closed xs t
  Step-Closed xs (work s ws w vs e) (h, k) =
      unfold after_work in (worker_step-stopped s.queue w ∙ h, k)
  Step-Closed xs (submit s job) (h, k) =
      unfold after_enqueue enqueue in ground (arith, append-nil s.accepted)
  Step-Closed xs (stop s) (h, k) = unfold set_stop in (refl, k)
  Step-Closed xs (clear s) (h, k) = unfold after_clear clear_one in ground arith
  Step-Closed xs (cleared s n q e f) (h, k) = unfold task_done in ground arith

  -- Once the stop event is set it stays set, and no later step accepts a job.
  pub Reach-Closed :
      {s t : System A}
      → s.queue.stopped ≡ true
      → Reach s t
      → (t.queue.stopped ≡ true) × (t.accepted ≡ s.accepted)
  Reach-Closed h here = (h, refl)
  Reach-Closed {s} h (next r st) = Step-Closed s.accepted st (Reach-Closed h r)

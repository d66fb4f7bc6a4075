-- ===== src/SyncQueue/Draining.antt =====
-- `_clear_queued_jobs`, and a worker that no other thread disturbs.
use vocabulary_micro.Prelude.{
  ℕ, zero, suc, ◌+◌, ◌-◌, ◌*◌, ◌<◌, ◌≡◌, refl, ap, ◌∙◌, true, false, List, [], ◌∷◌, ◌++◌,
  append-nil, append_assoc, Option, none, some, arith, length,
}
use vocabulary_micro.SyncQueue.{
  Queue, clear_one, snapshot, task_done, claim_next_job, release_in_flight,
}
use vocabulary_micro.SyncQueue.Threads.{
  Worker, top, looked, claiming, handling, releasing, exited, worker_step,
}

module _ {A : Type 0} where
  abbrev or_same : Queue A → Option (Queue A) → Queue A
  or_same q none = q
  or_same q (some q') = q'

  -- `_clear_queued_jobs`, with the rounds that may be made: the state, and the number canceled.
  unfoldable clear_queued_jobs : ℕ → Queue A → ℕ → Option (Queue A × ℕ)
  clear_queued_jobs zero q canceled = none
  clear_queued_jobs (suc fuel) q canceled =
      let round = clear_one q in
      let rest = clear_queued_jobs fuel (or_same round.0 (task_done round.0)) (canceled + 1) in
      elim (round.1) [ none ↦ some (round.0, canceled) | some job ↦ rest ]

  -- The counters of a queue that no worker is at.
  pub record IsQuiet (q : Queue A) : Type 0 where
    pub counted : q.queued ≡ length q.jobs
    pub flying : q.in_flight ≡ 0
    pub owing : q.unfinished ≡ length q.jobs

  -- The queue with no job left.
  abbrev emptied : Queue A → Queue A
  emptied q = record q { jobs = []; unfinished = 0; queued = 0 }

  clear_nil : (q : Queue A) → IsQuiet q → q.jobs ≡ [] → clear_one q ≡ (emptied q, none)
  unfolding clear_one
  clear_nil q h e = ground arith

  last_round :
      (fuel : ℕ) (q : Queue A) (n : ℕ)
      → (clear_one q).1 ≡ none
      → clear_queued_jobs (suc fuel) q n ≡ some ((clear_one q).0, n)
  unfolding clear_queued_jobs
  last_round fuel q n e = rw (e, clear_queued_jobs)

  one_round :
      (fuel : ℕ) (q : Queue A) (n : ℕ) (job : A)
      → (clear_one q).1 ≡ some job
      → clear_queued_jobs (suc fuel) q n
        ≡ clear_queued_jobs fuel (or_same (clear_one q).0 (task_done (clear_one q).0)) (n + 1)
  unfolding clear_queued_jobs
  one_round fuel q n job e = rw (e, clear_queued_jobs)

  -- The queue behind one round that cancels a job.
  abbrev shortened : Queue A → List A → Queue A
  shortened q jobs = record q { jobs = jobs; unfinished = q.unfinished - 1; queued = q.queued - 1 }

  clear_cons :
      (q : Queue A) (job : A) (jobs : List A)
      → IsQuiet q
      → q.jobs ≡ job ∷ jobs
      → ((clear_one q).1 ≡ some job)
        × (or_same (clear_one q).0 (task_done (clear_one q).0) ≡ shortened q jobs)
  unfolding clear_one task_done
  clear_cons q job jobs h e = ground arith

  shortened-IsQuiet :
      (q : Queue A) (job : A) (jobs : List A)
      → IsQuiet q
      → q.jobs ≡ job ∷ jobs
      → IsQuiet (shortened q jobs)
  shortened-IsQuiet q job jobs h e = ground arith

  -- With a round more than there are jobs, clearing ends, cancels every job, and leaves the
  -- counters at 0.
  clear_queued_jobs_lem :
      (fuel : ℕ) (jobs : List A) (q : Queue A) (n : ℕ)
      → length jobs < fuel
      → q.jobs ≡ jobs
      → IsQuiet q
      → clear_queued_jobs fuel q n ≡ some (emptied q, n + length jobs)
  clear_queued_jobs_lem zero jobs q n f e h = absurd (omega arith)
  clear_queued_jobs_lem (suc fuel) [] q n f e h =
      let e' = clear_nil q h e in
      last_round fuel q n (ap (λ r. r.1) e') ∙ ground (arith, ap (λ r. r.0) e')
  clear_queued_jobs_lem (suc fuel) (job ∷ jobs) q n f e h =
      let (found, left) = clear_cons q job jobs h e in
      let ih =
        clear_queued_jobs_lem fuel jobs (shortened q jobs) (n + 1) (omega arith) refl
          (shortened-IsQuiet q job jobs h e) in
      one_round fuel q n job found
      ∙ ap (λ r. clear_queued_jobs fuel r (n + 1)) left
      ∙ ih
      ∙ ap (λ k. some (emptied q, k)) (omega arith)

-- A worker alone: its queue, where it stands, and the jobs that it has handled.
abbrev Alone : Type 0 → Type 0
Alone A = Queue A × Worker A × List A

module _ {A : Type 0} where
  unfoldable pub run_alone : ℕ → Alone A → Alone A
  run_alone zero s = s
  run_alone (suc n) (q, w, done) =
      let (q', w', took, finished) = worker_step q w in run_alone n (q', w', done ++ finished)

  -- A stopped queue that holds `jobs`, at rest.
  abbrev pub loaded : ℕ → List A → Queue A
  loaded limit jobs = record {
    jobs = jobs;
    limit = limit;
    unfinished = length jobs;
    stopped = true;
    queued = length jobs;
    in_flight = 0;
  }

  module _ (limit : ℕ) (job : A) (jobs : List A) where
    abbrev in_hand : Queue A
    in_hand = record (loaded limit jobs) { unfinished = suc (length jobs); in_flight = 1 }

    look :
        worker_step (loaded limit (job ∷ jobs)) top
        ≡ (loaded limit (job ∷ jobs), looked false, [], [])
    unfolding worker_step snapshot
    look = refl

    stay :
        worker_step (loaded limit (job ∷ jobs)) (looked false)
        ≡ (loaded limit (job ∷ jobs), claiming, [], [])
    unfolding worker_step
    stay = refl

    claim : worker_step (loaded limit (job ∷ jobs)) claiming ≡ (in_hand, handling job, job ∷ [], [])
    unfolding worker_step claim_next_job
    claim = ground arith

    handle :
        worker_step in_hand (handling job)
        ≡ (record (loaded limit jobs) { in_flight = 1 }, releasing, [], job ∷ [])
    unfolding worker_step task_done
    handle = ground arith

    release :
        worker_step (record (loaded limit jobs) { in_flight = 1 }) releasing
        ≡ (loaded limit jobs, top, [], [])
    unfolding worker_step release_in_flight
    release = refl

    -- Five actions of the worker handle one job.
    one_job :
        (n : ℕ) (done : List A)
        → run_alone (suc (suc (suc (suc (suc n))))) (loaded limit (job ∷ jobs), top, done)
          ≡ run_alone n (loaded limit jobs, top, done ++ job ∷ [])
    unfolding run_alone
    one_job n done = rw (look, stay, claim, handle, release) (simp append-nil)

  leave :
      (limit : ℕ) (done : List A)
      → run_alone 2 (loaded limit [], top, done) ≡ (loaded limit [], exited, done)
  unfolding run_alone worker_step snapshot
  leave limit done = simp append-nil

  -- On a stopped queue with no other thread at it, a worker at the top of its loop handles every
  -- queued job in order and leaves the loop: five actions for each job, and two to leave.
  pub run_alone_drains :
      (limit : ℕ) (jobs done : List A)
      → run_alone (5 * length jobs + 2) (loaded limit jobs, top, done)
        ≡ (loaded limit [], exited, done ++ jobs)
  run_alone_drains limit [] done = leave limit done ∙ simp append-nil
  run_alone_drains limit (job ∷ jobs) done =
      let fuel : 5 * length (job ∷ jobs) + 2 ≡ suc (suc (suc (suc (suc (5 * length jobs + 2))))) =
        omega arith in
      ap (λ k. run_alone k (loaded limit (job ∷ jobs), top, done)) fuel
      ∙ one_job limit job jobs (5 * length jobs + 2) done
      ∙ run_alone_drains limit jobs (done ++ job ∷ [])
      ∙ rw (append_assoc done (job ∷ []) jobs)

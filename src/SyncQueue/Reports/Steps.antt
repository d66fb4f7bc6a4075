-- ===== src/SyncQueue/Reports/Steps.antt =====
-- What the steps of a wait and of a clearing keep: canceled jobs, living workers, and a queue at its
-- end.
use vocabulary_micro.Prelude.{
  ℕ, ◌+◌, ◌≤◌, ◌≡◌, refl, ap, true, some, List, [], ◌∷◌, arith, length, length-append, nat_equality,
  list_equality, pair_equality,
}
use vocabulary_micro.SyncQueue.{
  Queue, enqueue, is_idle, set_stop, clear_one, claim_next_job, release_in_flight, task_done,
}
use vocabulary_micro.SyncQueue.Threads.{
  Worker, top, looked, claiming, handling, releasing, exited, crashed, System, worker_step,
  after_work, after_enqueue, after_clear, from_option, Step, work, submit, stop, clear, cleared,
  Reach, here, next,
}
use vocabulary_micro.SyncQueue.Actions.{busy}
use vocabulary_micro.SyncQueue.Invariant.{tally, tally-append}
use vocabulary_micro.SyncQueue.Order.{tally_jobs}
use vocabulary_micro.SyncQueue.Reports.{
  wait_for_idle, is_alive, Clears, begin, others, round, Waits, last_look, look,
}

module _ {A : Type 0} where
  pub Reach-trans : {s t u : System A} → Reach s t → Reach t u → Reach s u
  Reach-trans r here = r
  Reach-trans r (next q st) = next (Reach-trans r q) st

  pub Waits-Reach : {s t : System A} {qs : List (Queue A)} → Waits s qs t → Reach s t
  Waits-Reach (last_look r) = r
  Waits-Reach (look r n w) = Reach-trans r (Waits-Reach w)

  pub Clears-Reach : {s t : System A} {n : ℕ} → Clears s n t → Reach s t
  Clears-Reach begin = here
  Clears-Reach (others c st) = next (Clears-Reach c) st
  Clears-Reach (round {t = t} job c e) = next (Clears-Reach c) (clear t)

  -- What was canceled stays so.
  pub Step-canceled : {s t : System A} → Step s t → length s.canceled ≤ length t.canceled
  Step-canceled (work s ws w vs e) = unfold after_work in omega arith
  Step-canceled (submit s job) = unfold after_enqueue in omega arith
  Step-canceled (stop s) = omega arith
  Step-canceled (clear s) =
      unfold after_clear in
      omega (arith, length-append s.canceled (from_option (clear_one s.queue).1))
  Step-canceled (cleared s n q e k) = omega arith

  pub Reach-canceled : {s t : System A} → Reach s t → length s.canceled ≤ length t.canceled
  Reach-canceled here = omega arith
  Reach-canceled (next r st) = omega (arith, Reach-canceled r, Step-canceled st)

  after_clear-canceled :
      (s : System A) (job : A)
      → (clear_one s.queue).1 ≡ some job
      → length (after_clear s).canceled ≡ length s.canceled + 1
  unfolding after_clear
  after_clear-canceled s job e = rw e (length-append s.canceled (job ∷ []))

  pub Clears-canceled :
      {s t : System A} {n : ℕ} → Clears s n t → length s.canceled + n ≤ length t.canceled
  Clears-canceled begin = omega arith
  Clears-canceled (others c st) = omega (arith, Clears-canceled c, Step-canceled st)
  Clears-canceled (round {t = t} job c e) =
      omega (arith, Clears-canceled c, after_clear-canceled t job e)

  -- A worker that has left its loop is not busy, and stays out of it.
  alive-worker_step : (q : Queue A) (w : Worker A) → is_alive (worker_step q w).1 ≤ is_alive w
  unfolding worker_step claim_next_job release_in_flight task_done
  alive-worker_step q top = ground arith
  alive-worker_step q _ = ground arith

  Step-alive : {s t : System A} → Step s t → tally is_alive t.workers ≤ tally is_alive s.workers
  Step-alive (work s ws w vs e) =
      unfold after_work in
      omega (
        arith,
        tally-append is_alive ws w vs,
        tally-append is_alive ws (worker_step s.queue w).1 vs,
        alive-worker_step s.queue w,
        ap (tally is_alive) e,
      )
  Step-alive (submit s job) = unfold after_enqueue in omega arith
  Step-alive (stop s) = omega arith
  Step-alive (clear s) = unfold after_clear in omega arith
  Step-alive (cleared s n q e k) = omega arith

  pub Reach-alive :
      {s t : System A} → Reach s t → tally is_alive t.workers ≤ tally is_alive s.workers
  Reach-alive here = omega arith
  Reach-alive (next r st) = omega (arith, Reach-alive r, Step-alive st)

  busy-le-alive : (w : Worker A) → busy w ≤ is_alive w
  busy-le-alive top = omega arith
  busy-le-alive (looked b) = omega arith
  busy-le-alive claiming = omega arith
  busy-le-alive (handling job) = omega arith
  busy-le-alive releasing = omega arith
  busy-le-alive exited = omega arith
  busy-le-alive crashed = omega arith

  pub tally-busy-le-alive : (ws : List (Worker A)) → tally busy ws ≤ tally is_alive ws
  unfolding tally
  tally-busy-le-alive [] = omega arith
  tally-busy-le-alive (w ∷ ws) = omega (arith, busy-le-alive w, tally-busy-le-alive ws)

  pub tally_all : (xs : List A) → tally_jobs (λ a. true) xs ≡ length xs
  unfolding tally_jobs
  tally_all [] = refl
  tally_all (x ∷ xs) = omega (arith, tally_all xs)

  -- Nothing is left to do, and nothing more is accepted.
  abbrev pub IsOver : Queue A → Type 0
  IsOver q = (q.jobs ≡ []) × (q.queued ≡ 0) × (q.in_flight ≡ 0) × (q.stopped ≡ true)

  worker_step-IsOver : (q : Queue A) (w : Worker A) → IsOver q → IsOver (worker_step q w).0
  unfolding worker_step claim_next_job release_in_flight task_done
  worker_step-IsOver q top h = h
  worker_step-IsOver q _ h = ground arith

  Step-IsOver : {s t : System A} → Step s t → IsOver s.queue → IsOver t.queue
  Step-IsOver (work s ws w vs e) h = unfold after_work in worker_step-IsOver s.queue w h
  Step-IsOver (submit s job) h = unfold after_enqueue enqueue in ground arith
  Step-IsOver (stop s) h = unfold set_stop in ground arith
  Step-IsOver (clear s) h = unfold after_clear clear_one in ground arith
  Step-IsOver (cleared s n q e k) h = unfold task_done in ground arith

  pub Reach-IsOver : {s t : System A} → Reach s t → IsOver s.queue → IsOver t.queue
  Reach-IsOver here h = h
  Reach-IsOver (next r st) h = Step-IsOver st (Reach-IsOver r h)

  pub wait_for_idle-Waits :
      {s t : System A} {qs : List (Queue A)}
      → Waits s qs t
      → wait_for_idle qs t.queue ≡ is_idle t.queue
  unfolding wait_for_idle
  wait_for_idle-Waits (last_look r) = refl
  wait_for_idle-Waits (look r n w) = rw n (wait_for_idle-Waits w)

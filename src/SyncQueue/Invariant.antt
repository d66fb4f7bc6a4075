-- ===== src/SyncQueue/Invariant.antt =====
-- What holds of the queue and its threads after any interleaving of their steps.
use vocabulary_micro.Prelude.{
  ℕ, zero, suc, ◌+◌, ◌≤◌, ◌≡◌, refl, sym, ap, ◌∙◌, ◌↔◌, true, List, [], ◌∷◌, ◌++◌, some, arith,
  length, length-append, append_assoc, append-nil, replicate,
}
use vocabulary_micro.SyncQueue.{Queue, init, enqueue, is_idle, task_done, set_stop, clear_one}
use vocabulary_micro.SyncQueue.Threads.{
  Worker, top, System, start, worker_step, after_work, after_enqueue, after_clear, from_option,
  Step, work, submit, stop, clear, cleared, Reach, here, next,
}
use vocabulary_micro.SyncQueue.Actions.{
  busy, serving, dead, Fits, worker_step-Fits, jobs-worker_step, is_idle_iff,
}

module _ {A : Type 0} where
  unfoldable pub tally : (Worker A → ℕ) → List (Worker A) → ℕ
  tally f [] = 0
  tally f (w ∷ ws) = f w + tally f ws

  pub tally-append :
      (f : Worker A → ℕ) (ws : List (Worker A)) (w : Worker A) (vs : List (Worker A))
      → tally f (ws ++ w ∷ vs) ≡ tally f ws + tally f vs + f w
  unfolding tally
  tally-append f [] w vs = omega arith
  tally-append f (x ∷ ws) w vs = omega (arith, tally-append f ws w vs)

  pub tally-replicate : (f : Worker A → ℕ) (n : ℕ) → f top ≡ 0 → tally f (replicate n top) ≡ 0
  unfolding tally
  tally-replicate f zero h = refl
  tally-replicate f (suc n) h = omega (arith, tally-replicate f n h)

  pub record IsConsistent (s : System A) : Type 0 where
    pub counted : s.queue.queued ≡ length s.queue.jobs
    pub bounded : length s.queue.jobs ≤ s.queue.limit
    pub flying : s.queue.in_flight ≡ tally busy s.workers
    pub owing : s.queue.unfinished ≡ length s.queue.jobs + (tally serving s.workers + s.clearing)
    pub alive : tally dead s.workers ≡ 0
    pub ordered : s.accepted ≡ s.taken ++ s.queue.jobs

  start-IsConsistent : (m n : ℕ) → IsConsistent (start m n)
  unfolding start init
  start-IsConsistent m n = record {
    counted = refl;
    bounded = omega arith;
    flying = sym (tally-replicate busy (suc n) refl);
    owing = omega (arith, tally-replicate serving (suc n) refl);
    alive = tally-replicate dead (suc n) refl;
    ordered = refl;
  }

  module _ (s : System A) (ws : List (Worker A)) (w : Worker A) (vs : List (Worker A))
      (e : s.workers ≡ ws ++ w ∷ vs) (c : IsConsistent s) where
    others : (Worker A → ℕ) → ℕ
    others f = tally f ws + tally f vs

    split : (f : Worker A → ℕ) → tally f s.workers ≡ others f + f w
    unfolding others
    split f = ap (tally f) e ∙ tally-append f ws w vs

    fits : Fits (others busy) (others serving + s.clearing) s.queue w
    fits = record {
      counted = c.counted;
      bounded = c.bounded;
      flying = c.flying ∙ split busy;
      owing = omega (arith, c.owing, split serving);
      alive = omega (arith, c.alive, split dead);
    }

    fits' :
        Fits
          (others busy)
          (others serving + s.clearing)
          (worker_step s.queue w).0
          (worker_step s.queue w).1
    fits' = worker_step-Fits (others busy) (others serving + s.clearing) s.queue w fits

    rejoin : (f : Worker A → ℕ) (w' : Worker A) → tally f (ws ++ w' ∷ vs) ≡ others f + f w'
    unfolding others
    rejoin f w' = tally-append f ws w' vs

    after_work-IsConsistent : IsConsistent (after_work s ws w vs)
    unfolding after_work
    after_work-IsConsistent = record {
      counted = fits'.counted;
      bounded = fits'.bounded;
      flying = fits'.flying ∙ sym (rejoin busy (worker_step s.queue w).1);
      owing = omega (arith, fits'.owing, rejoin serving (worker_step s.queue w).1);
      alive =
          omega (arith, fits'.alive, rejoin dead (worker_step s.queue w).1, c.alive, split dead);
      ordered =
          c.ordered
          ∙ ap (λ xs. s.taken ++ xs) (jobs-worker_step s.queue w)
          ∙ sym (append_assoc s.taken _ _);
    }

  after_enqueue-IsConsistent :
      (s : System A) (job : A) → IsConsistent s → IsConsistent (after_enqueue s job)
  unfolding after_enqueue enqueue
  after_enqueue-IsConsistent s job c = ground (
    arith,
    length-append s.queue.jobs (job ∷ []),
    append_assoc s.taken s.queue.jobs (job ∷ []),
    append-nil s.accepted,
  )

  after_clear-IsConsistent : (s : System A) → IsConsistent s → IsConsistent (after_clear s)
  unfolding after_clear clear_one
  after_clear-IsConsistent s c = ground (
    arith,
    append-nil s.taken,
    append_assoc s.taken (from_option (clear_one s.queue).1) (clear_one s.queue).0.jobs,
  )

  cleared-IsConsistent :
      (s : System A) (n : ℕ) (q : Queue A)
      → s.clearing ≡ suc n
      → task_done s.queue ≡ some q
      → IsConsistent s
      → IsConsistent (record s { queue = q; clearing = n })
  unfolding task_done
  cleared-IsConsistent s n q e k c = ground arith

  Step-IsConsistent : {s t : System A} → Step s t → IsConsistent s → IsConsistent t
  Step-IsConsistent (work s ws w vs e) c = after_work-IsConsistent s ws w vs e c
  Step-IsConsistent (submit s job) c = after_enqueue-IsConsistent s job c
  Step-IsConsistent (stop s) c =
      unfold set_stop in
      record {
        counted = c.counted;
        bounded = c.bounded;
        flying = c.flying;
        owing = c.owing;
        alive = c.alive;
        ordered = c.ordered;
      }
  Step-IsConsistent (clear s) c = after_clear-IsConsistent s c
  Step-IsConsistent (cleared s n q e k) c = cleared-IsConsistent s n q e k c

  Reach-keeps : {s t : System A} → Reach s t → IsConsistent s → IsConsistent t
  Reach-keeps here c = c
  Reach-keeps (next r st) c = Step-IsConsistent st (Reach-keeps r c)

  -- After any interleaving of workers, submissions, stops and clearings: the counters are the
  -- number of queued jobs, of busy workers and of owed `task_done` calls, the queue keeps its
  -- bound, no worker has died, and jobs leave the queue in the order in which they were accepted.
  pub Reach-IsConsistent : (m n : ℕ) (s : System A) → Reach (start m n) s → IsConsistent s
  Reach-IsConsistent m n s r = Reach-keeps r (start-IsConsistent m n)

  -- The queue reports idle exactly when no job is queued and no worker holds one.
  pub idle_iff :
      (m n : ℕ) (s : System A)
      → Reach (start m n) s
      → (is_idle s.queue ≡ true) ↔ ((s.queue.jobs ≡ []) × (tally busy s.workers ≡ 0))
  idle_iff m n s r =
      let c = Reach-IsConsistent m n s r in
      let (to, from) = is_idle_iff s.queue c.counted in
      (λ h. ((to h).0, sym c.flying ∙ (to h).1), λ h. from (h.0, c.flying ∙ h.1))

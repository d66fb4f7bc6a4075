-- ===== src/SyncQueue/Reports/Laws.antt =====
-- What the report of a shutdown says of the queue and of the jobs.
use vocabulary_micro.SyncQueue.Reports.Steps.{
  Reach-trans, Waits-Reach, Clears-Reach, Step-canceled, Reach-canceled, Clears-canceled,
  Reach-alive, tally-busy-le-alive, IsOver, Reach-IsOver, wait_for_idle-Waits,
}
use vocabulary_micro.Prelude.{
  ℕ, ◌+◌, ◌≤◌, ◌≡◌, refl, sym, ap, ◌∙◌, ◌↔◌, Bool, true, false, arith, length, nat_equality,
  list_equality, pair_equality,
}
use vocabulary_micro.SyncQueue.{Queue, is_idle, snapshot, set_stop}
use vocabulary_micro.SyncQueue.Threads.{System, start, stop, clear, Reach, next}
use vocabulary_micro.SyncQueue.Actions.{busy}
use vocabulary_micro.SyncQueue.Invariant.{tally, Reach-IsConsistent}
use vocabulary_micro.SyncQueue.Order.{tally_jobs, held, accepted_accounted, Reach-Closed}
use vocabulary_micro.SyncQueue.Reports.{
  ShutdownReport, wait_for_idle, shutdown_report, with_stop, Shutdown, draining, canceling,
}

module _ {A : Type 0} where
  -- The report `r` of a shutdown that was called in `s` and read `v` at its end.
  pub record IsReport (s v : System A) (r : ShutdownReport) : Type 0 where
    pub closed : v.accepted ≡ s.accepted
    pub depth : r.remaining_depth ≡ length v.queue.jobs
    pub flying : r.in_flight_jobs ≡ tally busy v.workers
    pub idle : (r.idle_reached ≡ true) ↔ ((r.remaining_depth ≡ 0) × (r.in_flight_jobs ≡ 0))
    pub accounted :
        (p : A → Bool)
        → tally_jobs p s.accepted
          ≡ tally_jobs p v.queue.jobs
            + tally_jobs p v.canceled
            + tally_jobs p v.handled
            + tally (held p) v.workers
    pub canceled : length s.canceled + r.canceled_jobs ≤ length v.canceled
    pub waited : r.waited_for_idle ≡ true → r.idle_reached ≡ true
    pub joined : r.alive_workers ≡ 0 → r.in_flight_jobs ≡ 0

  is_idle-read :
      (q : Queue A)
      → q.queued ≡ length q.jobs
      → (is_idle q ≡ true) ↔ (((snapshot q).0 ≡ 0) × ((snapshot q).1 ≡ 0))
  unfolding snapshot
  is_idle-read q h = ground arith

  idle-IsOver :
      (q : Queue A) → q.queued ≡ length q.jobs → q.stopped ≡ true → is_idle q ≡ true → IsOver q
  unfolding snapshot
  idle-IsOver q h k e = ground arith

  module _ (m n : ℕ) (s : System A) (reached : Reach (start m n) s) where
    call : Reach (start m n) (with_stop s)
    call = next reached (stop s)

    closed_since :
        {v : System A}
        → Reach (with_stop s) v
        → (v.queue.stopped ≡ true) × (v.accepted ≡ s.accepted)
    unfolding set_stop
    closed_since r = Reach-Closed refl r

    accounted_at :
        {v : System A}
        → Reach (with_stop s) v
        → (p : A → Bool)
        → tally_jobs p s.accepted
          ≡ tally_jobs p v.queue.jobs
            + tally_jobs p v.canceled
            + tally_jobs p v.handled
            + tally (held p) v.workers
    accounted_at {v} r p =
        ap (tally_jobs p) (sym (closed_since r).1) ∙ accepted_accounted p m n v (Reach-trans call r)

    -- What was idle at the last look is idle at the end.
    stays_idle :
        {t v : System A}
        → Reach (with_stop s) t
        → Reach t v
        → is_idle t.queue ≡ true
        → is_idle v.queue ≡ true
    unfolding snapshot
    stays_idle {t} {v} r q e =
        let c = Reach-IsConsistent m n t (Reach-trans call r) in
        let o = Reach-IsOver q (idle-IsOver t.queue c.counted (closed_since r).0 e) in
        ground (arith, o)

    shutdown_report-IsReport :
        (drain waited : Bool) (canceled : ℕ) (u v : System A)
        → Reach (with_stop s) u
        → Reach u v
        → length s.canceled + canceled ≤ length v.canceled
        → (waited ≡ true → is_idle v.queue ≡ true)
        → IsReport s v (shutdown_report drain waited canceled u v)
    unfolding shutdown_report snapshot
    shutdown_report-IsReport drain waited canceled u v r q c w =
        let path = Reach-trans r q in
        let k = Reach-IsConsistent m n v (Reach-trans call path) in
        record {
          closed = (closed_since path).1;
          depth = k.counted;
          flying = k.flying;
          idle = is_idle-read v.queue k.counted;
          accounted = accounted_at path;
          canceled = c;
          waited = w;
          joined = λ h. omega (arith, h, k.flying, tally-busy-le-alive v.workers, Reach-alive q);
        }

    -- In a reachable state, whatever other threads do, a call of shutdown ends with no job accepted since
    -- it began, and its report is true of that state: the depth and the jobs in flight are the
    -- queued jobs and the busy workers, idle is reached exactly if both are none, and so it is if
    -- the wait saw it; the accepted jobs are those queued, canceled, handled and in the hands of a
    -- worker, as every test of jobs counts as many among the ones as among the others; as many jobs as it says were canceled; and with no worker alive none is in flight.
    pub Shutdown-IsReport : (v : System A) (r : ShutdownReport) → Shutdown s v r → IsReport s v r
    Shutdown-IsReport v r (draining {t} {u} qs w p q) =
        shutdown_report-IsReport true (wait_for_idle qs t.queue) 0 u v
          (Reach-trans (Waits-Reach w) p) q
          (omega (arith, Reach-canceled (Reach-trans (Reach-trans (Waits-Reach w) p) q)))
          (λ e. stays_idle (Waits-Reach w) (Reach-trans p q) (sym (wait_for_idle-Waits w) ∙ e))
    Shutdown-IsReport v r (canceling {t} {u} k c e p q) =
        shutdown_report-IsReport false false k u v (Reach-trans (next (Clears-Reach c) (clear t)) p)
          q
          (omega
            (arith, Clears-canceled c, Step-canceled (clear t), Reach-canceled (Reach-trans p q)))
          (λ h. ground (arith, h))

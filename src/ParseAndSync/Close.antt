-- ===== src/ParseAndSync/Close.antt =====
-- The end of parse_and_sync.py: how the resources of a request are released, and `close` with the
-- queue of SyncQueue.antt.
use vocabulary_micro.Prelude.{
  ℕ, max, ◌≡◌, refl, Bool, true, false, not, Option, none, some, List, [], ◌∷◌, arith, nat_equality,
  list_equality, pair_equality,
}
use vocabulary_micro.Text.{Text, codes}
use vocabulary_micro.SyncQueue.{Queue}
use vocabulary_micro.SyncQueue.Threads.{System, start, Reach}
use vocabulary_micro.SyncQueue.Reports.{
  ShutdownReport, Waits, shutdown_report, wait_for_idle, Shutdown, draining, canceling,
}
use vocabulary_micro.SyncQueue.Reports.Steps.{Waits-Reach, Reach-trans}
use vocabulary_micro.SyncQueue.Reports.Laws.{IsReport, Shutdown-IsReport}

-- How a call ends.
pub data CallEnd : Type 0 where
  returns : CallEnd
  type_error : CallEnd
  other_error : CallEnd

pub data ReleaseCall : Type 0 where
  by_keyword : ReleaseCall
  by_position : ReleaseCall

abbrev log_second : CallEnd → List Text
log_second returns = []
log_second type_error = codes "release_request_resources.fallback_call" ∷ []
log_second other_error = codes "release_request_resources.fallback_call" ∷ []

-- `_release_request_resources`, by whether the parser can release and how the two ways to call it
-- end: the calls, and the operations that are logged. No error leaves it.
unfoldable release_request_resources : Bool → CallEnd → CallEnd → List ReleaseCall × List Text
release_request_resources false first second = ([], [])
release_request_resources true returns second = (by_keyword ∷ [], [])
release_request_resources true type_error second =
    (by_keyword ∷ by_position ∷ [], log_second second)
release_request_resources true other_error second =
    (by_keyword ∷ [], codes "release_request_resources" ∷ [])

-- The timeout of `close` in milliseconds.
unfoldable close_timeout : Option ℕ → ℕ → ℕ
close_timeout none sync_timeout_ms = max 1000 sync_timeout_ms
close_timeout (some timeout) sync_timeout_ms = max 100 timeout

-- The report of `close`, with what it adds to that of the shutdown.
pub record CloseReport : Type 0 where
  pub shutdown : ShutdownReport
  pub idle_before_shutdown : Bool
  pub force_shutdown : Bool

abbrev pub close_report : ShutdownReport → Bool → CloseReport
close_report r idle = record {
  shutdown = r;
  idle_before_shutdown = idle;
  force_shutdown = not idle;
}

module _ {A : Type 0} where
  -- A call of `close` on an object with a queue, from the state in which it begins to wait to that
  -- of the last reading of the shutdown. Without a queue nothing happens; behind it there is none.
  pub data Closes (s : System A) : System A → CloseReport → Type 0 where
    closes :
        {t u v : System A} {r : ShutdownReport} (qs : List (Queue A))
        → Waits s qs t
        → Reach t u
        → Shutdown u v r
        → r.drain ≡ wait_for_idle qs t.queue
        → Closes s v (close_report r (wait_for_idle qs t.queue))

  drain-waited :
      {s v : System A} {r : ShutdownReport}
      → Shutdown s v r
      → r.drain ≡ false
      → r.waited_for_idle ≡ false
  unfolding shutdown_report
  drain-waited (draining qs w p q) h = cc
  drain-waited (canceling n c e p q) h = refl

  drain-canceled :
      {s v : System A} {r : ShutdownReport} → Shutdown s v r → r.drain ≡ true → r.canceled_jobs ≡ 0
  unfolding shutdown_report
  drain-canceled (draining qs w p q) h = refl
  drain-canceled (canceling n c e p q) h = cc

  -- Whatever other threads do, close ends with a true report of a shutdown that began in a state of
  -- the queue; it cancels no job unless the queue was busy at the last look, and a forced shutdown
  -- does not wait.
  pub Closes-IsReport :
      (m n : ℕ) (s v : System A) (r : CloseReport)
      → Reach (start m n) s
      → Closes s v r
      → ((u : System A) × Reach s u × IsReport u v r.shutdown)
        × (r.force_shutdown ≡ false → r.shutdown.canceled_jobs ≡ 0)
        × (r.force_shutdown ≡ true → r.shutdown.waited_for_idle ≡ false)
  Closes-IsReport m n s v r reached (closes {t} {u} {r = r'} qs w p d e) =
      let path = Reach-trans (Waits-Reach w) p in
      (
        (u, path, Shutdown-IsReport m n u (Reach-trans reached path) v r' d),
        λ h. drain-canceled d (ground (arith, e, h)),
        λ h. drain-waited d (ground (arith, e, h)),
      )

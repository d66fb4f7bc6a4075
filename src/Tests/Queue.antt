-- ===== src/Tests/Queue.antt =====
-- sync_queue.py: a run of one worker, and the theorems at the state that it reaches.
use vocabulary_micro.Prelude.{
  ℕ, ◌+◌, ◌*◌, ◌≡◌, refl, true, false, List, [], ◌∷◌, ◌++◌, length, nat_equality, list_equality,
  pair_equality,
}
use vocabulary_micro.SyncQueue.{init, enqueue, snapshot, set_stop, clear_one}
use vocabulary_micro.SyncQueue.Threads.{
  top, exited, looked, claiming, System, start, worker_step, after_work, after_enqueue, after_clear,
  work, submit, Reach, here, next,
}
use vocabulary_micro.SyncQueue.Invariant.{IsConsistent, Reach-IsConsistent}
use vocabulary_micro.SyncQueue.Reports.{
  ShutdownReport, shutdown_report, with_stop, wait_for_idle, last_look, begin, round, Shutdown,
  canceling,
}
use vocabulary_micro.ParseAndSync.Close.{Closes, closes, close_report, Closes-IsReport}
use vocabulary_micro.SyncQueue.Reports.Laws.{IsReport, Shutdown-IsReport}
use vocabulary_micro.SyncQueue.Shutdown.{drain_can_strand}
use vocabulary_micro.SyncQueue.Draining.{IsQuiet, run_alone, loaded, run_alone_drains}

abbrev submitted : System ℕ
submitted = after_enqueue (start 2 0) 7

abbrev peeked : System ℕ
peeked = after_work submitted [] top []

abbrev decided : System ℕ
decided = after_work peeked [] (looked false) []

abbrev taken_out : System ℕ
taken_out = after_work decided [] claiming []

taken_out-Reach : Reach (start 2 0) taken_out
unfolding start init after_work after_enqueue enqueue worker_step snapshot
taken_out-Reach =
    next
      (next (next (next here (submit (start 2 0) 7)) (work submitted [] top [] refl))
        (work peeked [] (looked false) [] refl))
      (work decided [] claiming [] refl)

Reach-IsConsistent_example : IsConsistent taken_out
Reach-IsConsistent_example = Reach-IsConsistent 2 0 taken_out taken_out-Reach

abbrev stopped : System ℕ
stopped = record taken_out { queue = set_stop taken_out.queue }

stopped_flag : stopped.queue.stopped ≡ true
unfolding set_stop
stopped_flag = refl

abbrev late : System ℕ
late = after_enqueue stopped 8

drain_can_strand_example :
    (s : System ℕ) × Reach (start 2 0) s
    × (s.accepted ≡ 7 ∷ [])
    × (s.queue.jobs ≡ 7 ∷ [])
    × (s.queue.stopped ≡ true)
    × ((t : System ℕ) → Reach s t → t.handled ≡ [])
drain_can_strand_example = drain_can_strand 2 7

abbrev pair : List ℕ
pair = 4 ∷ 6 ∷ []

quiet : IsQuiet (loaded 9 pair)
quiet = record { counted = refl; flying = refl; owing = refl }

run_alone_drains_example :
    run_alone (5 * length pair + 2) (loaded 9 pair, top, []) ≡ (loaded 9 [], exited, [] ++ pair)
run_alone_drains_example = run_alone_drains 9 pair []

abbrev cleared_out : System ℕ
cleared_out = after_clear (with_stop submitted)

abbrev report : ShutdownReport
report = shutdown_report false false 1 (after_clear cleared_out) (after_clear cleared_out)

canceling-Shutdown : Shutdown submitted (after_clear cleared_out) report
unfolding start init after_enqueue enqueue after_clear clear_one set_stop
canceling-Shutdown = canceling 1 (round 7 begin refl) refl here here

one_canceled : (report.canceled_jobs ≡ 1) × (report.idle_reached ≡ true)
unfolding start init after_enqueue enqueue after_clear clear_one set_stop shutdown_report snapshot
one_canceled = (refl, refl)

submitted-Reach : Reach (start 2 0) submitted
submitted-Reach = next here (submit (start 2 0) 7)

Shutdown-IsReport_example : IsReport submitted (after_clear cleared_out) report
Shutdown-IsReport_example =
    Shutdown-IsReport 2 0 submitted submitted-Reach (after_clear cleared_out) report
      canceling-Shutdown

closing : Closes submitted (after_clear cleared_out) (close_report report false)
unfolding start init after_enqueue enqueue after_clear clear_one set_stop wait_for_idle snapshot
    shutdown_report
closing = closes [] (last_look here) here canceling-Shutdown refl

Closes-IsReport_example :
    ((u : System ℕ) × Reach submitted u × IsReport u (after_clear cleared_out) report)
    × (true ≡ false → report.canceled_jobs ≡ 0)
    × (true ≡ true → report.waited_for_idle ≡ false)
Closes-IsReport_example =
    Closes-IsReport 2 0 submitted (after_clear cleared_out) (close_report report false)
      submitted-Reach closing

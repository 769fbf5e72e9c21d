-- ===== src/Tests/Queueing.antt =====
-- A queue with one command group, step by step.
use neo_sycl.Prelude.{ℕ, ◌≡◌, ◌⊎◌, refl, [], ◌∷◌}
use neo_sycl.Queue.{
  notifying, finished, released, QueueState, Schedule, counts, starts, completes, decrements, Reach,
  here, later, new_queue, Task, decr, incr,
}
use neo_sycl.Queue.Wait.{wait_finished}
use neo_sycl.Queue.Drain.{queue_drains, QuietRun, IsIdle}

abbrev one_task : ℕ → Task → QueueState
one_task n t = record { counter = n; tasks = t ∷ []; asleep = 0; woken = 0 }

-- Every command group gets a thread, and ends.
abbrev smooth : Schedule
smooth = record { has_thread = λ i. Unit; ends = λ i. Unit }

-- Submitted, started and run; the handler is destroyed.
after_run : Reach smooth new_queue (one_task 1 released)
unfolding new_queue incr
after_run = later (later (later here counts) (starts 0 tt refl)) (completes 0 tt refl)

after_decr : Reach smooth new_queue (one_task 0 notifying)
unfolding decr
after_decr = later after_run (decrements 0 _ _ refl refl)

wait_finished_example : (notifying ≡ notifying) ⊎ (notifying ≡ finished)
wait_finished_example = wait_finished 0 after_decr refl refl

queue_drains_example : (t : QueueState) × QuietRun smooth (one_task 1 released) t × IsIdle t
queue_drains_example = queue_drains smooth (one_task 1 released) (λ j. tt) (λ j. tt) after_run

-- ===== src/Queue.antt =====
-- queue.hpp and detail/task_counter.hpp: a queue starts one detached thread for each command group;
-- a counter, which `wait` watches, tells how many have not finished.
pub mod Wait
pub mod Drain
pub mod Front
pub mod Submit
pub mod Results
pub mod Holding
pub mod Sequence
pub mod Default
use neo_sycl.Prelude.{
  ℕ, zero, suc, ◌+◌, ◌-◌, ◌<◌, ◌≡◌, ◌≢◌, Bool, true, false, some, List, [], ◌∷◌, ◌++◌, get_elem?,
  set, ◌==◌, if◌then◌else◌,
}

-- `task_counter::incr`, and `decr` with its test for the notification. The counter of the source is
-- an `int`; here it is a natural number, and at 0 `decr` leaves it at 0.
unfoldable pub incr : ℕ → ℕ
incr counter = suc counter

unfoldable pub decr : ℕ → ℕ × Bool
decr counter = (counter - 1, (counter - 1) == 0)

-- How far `submit` is with a command group: counted; its thread runs the handler; the handler is
-- destroyed; `decr` found the counter at 0 and has yet to notify; finished.
pub data Task : Type 0 where
  counted running released notifying finished : Task

-- `asleep` threads wait on the condition variable in `task_counter::wait`; `woken` ones are about to
-- test the counter again.
pub record QueueState : Type 0 where
  pub counter : ℕ
  pub tasks : List Task
  pub asleep : ℕ
  pub woken : ℕ

abbrev pub advance : ℕ → Task → QueueState → QueueState
advance i t s = record s { tasks = set s.tasks i t }

unfoldable pub new_queue : QueueState
new_queue = record { counter = 0; tasks = []; asleep = 0; woken = 0 }

-- Of which command groups `std::thread` gets a thread, and of which the run ends: it may wait for the
-- lock of a buffer without end, as where two of them wait for each other.
pub record Schedule : Type 1 where
  pub has_thread : ℕ → Type 0
  pub ends : ℕ → Type 0

-- One atomic action of one of the threads. The lock of the counter makes `decr`, and a test in
-- `wait` with the sleep that follows it, atomic; the notification comes after the unlock.
pub data Step (o : Schedule) (s : QueueState) : QueueState → Type 0 where
  -- `submit`
  counts : Step o s (record s { counter = incr s.counter; tasks = s.tasks ++ counted ∷ [] })
  starts :
      (i : ℕ) → o.has_thread i → get_elem? s.tasks i ≡ some counted → Step o s (advance i running s)
  -- the thread: the command group ends, and its handler is destroyed
  completes :
      (i : ℕ) → o.ends i → get_elem? s.tasks i ≡ some running → Step o s (advance i released s)
  -- `decr`
  decrements :
      (i n : ℕ) (last : Bool)
      → get_elem? s.tasks i ≡ some released
      → decr s.counter ≡ (n, last)
      → Step o s (advance i (if last then notifying else finished) (record s { counter = n }))
  notifies :
      (i : ℕ)
      → get_elem? s.tasks i ≡ some notifying
      → Step o s (advance i finished (record s { asleep = 0; woken = s.woken + s.asleep }))
  -- `wait`
  sleeps : s.counter ≢ 0 → Step o s (record s { asleep = suc s.asleep })
  passes : s.counter ≡ 0 → Step o s s
  sleeps_again :
      {k : ℕ}
      → s.woken ≡ suc k
      → s.counter ≢ 0
      → Step o s (record s { asleep = suc s.asleep; woken = k })
  returns : {k : ℕ} → s.woken ≡ suc k → s.counter ≡ 0 → Step o s (record s { woken = k })

pub data Reach (o : Schedule) (s : QueueState) : QueueState → Type 0 where
  here : Reach o s s
  later : {t u : QueueState} → Reach o s t → Step o t u → Reach o s u

-- The process: a command group that throws ends it, since `submit` throws again in a thread.
pub data Process : Type 0 where
  alive : QueueState → Process
  terminated : Process

pub data ProcessStep (o : Schedule) : Process → Process → Type 0 where
  steps : {s t : QueueState} → Step o s t → ProcessStep o (alive s) (alive t)
  fails :
      {s : QueueState} (i : ℕ)
      → get_elem? s.tasks i ≡ some running
      → ProcessStep o (alive s) terminated

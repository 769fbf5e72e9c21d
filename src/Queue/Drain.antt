-- ===== src/Queue/Drain.antt =====
-- How a queue of queue.hpp empties.
use neo_sycl.Prelude.{
  ℕ, zero, suc, ◌+◌, ◌-◌, ◌≤◌, ◌<◌, ◌≡◌, refl, ◌⊎◌, inl, inr, Bool, true, false, some, List, [],
  ◌∷◌, get_elem?, ◌==◌, if◌then◌else◌, arith, sum_by, sum_by-set, length, length-set,
}
use neo_sycl.Queue.{
  Task, counted, running, released, notifying, finished, QueueState, Schedule, Step, starts,
  completes, decrements, notifies, returns, Reach, decr, new_queue,
}
use neo_sycl.Queue.Wait.{
  outstanding, pending, IsSound, Step-IsSound, Reach-IsSound, new_queue-IsSound,
}

-- A sequence of steps without a new `submit` and without a new `wait`.
pub data QuietRun (o : Schedule) : QueueState → QueueState → Type 0 where
  stop : {s : QueueState} → QuietRun o s s
  next :
      {s t u : QueueState}
      → Step o s t
      → length t.tasks ≡ length s.tasks
      → QuietRun o t u
      → QuietRun o s u

-- The actions that a task has before it.
abbrev pub left : Task → ℕ
left counted = 4
left running = 3
left released = 2
left notifying = 1
left finished = 0

abbrev measure : QueueState → ℕ
measure s = sum_by left s.tasks + (s.asleep + s.woken)

-- Some task can act, or all are finished.
unfinished :
    (ts : List Task)
    → ((i : ℕ) × (t : Task) × (get_elem? ts i ≡ some t) × (0 < left t)) ⊎ (sum_by left ts ≡ 0)
unfinished [] = inr refl
unfinished (counted ∷ ts) = inl (0, counted, refl, omega arith)
unfinished (running ∷ ts) = inl (0, running, refl, omega arith)
unfinished (released ∷ ts) = inl (0, released, refl, omega arith)
unfinished (notifying ∷ ts) = inl (0, notifying, refl, omega arith)
unfinished (finished ∷ ts) = elim (unfinished ts) [
  | inl (i, t, at, more) ↦ inl (suc i, t, at, more)
  | inr e ↦ inr (omega arith)
]

abbrev Progress : Schedule → QueueState → Type 0
Progress o s =
    (t : QueueState) × Step o s t × (length t.tasks ≡ length s.tasks) × (measure t < measure s)

at_most_one : (last : Bool) → left (if last then notifying else finished) ≤ 1
at_most_one true = omega arith
at_most_one false = omega arith

act :
    (o : Schedule) (s : QueueState) (i : ℕ) (t : Task)
    → ((j : ℕ) → o.has_thread j)
    → ((j : ℕ) → o.ends j)
    → get_elem? s.tasks i ≡ some t
    → 0 < left t
    → Progress o s
unfolding decr
act o s i counted has ends at more = (
  _,
  starts i (has i) at,
  length-set s.tasks i running,
  omega (arith, sum_by-set left s.tasks i running at),
)
act o s i running has ends at more = (
  _,
  completes i (ends i) at,
  length-set s.tasks i released,
  omega (arith, sum_by-set left s.tasks i released at),
)
act o s i released has ends at more = (
  _,
  decrements i _ _ at refl,
  length-set s.tasks i _,
  omega (
    arith,
    at_most_one (s.counter - 1 == 0),
    sum_by-set left s.tasks i (if s.counter - 1 == 0 then notifying else finished) at,
  ),
)
act o s i notifying has ends at more = (
  _,
  notifies i at,
  length-set s.tasks i finished,
  omega (arith, sum_by-set left s.tasks i finished at),
)
act o s i finished has ends at more = absurd (omega arith)

below : (f g : Task → ℕ) (ts : List Task) → ((t : Task) → f t ≤ g t) → sum_by f ts ≤ sum_by g ts
below f g [] h = omega arith
below f g (t ∷ ts) h = omega (arith, below f g ts h, h t)

outstanding-left : (t : Task) → outstanding t ≤ left t
outstanding-left counted = omega arith
outstanding-left running = omega arith
outstanding-left released = omega arith
outstanding-left notifying = omega arith
outstanding-left finished = omega arith

pending-left : (t : Task) → pending t ≤ left t
pending-left counted = omega arith
pending-left running = omega arith
pending-left released = omega arith
pending-left notifying = omega arith
pending-left finished = omega arith

abbrev pub IsIdle : QueueState → Type 0
IsIdle s = (sum_by left s.tasks ≡ 0) × (s.counter ≡ 0) × (s.asleep ≡ 0) × (s.woken ≡ 0)

-- No sound state is stuck before it is idle: this is where a forgotten sleeper would show.
progress :
    (o : Schedule) (s : QueueState)
    → ((j : ℕ) → o.has_thread j)
    → ((j : ℕ) → o.ends j)
    → IsSound s
    → Progress o s ⊎ IsIdle s
progress o s has ends (e, wakes) = elim (unfinished s.tasks) [
  | inl (i, t, at, more) ↦ inl (act o s i t has ends at more)
  | inr none_left ↦
      (let done_tasks : s.counter ≡ 0 =
          omega (arith, below outstanding left s.tasks outstanding-left) in
        let told : sum_by pending s.tasks ≡ 0 =
          omega (arith, below pending left s.tasks pending-left) in
        let nobody : s.asleep ≡ 0 = grind arith in
        by_woken s.woken refl none_left done_tasks nobody)
]
  where
    by_woken :
        (k : ℕ)
        → s.woken ≡ k
        → sum_by left s.tasks ≡ 0
        → s.counter ≡ 0
        → s.asleep ≡ 0
        → Progress o s ⊎ IsIdle s
    by_woken zero w l c a = inr (l, c, a, w)
    by_woken (suc k) w l c a = inl (_, returns w c, refl, omega arith)

drain :
    (o : Schedule) (n : ℕ) (s : QueueState)
    → ((j : ℕ) → o.has_thread j)
    → ((j : ℕ) → o.ends j)
    → measure s < n
    → IsSound s
    → (t : QueueState) × QuietRun o s t × IsIdle t
drain o zero s has ends h sound = absurd (omega arith)
drain o (suc n) s has ends h sound = elim (progress o s has ends sound) [
  | inl (t, step, same, less) ↦
      let (u, rest, idle) = drain o n t has ends (omega arith) (Step-IsSound step sound) in
      (u, next step same rest, idle)
  | inr idle ↦ (s, stop, idle)
]

-- Where every command group gets a thread and its run ends: from every state that a new queue
-- reaches there are steps, with no new command group, to a state in which every command group has
-- finished, the counter is 0, and no thread is in `wait`.
pub queue_drains :
    (o : Schedule) (s : QueueState)
    → ((j : ℕ) → o.has_thread j)
    → ((j : ℕ) → o.ends j)
    → Reach o new_queue s
    → (t : QueueState) × QuietRun o s t × IsIdle t
queue_drains o s has ends r =
    drain o (suc (measure s)) s has ends (omega arith) (Reach-IsSound new_queue-IsSound r)

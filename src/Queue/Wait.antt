-- ===== src/Queue/Wait.antt =====
-- What `task_counter::wait` of detail/task_counter.hpp may rely on.
use mathlib.Core.Option.{some-injective}
use neo_sycl.Prelude.{
  ℕ, zero, suc, ◌+◌, ◌-◌, ◌≤◌, ◌<◌, ◌≡◌, refl, sym, ap, ◌⊎◌, inl, inr, true, false, some, List, [],
  ◌∷◌, get_elem?, ◌==◌, arith, sum_by, sum_by-append, sum_by-set,
}
use neo_sycl.Queue.{
  Task, counted, running, released, notifying, finished, QueueState, Schedule, Step, counts, starts,
  completes, decrements, notifies, sleeps, passes, sleeps_again, returns, Reach, here, later, incr,
  decr, new_queue,
}

-- 1 for a command group that has not finished, and for one that has yet to notify.
abbrev pub outstanding : Task → ℕ
outstanding counted = 1
outstanding running = 1
outstanding released = 1
outstanding notifying = 0
outstanding finished = 0

abbrev pub pending : Task → ℕ
pending counted = 0
pending running = 0
pending released = 0
pending notifying = 1
pending finished = 0

abbrev pub IsSound : QueueState → Type 0
IsSound s =
    (s.counter ≡ sum_by outstanding s.tasks)
    × (0 < s.asleep → 0 < s.counter + sum_by pending s.tasks)

pub Step-IsSound : {o : Schedule} {s t : QueueState} → Step o s t → IsSound s → IsSound t
unfolding incr decr
Step-IsSound {o} {s} counts (e, wakes) =
    (omega (arith, sum_by-append outstanding s.tasks (counted ∷ [])), λ h. omega arith)
Step-IsSound {o} {s} (starts i has at) (e, wakes) = (
  omega (arith, sum_by-set outstanding s.tasks i running at),
  λ h. omega (arith, wakes h, sum_by-set pending s.tasks i running at),
)
Step-IsSound {o} {s} (completes i ends at) (e, wakes) = (
  omega (arith, sum_by-set outstanding s.tasks i released at),
  λ h. omega (arith, wakes h, sum_by-set pending s.tasks i released at),
)
Step-IsSound {o} {s} (decrements i n true at d) (e, wakes) =
    let fewer : s.counter - 1 ≡ n = ap (λ r. r.0) d in
    (
      omega (arith, sum_by-set outstanding s.tasks i notifying at),
      λ h. omega (arith, sum_by-set pending s.tasks i notifying at),
    )
Step-IsSound {o} {s} (decrements i n false at d) (e, wakes) =
    let fewer : s.counter - 1 ≡ n = ap (λ r. r.0) d in
    let more : 0 < s.counter - 1 =
      let test : ((s.counter - 1) == 0) ≡ false = ap (λ r. r.1) d in ground arith in
    (omega (arith, sum_by-set outstanding s.tasks i finished at), λ h. omega arith)
Step-IsSound {o} {s} (notifies i at) (e, wakes) =
    (omega (arith, sum_by-set outstanding s.tasks i finished at), λ h. absurd (omega arith))
Step-IsSound {o} {s} (sleeps h) (e, wakes) = (e, λ _. omega arith)
Step-IsSound {o} {s} (passes h) sound = sound
Step-IsSound {o} {s} (sleeps_again w h) (e, wakes) = (e, λ _. omega arith)
Step-IsSound {o} {s} (returns w h) sound = sound

pub Reach-IsSound : {o : Schedule} {s t : QueueState} → IsSound s → Reach o s t → IsSound t
Reach-IsSound sound here = sound
Reach-IsSound sound (later r st) = Step-IsSound st (Reach-IsSound sound r)

pub new_queue-IsSound : IsSound new_queue
unfolding new_queue
new_queue-IsSound = (refl, λ h. h)

sum_by-get_elem? :
    (f : Task → ℕ) (ts : List Task) (i : ℕ) {t : Task} → get_elem? ts i ≡ some t → f t ≤ sum_by f ts
sum_by-get_elem? f [] i e = cc
sum_by-get_elem? f (t ∷ ts) zero e = rw (ap f (sym (some-injective _ _ e))) (omega arith)
sum_by-get_elem? f (t ∷ ts) (suc i) e = omega (arith, sum_by-get_elem? f ts i e)

-- In every state that a new queue reaches: if the counter is 0, so that `wait` returns, every
-- task of the queue is past its `decr`; its command group has run and its handler is destroyed.
pub wait_finished :
    {o : Schedule} {s : QueueState} (i : ℕ) {t : Task}
    → Reach o new_queue s
    → s.counter ≡ 0
    → get_elem? s.tasks i ≡ some t
    → (t ≡ notifying) ⊎ (t ≡ finished)
wait_finished {o} {s} i {t} r zeroed at =
    let (count, _) = Reach-IsSound new_queue-IsSound r in
    by_case t (omega (arith, sum_by-get_elem? outstanding s.tasks i at))
  where
    by_case : (t : Task) → outstanding t ≡ 0 → (t ≡ notifying) ⊎ (t ≡ finished)
    by_case counted e = absurd (omega arith)
    by_case running e = absurd (omega arith)
    by_case released e = absurd (omega arith)
    by_case notifying e = inl refl
    by_case finished e = inr refl

-- In every state that a new queue reaches: a thread that is about to call `decr` finds the
-- counter above 0.
pub decr_positive :
    {o : Schedule} {s : QueueState} (i : ℕ)
    → Reach o new_queue s
    → get_elem? s.tasks i ≡ some released
    → 0 < s.counter
decr_positive {o} {s} i r at =
    let (count, _) = Reach-IsSound new_queue-IsSound r in
    omega (arith, sum_by-get_elem? outstanding s.tasks i at)

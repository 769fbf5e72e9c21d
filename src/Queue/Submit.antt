-- ===== src/Queue/Submit.antt =====
-- How `submit` of queue.hpp ends, in its two builds, and what it leaves of the locks.
use neo_sycl.Prelude.{suc, ℕ, ◌≡◌, refl, ap, List, [], ◌∷◌, subst, arith, All}
use neo_sycl.Outcome.{Outcome, done, >>=-eq-done, done-injective}
use neo_sycl.Mutex.{Mutex}
use neo_sycl.Backend.{Backend}
use neo_sycl.Handler.{World, State, alloc_mem_}
use neo_sycl.Handler.Locks.{Holds, alloc_mem_-Holds, unlock_all-Holds}
use neo_sycl.Queue.{incr, decr}
use neo_sycl.Queue.Front.{
  Ended, ThreadEnd, finishes, terminates, returned, threw, Action, request, code, run_group,
  submit_inline, submit_thread,
}

-- Code that leaves the locks as they are.
abbrev pub KeepsLocks : Action → Type 0
KeepsLocks (request c m) = Unit
KeepsLocks (code f) =
    (w w' : World) (e : Ended)
    → f w ≡ done (e, w')
    → (c : ℕ) → (w'.containers c).mutex ≡ (w.containers c).mutex

module _ (b : Backend) (hndl : ℕ) (before : ℕ → Mutex) where
  run_group-Holds :
      (as' : List Action) (st st' : State) (e : Ended)
      → All KeepsLocks as'
      → Holds before st
      → run_group b hndl as' st ≡ done (e, st')
      → Holds before st'
  unfolding run_group
  run_group-Holds [] st st' e k h ran = subst (Holds before) (ap (λ r. r.1) (done-injective ran)) h
  run_group-Holds (request c m ∷ as') st st' e (k, ks) h ran =
      let ((p, a, t), asked, rest) =
        >>=-eq-done (alloc_mem_ b hndl (record { container = c; device_ptr = 0 }) m st) _ ran in
      run_group-Holds as' t st' e ks (alloc_mem_-Holds b hndl before _ a m st t p h asked) rest
  run_group-Holds (code f ∷ as') st st' e (k, ks) h ran =
      let ((x, w), called, rest) = >>=-eq-done (f st.world) _ ran in
      let same = k st.world w x called in
      let h' : Holds before (record st { world = w }) = λ c. omega (
        arith,
        h c,
        ap (λ (m : Mutex). m.readers) (same c),
        ap (λ (m : Mutex). m.writers) (same c),
      ) in
      after x w h' rest (λ v h r. run_group-Holds as' (record st { world = v }) st' e ks h r)
    where
      after :
          (x : Ended) (w : World)
          → Holds before (record st { world = w })
          → (elim x as (λ y. Outcome (Ended × State)) [
            | returned ↦ run_group b hndl as' (record st { world = w })
            | threw y ↦ done (threw y, record st { world = w })
          ])
            ≡ done (e, st')
          → ((v : World)
              → Holds before (record st { world = v })
              → run_group b hndl as' (record st { world = v }) ≡ done (e, st')
              → Holds before st')
          → Holds before st'
      after returned w h rest go_on = go_on w h rest
      after (threw y) w h rest go_on = subst (Holds before) (ap (λ r. r.1) (done-injective rest)) h

-- Where the command group returns, the counter is as it was; where it throws, it is one more.
abbrev pub thread_end : Ended → ℕ → World → ThreadEnd
thread_end returned n w = finishes n w
thread_end (threw x) n w = terminates (suc n) w

-- For a command group whose own code leaves the locks as they are, and whose run returns or
-- throws an exception of that code: `submit` in the build without threads ends as the command
-- group does; in the build with threads the thread of a command group that returns ends with the
-- counter as it was before `submit`, and that of one that throws ends the process, with the
-- counter one more; both builds end with one and the same world, in which the handler is
-- destroyed and the lock of every container is as it was.
pub submit_inline-submit_thread :
    (b : Backend) (hndl : ℕ) (cgf : List Action) (n : ℕ) (w : World) (st : State) (e : Ended)
    → All KeepsLocks cgf
    → run_group b hndl cgf (record { world = w; acc = [] }) ≡ done (e, st)
    → (w' : World) × (submit_inline b hndl cgf w ≡ done (e, w'))
      × (submit_thread b hndl cgf (n, w) ≡ done (thread_end e n w'))
      × ((c : ℕ) → (w'.containers c).mutex ≡ (w.containers c).mutex)
unfolding submit_inline submit_thread incr decr
submit_inline-submit_thread b hndl cgf n w st e keeps ran =
    let held =
      run_group-Holds b hndl (λ c. (w.containers c).mutex) cgf (record { world = w; acc = [] }) st e
        keeps (λ c. omega arith) ran in
    let (w', unlocked, same) =
      unlock_all-Holds (λ c. (w.containers c).mutex) st.acc st.world held in
    (w', rw (ran, unlocked) refl, rw (ran, unlocked) (ended e w'), same)
  where
    ended :
        (x : Ended) (v : World)
        → ◌≡◌ {A = Outcome ThreadEnd}
            (done (elim x [
              | returned ↦ finishes (decr (incr n)).0 v
              | threw y ↦ terminates (incr n) v
            ]))
            (done (thread_end x n v))
    ended returned v = ap (λ k. done (finishes k v)) (omega arith)
    ended (threw y) v = refl

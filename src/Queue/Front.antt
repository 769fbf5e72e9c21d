-- ===== src/Queue/Front.antt =====
-- queue.hpp: the constructors of a queue, the handler that `submit` makes, and `submit` itself, in
-- its two builds. `Queue` has the threads; here one command group runs from its start to its end.
use neo_sycl.Prelude.{◌==◌, if◌then◌else◌, ℕ, Bool, Option, none, some, List, [], ◌∷◌}
use neo_sycl.Outcome.{Outcome, done, throws, Exception, unimplemented, ◌>>=◌}
use neo_sycl.Access.{Mode}
use neo_sycl.Backend.{Backend}
use neo_sycl.Handler.{World, State, alloc_mem_, unlock_all}
use neo_sycl.Platform.{Build, Device, get_default_device}
use neo_sycl.Platform
use neo_sycl.Platform.Objects.{Pointer}
use neo_sycl.Program.{ProgramData, init_context}
use neo_sycl.Program.Handles.{Programs, new_program, get_program_data}
use neo_sycl.Queue.{incr, decr}

-- `counter` is what the new `task_counter` holds, and `ctx` the devices behind the context's pointer.
pub record QueueHandle : Type 0 where
  pub bind_device : Device
  pub counter : ℕ
  pub ctx : Option (List Device)
  pub prog : Pointer

-- `opens` is the program_data object of a device, if it opens.
module _ (opens : Device → Option ProgramData) where
  -- `queue(device)`, with or without an error handler, which is never called. A null device is `none`.
  unfoldable pub queue_of_device : Option Device → Programs → Outcome (QueueHandle × Programs)
  unfolding init_context new_program
  queue_of_device dev store = do
    ctx ← init_context (dev ∷ [])
    (p, store') ← new_program opens ctx store
    elim dev [
      | none ↦ Outcome.undefined
      | some d ↦ done (record { bind_device = d; counter = 0; ctx = ctx; prog = p }, store')
    ]

  -- `queue()`, which asks for the default device.
  unfoldable pub queue_default : Build → Programs → Outcome (QueueHandle × Programs)
  unfolding queue_of_device Platform.get_default_device
  queue_default b store = do d ← Platform.get_default_device b; queue_of_device (some d) store

  -- `queue(device_selector)`, over what the selector's `select_device` gives.
  unfoldable pub queue_of_selector : Outcome Device → Programs → Outcome (QueueHandle × Programs)
  unfolding queue_of_device
  queue_of_selector selected store = do d ← selected; queue_of_device (some d) store

unfoldable pub get_context : QueueHandle → Option (List Device)
get_context q = q.ctx

unfoldable pub get_device : QueueHandle → Device
get_device q = q.bind_device

unfoldable pub is_host : QueueHandle → Bool
is_host q = Platform.is_host q.bind_device

-- `task_counter::wait` on the counter's value: the condition is tested, and the thread sleeps where
-- it does not hold. `queue::wait` and `~queue` call it.
unfoldable pub wait_counter : ℕ → Outcome (Unit {0})
wait_counter counter = if counter == 0 then done tt else Outcome.blocks

unfoldable pub wait : QueueHandle → Outcome (Unit {0})
unfolding wait_counter
wait q = wait_counter q.counter

unfoldable pub destroy_queue : QueueHandle → Outcome (Unit {0})
unfolding wait_counter
destroy_queue q = wait_counter q.counter

-- `handler(d, p, c)`: its `hndl_`, of which `none` is `nullptr`.
unfoldable pub handler_data : QueueHandle → Programs → Outcome (Option ProgramData)
unfolding get_program_data
handler_data q store = get_program_data q.bind_device q.prog store

-- What a command group does: it asks for accessors, and runs other code, which may throw.
pub data Ended : Type 0 where
  returned : Ended
  threw : Exception → Ended

pub data Action : Type 0 where
  request : ℕ → Mode → Action
  code : (World → Outcome (Ended × World)) → Action

-- How the thread of a command group ends, with the counter and the world: it finishes, or the
-- exception ends the process, which `std::terminate` then does.
pub data ThreadEnd : Type 0 where
  finishes terminates : ℕ → World → ThreadEnd

-- `submit(cgf, secondaryQueue)`.
unfoldable pub submit_secondary : {A : Type 0} → A → Outcome A
submit_secondary s = throws unimplemented

module _ (b : Backend) (hndl : ℕ) where
  -- The call of the command group with its handler. (A request that throws is `throws`, without
  -- the state.)
  unfoldable pub run_group : List Action → State → Outcome (Ended × State)
  unfolding alloc_mem_
  run_group [] st = done (returned, st)
  run_group (request c m ∷ as') st = do
    (_, _, st') ← alloc_mem_ b hndl (record { container = c; device_ptr = 0 }) m st
    run_group as' st'
  run_group (code f ∷ as') st = do
    (e, w) ← f st.world
    elim e [
      | returned ↦ run_group as' (record st { world = w })
      | threw x ↦ done (threw x, record st { world = w })
    ]

  -- `submit` with DISABLE_MULTI_THREAD_SUPPORT: the handler is destroyed before the exception
  -- goes on to the caller.
  unfoldable pub submit_inline : List Action → World → Outcome (Ended × World)
  unfolding run_group unlock_all
  submit_inline cgf w = do
    (e, st) ← run_group cgf (record { world = w; acc = [] })
    w' ← unlock_all st.acc st.world
    done (e, w')

  -- `submit`, its thread run to the end: the handler is destroyed before the exception is caught
  -- and thrown again, out of the thread.
  unfoldable pub submit_thread : List Action → ℕ × World → Outcome ThreadEnd
  unfolding run_group unlock_all incr decr
  submit_thread cgf (n, w) = do
    let counted = incr n
    (e, st) ← run_group cgf (record { world = w; acc = [] })
    w' ← unlock_all st.acc st.world
    done (elim e [ returned ↦ finishes (decr counted).0 w' | threw x ↦ terminates counted w' ])

-- ===== src/Queue/Default.antt =====
-- `queue()` of queue.hpp, down to the libraries that the default device's program opens.
use neo_sycl.Prelude.{
  ℕ, ◌≡◌, refl, ap, ◌∙◌, sym, true, Option, none, some, [], ◌∷◌, ◌++◌, length, arith,
  get_elem?-append_last,
}
use neo_sycl.Outcome.{Outcome, done, throws, runtime_error, ◌>>=◌}
use neo_sycl.Platform.{
  Build, Device, DeviceImpl, device_impl_host, device_impl_cpu, device_impl_ve, get_default_device,
  same_device,
}
use neo_sycl.Platform.Selection.{default_device}
use neo_sycl.Program.{ProgramData, init_context, context_devices, init_program, open_all, get_data}
use neo_sycl.Program.Devices.{OpensOwn}
use neo_sycl.Program.Handles.{ProgramObject, Programs, new_program, get_program_data, object_at}
use neo_sycl.Program.Opening.{Environment, opens}
use neo_sycl.Queue.Front.{QueueHandle, queue_of_device, queue_default, handler_data}

opens_own : (s : Environment) (node : ℕ) → OpensOwn (opens s node)
unfolding opens
opens_own s node d p opened = by_impl d.id d.impl p opened
  where
    by_impl :
        (i : ℕ) (k : DeviceImpl) (p : ProgramData)
        → opens s node (record { id = i; impl = k }) ≡ some p
        → p.device ≡ record { id = i; impl = k }
    by_impl i device_impl_host p e = ground arith
    by_impl i device_impl_cpu p e = ground arith
    by_impl i device_impl_ve p e = ground arith

-- The program of a queue for one device, and the queue.
abbrev pub program_for : Device → ProgramData → ProgramObject
program_for d p = record {
  prog = none;
  ctx = some (d ∷ []);
  impl = record { programs = p ∷ []; hash_map = []; name_map = [] };
}

abbrev pub queue_for : Device → ℕ → QueueHandle
queue_for d n = record { bind_device = d; counter = 0; ctx = some (d ∷ []); prog = some n }

module _ (os : Device → Option ProgramData) (own : OpensOwn os) (d : Device)
    (store : Programs) where
  queue_closed :
      os d ≡ none
      → queue_of_device os (some d) store ≡ throws (runtime_error "program initialization failed")
  unfolding queue_of_device new_program init_context context_devices init_program
  queue_closed closed = rw (open_all, closed) refl

  queue_opened :
      (p : ProgramData)
      → os d ≡ some p
      → queue_of_device os (some d) store
        ≡ done (queue_for d (length store), store ++ program_for d p ∷ [])
  unfolding queue_of_device new_program init_context context_devices init_program
  queue_opened p opened = rw (open_all, opened) refl

  handler_opened :
      (p : ProgramData)
      → os d ≡ some p
      → handler_data (queue_for d (length store)) (store ++ program_for d p ∷ []) ≡ done (some p)
  unfolding handler_data get_program_data object_at get_data
  handler_opened p opened =
      let same : same_device d p.device ≡ true = rw (own d p opened) (ground arith) in
      rw (get_elem?-append_last store (program_for d p), same) refl

-- How `queue()` for the device `d` ends, by what its program data open.
abbrev pub DefaultQueue :
    Device → Programs → Option ProgramData → Outcome (QueueHandle × Programs) → Type 0
DefaultQueue d store none o = o ≡ throws (runtime_error "program initialization failed")
DefaultQueue d store (some p) o =
    (q : QueueHandle) × (after : Programs) × (o ≡ done (q, after))
    × (q.bind_device ≡ d)
    × (q.counter ≡ 0)
    × (handler_data q after ≡ done (some p))

-- In every build, whatever libraries there are to open: the default device exists, and the
-- constructor `queue()` asks it for its program data, which open for the host always, for the CPU
-- where the library that the environment or the default names opens, and for the vector engine
-- where `open` succeeds; if they do not open, the constructor throws `program initialization
-- failed`; if they do, it completes with the default device bound and the counter 0, and every
-- handler of the queue is given these program data.
pub queue_default_lem :
    (s : Environment) (node : ℕ) (b : Build) (store : Programs)
    → (d : Device) × (get_default_device b ≡ done d)
      × DefaultQueue d store (opens s node d) (queue_default (opens s node) b store)
unfolding queue_default
queue_default_lem s node b store =
    let os = opens s node in
    let own = opens_own s node in
    let (d, found, kind) = default_device b in
    let step : queue_of_device os (some d) store ≡ queue_default os b store =
      sym (ap (λ o. o >>= λ e. queue_of_device os (some e) store) found) in
    (d, found, by_opens own d (os d) refl step)
  where
    by_opens :
        (own : OpensOwn (opens s node)) (d : Device) (o : Option ProgramData)
        → opens s node d ≡ o
        → queue_of_device (opens s node) (some d) store ≡ queue_default (opens s node) b store
        → DefaultQueue d store o (queue_default (opens s node) b store)
    by_opens own d none closed step = sym step ∙ queue_closed (opens s node) own d store closed
    by_opens own d (some p) opened step = (
      queue_for d (length store),
      store ++ program_for d p ∷ [],
      sym step ∙ queue_opened (opens s node) own d store p opened,
      refl,
      refl,
      handler_opened (opens s node) own d store p opened,
    )

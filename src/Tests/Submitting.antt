-- ===== src/Tests/Submitting.antt =====
-- Command groups and the objects of devices at small inputs.
use neo_sycl.Prelude.{
  ◌==◌, if◌then◌else◌, length, suc, ap, ◌∙◌, ℕ, ◌+◌, ◌≡◌, refl, none, some, List, [], ◌∷◌, All, map,
  arith,
}
use neo_sycl.Outcome.{done, unimplemented, ◌>>=◌}
use neo_sycl.Memory.{Heap}
use neo_sycl.Access.{Mode}
use neo_sycl.Backend.{cpu_backend}
use neo_sycl.Buffer.{destroy, get_size}
use neo_sycl.Handler.{World, State, Acc, alloc_mem_, alloc_all, unlock_all}
use neo_sycl.Handler.Locks.{entry}
use neo_sycl.Handler.Moves.{granted, waiting, pushes, Moves}
use neo_sycl.Handler.Runs.{alloc_all-Moves}
use neo_sycl.Handler.Exclusion.{
  Handlers, Acts, here, later, makes, moves, Moves-Acts, Apart, Acts-Apart,
}
use neo_sycl.Platform
use neo_sycl.Platform.{DeviceType, device_impl_host}
use neo_sycl.Platform.Objects.{Objects, register_all_devices, get_devices, get_default_device}
use neo_sycl.Platform.Registered.{registered_lem, handle_of}
use neo_sycl.Queue.Front.{
  Ended, returned, threw, Action, request, code, run_group, submit_inline, submit_thread,
}
use neo_sycl.Queue.Submit.{submit_inline-submit_thread, KeepsLocks, thread_end}
use neo_sycl.Queue.Holding.{submit_each}
use neo_sycl.Queue.Sequence.{submit_each-destroy}
use neo_sycl.Tests.Handling.{zeroed, memory, world, plain}
use neo_sycl.Tests.Programs.{plain_build}

registered_lem_example :
    (g : Objects) × (register_all_devices plain_build ≡ done (some 0, g))
    × ((t : DeviceType)
        → get_devices g t (some 0)
          ≡ done
              (map handle_of (Platform.get_devices t (Platform.register_all_devices plain_build))))
    × (get_default_device plain_build (some 0) g
        ≡ (Platform.get_default_device plain_build >>= λ d. done (handle_of d)))
registered_lem_example = registered_lem plain_build

-- A command group that asks for container 0 and throws.
abbrev throwing : List Action
throwing = request 0 Mode.write ∷ code (λ w. done (threw unimplemented, w)) ∷ []

abbrev ran : Ended × State
unfolding run_group
ran = elim (run_group (cpu_backend zeroed) 9 throwing (record { world = world; acc = [] })) [
  | done r ↦ r
  | _ ↦ (returned, record { world = world; acc = [] })
]

throwing-KeepsLocks : All KeepsLocks throwing
throwing-KeepsLocks = (tt, ((λ w w' e called c. ground arith), tt))

submit_inline-submit_thread_example :
    (w' : World) × (submit_inline (cpu_backend zeroed) 9 throwing world ≡ done (ran.0, w'))
    × (submit_thread (cpu_backend zeroed) 9 throwing (4, world) ≡ done (thread_end ran.0 4 w'))
    × ((c : ℕ) → (w'.containers c).mutex ≡ (plain c).mutex)
unfolding run_group cpu_backend
submit_inline-submit_thread_example =
    submit_inline-submit_thread (cpu_backend zeroed) 9 throwing 4 world ran.1 ran.0
      throwing-KeepsLocks refl

-- A kernel that adds one to each byte of the copy of container 0.
abbrev raised : List ℕ → List ℕ
raised bytes = map (λ x. x + 1) bytes

length-raised : (bytes : List ℕ) → length (raised bytes) ≡ length bytes
length-raised [] = refl
length-raised (x ∷ bytes) = ap suc (length-raised bytes)

raised_size : (bytes : List ℕ) → length bytes ≡ 2 → length (raised bytes) ≡ 2
raised_size bytes e = length-raised bytes ∙ e

submit_each-destroy_example :
    (w' : World) × (h : Heap) × (submit_each
        (cpu_backend zeroed)
        9
        0
        4
        ((Mode.read_write, raised) ∷ (Mode.read, raised) ∷ [])
        world
      ≡ done w')
    × (destroy (λ _. cpu_backend zeroed) (w'.containers 0) w'.heap ≡ done h)
    × ((q : ℕ)
        → h.block q
          ≡ (if 4 == q then none else if 1 == q then some (9 ∷ 10 ∷ []) else memory.block q))
unfolding get_size
submit_each-destroy_example =
    submit_each-destroy zeroed (λ _. cpu_backend zeroed) 9 0 Mode.read_write raised
      ((Mode.read, raised) ∷ []) world (7 ∷ 8 ∷ []) refl refl refl refl refl (omega arith)
      (omega arith) refl (raised_size, (raised_size, tt))

-- Two handlers: the first is granted container 0 for reading, then for writing; the second has put an entry for it into
-- its `acc_`, and waits.
abbrev asked : ℕ → Mode → State → ℕ × Acc × State
unfolding alloc_mem_
asked c m st =
    elim (alloc_mem_ (cpu_backend zeroed) 9 (record { container = c; device_ptr = 0 }) m st) [
      | done r ↦ r
      | _ ↦ (0, record { container = c; device_ptr = 0 }, st)
    ]

abbrev wanted : List (ℕ × Mode)
wanted = (0, Mode.read) ∷ (0, Mode.write) ∷ []

abbrev first_held : State
first_held = (asked 0 Mode.write (asked 0 Mode.read (record { world = world; acc = [] })).2).2

alloc_all-Moves_example :
    Moves world [] first_held.world (granted (entry 0 Mode.write) ∷ [])
    × (w' : World) × (unlock_all first_held.acc first_held.world ≡ done w')
    × Moves world [] w' []
unfolding asked alloc_mem_ alloc_all cpu_backend
alloc_all-Moves_example = alloc_all-Moves (cpu_backend zeroed) 9 wanted world first_held refl

first_held-Moves : Moves world [] first_held.world (granted (entry 0 Mode.write) ∷ [])
unfolding asked alloc_mem_ alloc_all cpu_backend
first_held-Moves = (alloc_all-Moves (cpu_backend zeroed) 9 wanted world first_held refl).0

abbrev both : Handlers
both = record {
  world = first_held.world;
  held = (waiting (entry 0 Mode.read) Mode.read ∷ []) ∷ (granted (entry 0 Mode.write) ∷ []) ∷ [];
}

both-Acts : Acts (record { world = world; held = [] }) both
both-Acts =
    later (later (Moves-Acts [] [] (later here makes) first_held-Moves) makes)
      (moves [] ((granted (entry 0 Mode.write) ∷ []) ∷ []) (pushes 0 Mode.read))

Acts-Apart_example :
    Apart 0 (waiting (entry 0 Mode.read) Mode.read ∷ []) (granted (entry 0 Mode.write) ∷ [])
    × Apart 0 (granted (entry 0 Mode.write) ∷ []) (waiting (entry 0 Mode.read) Mode.read ∷ [])
Acts-Apart_example =
    Acts-Apart world both [] [] [] (waiting (entry 0 Mode.read) Mode.read ∷ [])
      (granted (entry 0 Mode.write) ∷ []) 0 (λ d. refl) both-Acts refl

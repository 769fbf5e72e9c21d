-- ===== src/Tests/Handling.antt =====
-- Handlers, buffers and memory at small inputs: two buffers of two bytes in blocks 1 and 2.
use neo_sycl.Prelude.{
  ℕ, zero, suc, ◌≡◌, refl, true, Option, none, some, List, [], ◌∷◌, replicate, ◌==◌, if◌then◌else◌,
  arith, ◌<◌, ◌+◌, length,
}
use neo_sycl.Outcome.{Outcome, done, ◌>>=◌}
use neo_sycl.Memory.{Heap, update}
use neo_sycl.Access.{Mode}
use neo_sycl.Mutex.{Mutex}
use neo_sycl.Backend.{Allocator, cpu_backend}
use neo_sycl.Buffer.{BufferContainer, DevicePtr, copy_back, destroy, get_size}
use neo_sycl.Buffer.CopyBack.{destroy_writes_back}
use neo_sycl.Handler.{
  World, Acc, State, AccessorData, alloc_all, alloc_mem_, unlock_all, locate, take_lock, get_ptr_,
}
use neo_sycl.Handler.Locks.{unlock_all-alloc_all}
use neo_sycl.Handler.Mapping.{ptr_of, mapped_buffer_locked, Covers}
use neo_sycl.Handler.Pointers.{alloc_mem_ptr, write_is_lost}
use neo_sycl.Handler.Copy.{copy_out, copy_in}
use neo_sycl.Handler.Transfer.{copy_out-copy_in}

pub length-replicate : (s x : ℕ) → length (replicate s x) ≡ s
length-replicate zero x = refl
length-replicate (suc s) x = omega (arith, length-replicate s x)

abbrev pub zeroed : Allocator
zeroed = record { junk = λ s. replicate s 0; length-junk = λ s. length-replicate s 0 }

abbrev pub blocks_of : ℕ → Option (List ℕ)
blocks_of p =
    if p == 1
    then some (7 ∷ 8 ∷ [])
    else if p == 2
    then some (5 ∷ 6 ∷ [])
    else if p == 3
    then some (1 ∷ 2 ∷ [])
    else none

abbrev pub memory : Heap
memory = record { next = 4; block = blocks_of }

abbrev pub unlocked : Mutex
unlocked = record { readers = 0; writers = 0 }

-- Container 0 wraps block 1, every other one wraps block 2.
abbrev pub plain : ℕ → BufferContainer
plain c = record {
  ptr = if c == 0 then 1 else 2;
  element_size = 1;
  elements = 2;
  devices = [];
  mutex = unlocked;
}

abbrev pub world : World
world = record { heap = memory; containers = plain }

-- A device copy of container 0 in block 3, made in mode `m` for the device 9.
abbrev device_copy : Mode → DevicePtr
device_copy m = record { ptr = 3; mode = m }

abbrev mapped : Mode → ℕ → BufferContainer
mapped m c = record (plain c) { devices = (9, device_copy m) ∷ [] }

abbrev mapped_world : Mode → World
mapped_world m = record { heap = memory; containers = mapped m }

abbrev accessor : ℕ → ℕ → Acc
accessor c p = record { container = c; device_ptr = p }

abbrev requests : List (ℕ × Mode)
requests = (0, Mode.read) ∷ (0, Mode.write) ∷ (1, Mode.read) ∷ []

abbrev held : World → List AccessorData → State
held w acc = record { world = w; acc = acc }

abbrev outcome_or : {A : Type 0} → A → Outcome A → A
outcome_or a (done b) = b
outcome_or a _ = a

abbrev granted : State
unfolding alloc_all alloc_mem_ locate take_lock
granted = outcome_or (held world []) (alloc_all (cpu_backend zeroed) 9 requests (held world []))

unlock_all-alloc_all_example :
    (w' : World) × (unlock_all granted.acc granted.world ≡ done w')
    × ((c : ℕ) → (w'.containers c).mutex ≡ (plain c).mutex)
unfolding alloc_all cpu_backend
unlock_all-alloc_all_example =
    unlock_all-alloc_all (cpu_backend zeroed) 9 requests world granted refl

abbrev asked : Outcome (ℕ × Acc × State)
unfolding alloc_mem_
asked =
    alloc_mem_ (cpu_backend zeroed) 9 (accessor 0 0) Mode.write
      (held (mapped_world Mode.read) (record { container = 1; mode = Mode.read } ∷ []))

abbrev answered : ℕ × Acc × State
answered = outcome_or (0, accessor 0 0, held world []) asked

mapped_buffer_locked_example : Covers (cpu_backend zeroed) 9 0 Mode.write answered.2.acc
unfolding alloc_mem_ cpu_backend
mapped_buffer_locked_example =
    mapped_buffer_locked (cpu_backend zeroed) 9 (accessor 0 0) answered.1 Mode.write
      (held (mapped_world Mode.read) (record { container = 1; mode = Mode.read } ∷ [])) answered.2
      (device_copy Mode.read) answered.0 refl refl refl

write_is_lost_example :
    copy_back (answered.2.world.containers 0) 9 (cpu_backend zeroed) true memory
    ≡ (cpu_backend zeroed).free_mem answered.0 memory
unfolding alloc_mem_ cpu_backend
write_is_lost_example =
    write_is_lost (cpu_backend zeroed) 9 (accessor 0 0) answered.1 Mode.write
      (held (mapped_world Mode.read) (record { container = 1; mode = Mode.read } ∷ [])) answered.2
      (device_copy Mode.read) answered.0 memory refl refl refl refl refl

alloc_mem_ptr_example :
    (answered.1.device_ptr ≡ answered.0)
    × (ptr_of 9 (answered.2.world.containers 0).devices ≡ some answered.0)
    × (0 < answered.0
        → get_ptr_ (cpu_backend zeroed) 9 answered.1 answered.2.world ≡ done answered.0)
unfolding alloc_mem_ cpu_backend
alloc_mem_ptr_example =
    alloc_mem_ptr (cpu_backend zeroed) 9 (accessor 0 0) answered.1 Mode.write
      (held (mapped_world Mode.read) (record { container = 1; mode = Mode.read } ∷ [])) answered.2
      answered.0 refl refl

destroy_writes_back_example :
    (h' : Heap) × (destroy (λ _. cpu_backend zeroed) (mapped Mode.write 0) memory ≡ done h')
    × ((q : ℕ)
        → h'.block q ≡ (if 3 == q then none else if 1 == q then some (1 ∷ 2 ∷ []) else blocks_of q))
unfolding get_size
destroy_writes_back_example =
    destroy_writes_back (λ _. cpu_backend zeroed) zeroed (mapped Mode.write 0) 9
      (device_copy Mode.write) memory (7 ∷ 8 ∷ []) (1 ∷ 2 ∷ []) refl refl refl (omega arith)
      (omega arith) refl refl refl refl

copy_out-copy_in_example :
    (copy_in (cpu_backend zeroed) 9 1 (accessor 0 3) world >>= λ h.
    copy_out (cpu_backend zeroed) 9 (accessor 0 3) 2 (record world { heap = h }))
    ≡ done (record memory {
      block = update (update blocks_of 3 (some (7 ∷ 8 ∷ []))) 2 (some (7 ∷ 8 ∷ []));
    })
unfolding get_size
copy_out-copy_in_example =
    copy_out-copy_in zeroed 9 (accessor 0 3) world 1 2 (7 ∷ 8 ∷ []) (1 ∷ 2 ∷ []) (5 ∷ 6 ∷ [])
      (omega arith) (omega arith) (omega arith) refl refl refl refl refl refl

-- A container of three bytes as the destination of a copy from one of two.
abbrev uneven : World
uneven = record world { containers = λ c. record (plain c) { elements = 2 + c } }

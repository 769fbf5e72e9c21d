-- ===== src/Queue/Holding.antt =====
-- What one command group after another leaves of a buffer, in the build of queue.hpp without threads.
use neo_sycl.Prelude.{
  ℕ, ◌≡◌, ◌≢◌, refl, ap, ◌∙◌, true, false, some, Option, List, [], ◌∷◌, length, arith, ◌==◌,
  if◌then◌else◌, Bool-cases, inl, inr,
}
use neo_sycl.Outcome.{Outcome, done, ◌>>=◌}
use neo_sycl.Memory.{update}
use neo_sycl.Access.{Mode, is_read}
use neo_sycl.Mutex.{Mutex, lock_read, unlock_read, lock_write, unlock_write}
use neo_sycl.Backend.{Backend, Allocator, cpu_backend}
use neo_sycl.Buffer.{find, get_size}
use neo_sycl.Buffer.CopyBack.{find_self}
use neo_sycl.Handler.{World, locate, take_lock, alloc_mem_, unlock_all, with_container, with_heap}
use neo_sycl.Queue.Front.{returned, request, code, run_group, submit_inline}
use neo_sycl.Queue.Results.{kernel_on}

-- A command group asks for the container in a mode, and its kernel replaces the bytes.
abbrev pub Group : Type 0
Group = Mode × (List ℕ → List ℕ)

abbrev pub run_kernels : List Group → List ℕ → List ℕ
run_kernels [] bytes = bytes
run_kernels ((m, f) ∷ rest) bytes = run_kernels rest (f bytes)

abbrev pub KeepsSize : ℕ → Group → Type 0
KeepsSize size g = (bytes : List ℕ) → length bytes ≡ size → length (g.1 bytes) ≡ size

module _ (b : Backend) (hndl c p : ℕ) where
  abbrev pub submit_each : List Group → World → Outcome World
  submit_each [] w = done w
  submit_each ((m, f) ∷ rest) w = do
    (e, w') ← submit_inline b hndl (request c m ∷ code (kernel_on p f) ∷ []) w
    submit_each rest w'

abbrev pub free : Mutex
free = record { readers = 0; writers = 0 }

-- Between the command groups: the one device copy holds `bytes`, and the lock is free.
abbrev pub Holding : ℕ → ℕ → ℕ → Mode → ℕ → ℕ → (ℕ → Option (List ℕ)) → List ℕ → World → Type 0
Holding hndl c p m ptr size others bytes w =
    ((w.containers c).devices ≡ (hndl, record { ptr = p; mode = m }) ∷ [])
    × ((w.containers c).mutex ≡ free)
    × (w.heap.block p ≡ some bytes)
    × ((w.containers c).ptr ≡ ptr)
    × (get_size (w.containers c) ≡ size)
    × ((q : ℕ) → q ≢ p → w.heap.block q ≡ others q)

abbrev with_lock : Mutex → ℕ → World → World
with_lock l c w = with_container c (record (w.containers c) { mutex = l }) w

abbrev lock_of : Mode → Mutex
lock_of m =
    if is_read m then record { readers = 1; writers = 0 } else record { readers = 0; writers = 1 }

-- After a command group for the mode `m` whose kernel leaves `bytes`.
abbrev stepped : ℕ → ℕ → Mode → List ℕ → World → World
stepped c p m bytes w =
    let held = with_lock (lock_of m) c w in
    with_lock free c (with_heap (record w.heap { block = update w.heap.block p (some bytes) }) held)

module _ (alloc : Allocator) (hndl c p : ℕ) (m : Mode) where
  alloc_mapped :
      (m' : Mode) (w : World)
      → (w.containers c).devices ≡ (hndl, record { ptr = p; mode = m }) ∷ []
      → (w.containers c).mutex ≡ free
      → alloc_mem_
          (cpu_backend alloc)
          hndl
          (record { container = c; device_ptr = 0 })
          m'
          (record { world = w; acc = [] })
        ≡ done (
          p,
          record { container = c; device_ptr = p },
          record {
            world = with_lock (lock_of m') c w;
            acc = record { container = c; mode = m' } ∷ [];
          },
        )
  unfolding alloc_mem_ locate take_lock lock_read lock_write cpu_backend
  alloc_mapped m' w mapped unlocked =
      let found : find hndl (w.containers c).devices ≡ some (record { ptr = p; mode = m }) =
        ap (find hndl) mapped ∙ find_self hndl (record { ptr = p; mode = m }) in
      elim (Bool-cases (is_read m')) [
        | inl reads ↦ rw (found, reads, unlocked) refl
        | inr writes ↦ rw (found, writes, unlocked) refl
      ]

  submit_mapped :
      (m' : Mode) (f : List ℕ → List ℕ) (w : World) (bytes : List ℕ)
      → (w.containers c).devices ≡ (hndl, record { ptr = p; mode = m }) ∷ []
      → (w.containers c).mutex ≡ free
      → w.heap.block p ≡ some bytes
      → submit_inline (cpu_backend alloc) hndl (request c m' ∷ code (kernel_on p f) ∷ []) w
        ≡ done (returned, stepped c p m' (f bytes) w)
  unfolding submit_inline run_group unlock_all unlock_read unlock_write
  submit_mapped m' f w bytes mapped unlocked there =
      let same : (c == c) ≡ true = ground arith in
      elim (Bool-cases (is_read m')) [
        | inl reads ↦ rw (alloc_mapped m' w mapped unlocked, there, reads, same) refl
        | inr writes ↦ rw (alloc_mapped m' w mapped unlocked, there, writes, same) refl
      ]

  stepped-Holding :
      (ptr size : ℕ) (others : ℕ → Option (List ℕ)) (m' : Mode) (bytes new : List ℕ) (w : World)
      → Holding hndl c p m ptr size others bytes w
      → Holding hndl c p m ptr size others new (stepped c p m' new w)
  stepped-Holding ptr size others m' bytes new w (mapped, unlocked, there, at, sized, rest) =
      let same : (c == c) ≡ true = ground arith in
      let itself : (p == p) ≡ true = ground arith in
      (
        rw (same) mapped,
        rw (same) refl,
        rw (itself) refl,
        rw (same) at,
        rw (same) (unfold get_size in sized),
        λ q ne. let past : (p == q) ≡ false = ground arith in rw (past) (rest q ne),
      )

  pub submit_each-Holding :
      (ptr size : ℕ) (others : ℕ → Option (List ℕ)) (gs : List Group) (bytes : List ℕ) (w : World)
      → Holding hndl c p m ptr size others bytes w
      → (w' : World) × (submit_each (cpu_backend alloc) hndl c p gs w ≡ done w')
        × Holding hndl c p m ptr size others (run_kernels gs bytes) w'
  submit_each-Holding ptr size others [] bytes w holds = (w, refl, holds)
  submit_each-Holding ptr size others ((m', f) ∷ gs) bytes w holds =
      let (mapped, unlocked, there, _, _, _) = holds in
      let next = stepped c p m' (f bytes) w in
      let (w', ran, held) =
        submit_each-Holding ptr size others gs (f bytes) next
          (stepped-Holding ptr size others m' bytes (f bytes) w holds) in
      (
        w',
        ap (λ o. o >>= λ r. submit_each (cpu_backend alloc) hndl c p gs r.1)
              (submit_mapped m' f w bytes mapped unlocked there)
            ∙ ran,
        held,
      )

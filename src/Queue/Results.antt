-- ===== src/Queue/Results.antt =====
-- The first command group that `submit` of queue.hpp runs for a buffer, on the CPU device.
use neo_sycl.Prelude.{
  ℕ, ◌≡◌, ◌≢◌, refl, sym, true, false, none, some, List, [], ◌∷◌, length, arith, ◌==◌,
  if◌then◌else◌, Bool-cases, inl, inr,
}
use neo_sycl.Outcome.{Outcome, done, ◌>>=◌, or_undefined}
use neo_sycl.Memory.{Heap, malloc, update}
use neo_sycl.Memory.Blocks.{memcpy_whole}
use neo_sycl.Access.{Mode, is_read, is_discard}
use neo_sycl.Mutex.{lock_write, unlock_write}
use neo_sycl.Backend.{Allocator, cpu_backend}
use neo_sycl.Buffer.{find, insert, get_size, get_raw_ptr}
use neo_sycl.Handler.{World, locate, take_lock, alloc_mem_, unlock_all, with_container, with_heap}
use neo_sycl.Queue.Front.{Ended, returned, request, code, run_group, submit_inline}

-- A kernel that works on the bytes of one block.
abbrev pub kernel_on : ℕ → (List ℕ → List ℕ) → World → Outcome (Ended × World)
kernel_on p f w = do
  bytes ← or_undefined (w.heap.block p)
  done (returned, with_heap (record w.heap { block = update w.heap.block p (some (f bytes)) }) w)

-- The heap with a new copy of the buffer's data, or with new memory where the mode discards them.
abbrev heap_with : Allocator → Mode → ℕ → List ℕ → Heap → Heap
heap_with alloc m size host h =
    let allocated = (malloc alloc.junk size h).1 in
    if is_discard m
    then allocated
    else record allocated { block = update allocated.block h.next (some host) }

abbrev pub first_bytes : Allocator → Mode → ℕ → List ℕ → List ℕ
first_bytes alloc m size host = if is_discard m then alloc.junk size else host

abbrev pub mapped : Allocator → ℕ → ℕ → Mode → List ℕ → World → World
mapped alloc hndl c m host w =
    let buf = w.containers c in
    with_heap (heap_with alloc m (get_size buf) host w.heap) (
      with_container c
        (record buf { devices = insert hndl (record { ptr = w.heap.next; mode = m }) buf.devices })
        w)

abbrev pub with_mutex : ℕ → ℕ → World → World
with_mutex writers c w =
    with_container c (record (w.containers c) { mutex = record { readers = 0; writers = writers } })
      w

pub heap_with_block :
    (alloc : Allocator) (m : Mode) (size : ℕ) (host : List ℕ) (h k : Heap)
    → k ≡ heap_with alloc m size host h
    → (k.block h.next ≡ some (first_bytes alloc m size host))
      × ((q : ℕ) → q ≢ h.next → k.block q ≡ h.block q)
unfolding malloc
heap_with_block alloc m size host h k e = elim (Bool-cases (is_discard m)) [
  | inl fresh ↦ rw (e, fresh) (ground arith, λ q ne. ground arith)
  | inr kept ↦ rw (e, kept) (ground arith, λ q ne. ground arith)
]

-- The kernel's work on the device copy, while the handler holds its lock.
abbrev pub worked : Allocator → ℕ → ℕ → Mode → List ℕ → (List ℕ → List ℕ) → World → World
worked alloc hndl c m host f w =
    let size = get_size (w.containers c) in
    let h = heap_with alloc m size host w.heap in
    with_heap
      (record h { block = update h.block w.heap.next (some (f (first_bytes alloc m size host))) })
      (with_mutex 1 c (mapped alloc hndl c m host w))

module _ (alloc : Allocator) (hndl c : ℕ) (m : Mode) (w : World) (host : List ℕ)
    (unmapped : (w.containers c).devices ≡ [])
    (stored : w.heap.block (w.containers c).ptr ≡ some host)
    (sized : length host ≡ get_size (w.containers c))
    (apart : (w.containers c).ptr ≢ w.heap.next) where
  locate_new :
      locate (cpu_backend alloc) hndl (record { container = c; device_ptr = 0 }) m w
      ≡ done
          (false, record { container = c; device_ptr = w.heap.next }, mapped alloc hndl c m host w)
  unfolding locate cpu_backend malloc get_raw_ptr
  locate_new =
      let size = get_size (w.containers c) in
      let h1 = (malloc alloc.junk size w.heap).1 in
      let e_from : h1.block (w.containers c).ptr ≡ some host = ground arith in
      let e_to : h1.block w.heap.next ≡ some (alloc.junk size) = ground arith in
      let copied =
        memcpy_whole w.heap.next (w.containers c).ptr size h1 host (alloc.junk size) e_from e_to
          (λ e. apart (sym e)) sized (alloc.length-junk size) in
      let absent : find hndl (w.containers c).devices ≡ none = rw unmapped refl in
      elim (Bool-cases (is_discard m)) [
        | inl fresh ↦ rw (absent, fresh) refl
        | inr kept ↦ rw (absent, kept, copied) refl
      ]

  alloc_new :
      is_read m ≡ false
      → (w.containers c).mutex ≡ record { readers = 0; writers = 0 }
      → alloc_mem_
          (cpu_backend alloc)
          hndl
          (record { container = c; device_ptr = 0 })
          m
          (record { world = w; acc = [] })
        ≡ done (
          w.heap.next,
          record { container = c; device_ptr = w.heap.next },
          record {
            world = with_mutex 1 c (mapped alloc hndl c m host w);
            acc = record { container = c; mode = m } ∷ [];
          },
        )
  unfolding alloc_mem_ take_lock lock_write cpu_backend
  alloc_new writes unlocked =
      let same : (c == c) ≡ true = ground arith in rw (locate_new, writes, same, unlocked) refl

  pub submit_new :
      (f : List ℕ → List ℕ)
      → is_read m ≡ false
      → (w.containers c).mutex ≡ record { readers = 0; writers = 0 }
      → submit_inline (cpu_backend alloc) hndl (request c m ∷ code (kernel_on w.heap.next f) ∷ []) w
        ≡ done (returned, with_mutex 0 c (worked alloc hndl c m host f w))
  unfolding submit_inline run_group unlock_all unlock_write
  submit_new f writes unlocked =
      let same : (c == c) ≡ true = ground arith in
      let (stored_at, others) =
        heap_with_block alloc m (get_size (w.containers c)) host w.heap _ refl in
      rw (alloc_new writes unlocked, stored_at, writes, same) refl

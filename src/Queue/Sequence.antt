-- ===== src/Queue/Sequence.antt =====
-- A queue of queue.hpp in the build without threads, given one command group after another, and then
-- the destruction of the buffer that they work on.
use neo_sycl.Prelude.{
  ℕ, ◌≡◌, ◌≢◌, ◌<◌, refl, ap, ◌∙◌, sym, true, false, none, some, Option, List, [], ◌∷◌, length, All,
  arith, ◌==◌, if◌then◌else◌, Bool-cases, inl, inr,
}
use neo_sycl.Outcome.{done, ◌>>=◌}
use neo_sycl.Memory.{Heap}
use neo_sycl.Access.{Mode, is_read, is_discard}
use neo_sycl.Backend.{Backend, Allocator, cpu_backend}
use neo_sycl.Buffer.{get_size, destroy}
use neo_sycl.Buffer.CopyBack.{destroy_writes_back}
use neo_sycl.Handler.{World}
use neo_sycl.Queue.Results.{first_bytes, with_mutex, worked, heap_with_block, submit_new}
use neo_sycl.Queue.Holding.{
  Group, run_kernels, KeepsSize, submit_each, Holding, submit_each-Holding,
}

run_kernels-KeepsSize :
    (size : ℕ) (gs : List Group) (bytes : List ℕ)
    → All (KeepsSize size) gs
    → length bytes ≡ size
    → length (run_kernels gs bytes) ≡ size
run_kernels-KeepsSize size [] bytes keeps sized = sized
run_kernels-KeepsSize size ((m, f) ∷ gs) bytes (keep, keeps) sized =
    run_kernels-KeepsSize size gs (f bytes) keeps (keep bytes sized)

length-first_bytes :
    (alloc : Allocator) (m : Mode) (size : ℕ) (host : List ℕ)
    → length host ≡ size
    → length (first_bytes alloc m size host) ≡ size
length-first_bytes alloc m size host sized = elim (Bool-cases (is_discard m)) [
  | inl fresh ↦ rw fresh (alloc.length-junk size)
  | inr kept ↦ rw kept sized
]

worked-Holding :
    (alloc : Allocator) (hndl c : ℕ) (m : Mode) (w : World) (host : List ℕ) (f : List ℕ → List ℕ)
    → (w.containers c).devices ≡ []
    → Holding hndl c w.heap.next m
        (w.containers c).ptr
        (get_size (w.containers c))
        w.heap.block
        (f (first_bytes alloc m (get_size (w.containers c)) host))
        (with_mutex 0 c (worked alloc hndl c m host f w))
worked-Holding alloc hndl c m w host f unmapped =
    let same : (c == c) ≡ true = ground arith in
    let itself : (w.heap.next == w.heap.next) ≡ true = ground arith in
    let (at_copy, others) =
      heap_with_block alloc m (get_size (w.containers c)) host w.heap _ refl in
    (
      rw (same, unmapped) refl,
      rw (same) refl,
      rw (itself) refl,
      rw (same) refl,
      rw (same) (unfold get_size in refl),
      λ q ne. let past : (w.heap.next == q) ≡ false = ground arith in rw (past) (others q ne),
    )

Holding-destroy :
    (alloc : Allocator) (backends : ℕ → Backend) (hndl c p : ℕ) (m : Mode) (ptr size : ℕ)
    (others : ℕ → Option (List ℕ)) (bytes host : List ℕ) (w : World)
    → Holding hndl c p m ptr size others bytes w
    → backends hndl ≡ cpu_backend alloc
    → is_read m ≡ false
    → 0 < p
    → ptr ≢ p
    → others ptr ≡ some host
    → length host ≡ size
    → length bytes ≡ size
    → (h : Heap) × (destroy backends (w.containers c) w.heap ≡ done h)
      × ((q : ℕ) → h.block q ≡ (if p == q then none else if ptr == q then some bytes else others q))
Holding-destroy alloc backends hndl c p m ptr size others bytes host w
      (mapped, unlocked, there, at, size_of, rest) eb writes pos apart stored sized kept =
    let (h, destroyed, after) =
      destroy_writes_back backends alloc (w.containers c) hndl (record { ptr = p; mode = m }) w.heap
        host bytes eb mapped writes pos (λ e. apart (sym at ∙ e))
        (ap w.heap.block at ∙ rest ptr apart ∙ stored) there (sized ∙ sym size_of)
        (kept ∙ sym size_of) in
    (
      h,
      destroyed,
      λ q.
          after q
          ∙ ap (λ x. if p == q then none else if x == q then some bytes else w.heap.block q) at
          ∙ outside q,
    )
  where
    outside :
        (q : ℕ)
        → (if p == q then none else if ptr == q then some bytes else w.heap.block q)
          ≡ (if p == q then none else if ptr == q then some bytes else others q)
    outside q = elim (Bool-cases (p == q)) [
      | inl is ↦ rw is refl
      | inr not_it ↦ rw (not_it, rest q (ground arith)) refl
    ]

-- On the CPU device, for a buffer with no device copy whose lock is free and whose block, which
-- is not the next one to be allocated, has the buffer's size: any number of command groups,
-- submitted one after another in the build without threads, of which the first asks for the
-- buffer in a mode other than `read` and the later ones in any mode, and each runs a kernel that
-- replaces the bytes of the device copy by as many others, all complete, and so does the buffer's
-- destructor after them; the host's data are then what the kernels make, in that order, of the
-- data before (or of new memory, where the first mode discards them), the device copy is freed,
-- and no other block is changed.
pub submit_each-destroy :
    (alloc : Allocator) (backends : ℕ → Backend) (hndl c : ℕ) (m : Mode) (f : List ℕ → List ℕ)
    (gs : List Group) (w : World) (host : List ℕ)
    → backends hndl ≡ cpu_backend alloc
    → (w.containers c).devices ≡ []
    → (w.containers c).mutex ≡ record { readers = 0; writers = 0 }
    → w.heap.block (w.containers c).ptr ≡ some host
    → length host ≡ get_size (w.containers c)
    → (w.containers c).ptr ≢ w.heap.next
    → 0 < w.heap.next
    → is_read m ≡ false
    → All (KeepsSize (get_size (w.containers c))) ((m, f) ∷ gs)
    → let size = get_size (w.containers c) in
      let result = run_kernels ((m, f) ∷ gs) (first_bytes alloc m size host) in
      (w' : World) × (h : Heap) × (submit_each
          (cpu_backend alloc)
          hndl
          c
          w.heap.next
          ((m, f) ∷ gs)
          w
        ≡ done w')
      × (destroy backends (w'.containers c) w'.heap ≡ done h)
      × ((q : ℕ)
          → h.block q ≡ (
              if w.heap.next == q
              then none
              else if (w.containers c).ptr == q
              then some result
              else w.heap.block q))
submit_each-destroy alloc backends hndl c m f gs w host eb unmapped unlocked stored sized apart pos
      writes keeps =
    let size = get_size (w.containers c) in
    let start = first_bytes alloc m size host in
    let (w', ran, held) =
      submit_each-Holding alloc hndl c w.heap.next m (w.containers c).ptr size w.heap.block gs
        (f start) (with_mutex 0 c (worked alloc hndl c m host f w))
        (worked-Holding alloc hndl c m w host f unmapped) in
    let kept =
      run_kernels-KeepsSize size ((m, f) ∷ gs) start keeps
        (length-first_bytes alloc m size host sized) in
    let (h, destroyed, after) =
      Holding-destroy alloc backends hndl c w.heap.next m (w.containers c).ptr size w.heap.block
        (run_kernels gs (f start)) host w' held eb writes pos apart stored sized kept in
    (
      w',
      h,
      ap (λ o. o >>= λ r. submit_each (cpu_backend alloc) hndl c w.heap.next gs r.1)
            (submit_new alloc hndl c m w host unmapped stored sized apart f writes unlocked)
          ∙ ran,
      destroyed,
      after,
    )

-- ===== src/Buffer/CopyBack.antt =====
-- What a buffer's destructor does with the copy on a CPU device, detail/program.hpp.
use neo_sycl.Prelude.{
  ℕ, ◌<◌, ◌≡◌, refl, ap, ◌∙◌, ◌≢◌, true, false, none, some, List, [], ◌∷◌, length, arith, ◌==◌,
  if◌then◌else◌,
}
use neo_sycl.Outcome.{done, ◌>>=◌}
use neo_sycl.Memory.{Heap, free, memcpy, update}
use neo_sycl.Memory.Blocks.{memcpy_whole}
use neo_sycl.Access.{is_read}
use neo_sycl.Backend.{Backend, Allocator, cpu_backend}
use neo_sycl.Buffer.{
  BufferContainer, DevicePtr, find, get_raw_ptr, get_size, copy_back, copy_back_all, destroy,
}

pub find_self : (p : ℕ) (d : DevicePtr) → find p ((p, d) ∷ []) ≡ some d
find_self p d = ground arith

-- One device copy that was made for a writer comes home, and is freed.
pub copy_back-cpu :
    (alloc : Allocator) (buf : BufferContainer) (p : ℕ) (d : DevicePtr) (h : Heap)
    (host device : List ℕ)
    → find p buf.devices ≡ some d
    → is_read d.mode ≡ false
    → 0 < d.ptr
    → buf.ptr ≢ d.ptr
    → h.block buf.ptr ≡ some host
    → h.block d.ptr ≡ some device
    → length host ≡ get_size buf
    → length device ≡ get_size buf
    → copy_back buf p (cpu_backend alloc) true h
      ≡ done (record h { block = update (update h.block buf.ptr (some device)) d.ptr none })
unfolding copy_back cpu_backend get_raw_ptr free
copy_back-cpu alloc buf p d h host device found writes pos ne hh hd lh ld =
    let moved : memcpy buf.ptr d.ptr (get_size buf) h
        ≡ done (record h { block = update h.block buf.ptr (some device) }) =
      memcpy_whole buf.ptr d.ptr (get_size buf) h device host hd hh ne ld lh in
    let apart : (buf.ptr == d.ptr) ≡ false = ground arith in
    let some_block : (d.ptr == 0) ≡ false = ground arith in
    rw (found, writes, moved, some_block, apart, hd) refl

-- A buffer whose one device copy is on the CPU device, apart from the host's data, of the
-- buffer's size, and held for a mode other than `read`: its destructor completes; the host's data
-- then hold what the device copy held, the device copy is freed, and no other block is changed.
pub destroy_writes_back :
    (backends : ℕ → Backend) (alloc : Allocator) (buf : BufferContainer) (p : ℕ) (d : DevicePtr)
    (h : Heap) (host device : List ℕ)
    → backends p ≡ cpu_backend alloc
    → buf.devices ≡ (p, d) ∷ []
    → is_read d.mode ≡ false
    → 0 < d.ptr
    → buf.ptr ≢ d.ptr
    → h.block buf.ptr ≡ some host
    → h.block d.ptr ≡ some device
    → length host ≡ get_size buf
    → length device ≡ get_size buf
    → (h' : Heap) × (destroy backends buf h ≡ done h')
      × ((q : ℕ)
          → h'.block q
            ≡ (if d.ptr == q then none else if buf.ptr == q then some device else h.block q))
unfolding destroy copy_back_all
destroy_writes_back backends alloc buf p d h host device eb ed writes pos ne hh hd lh ld = (
  record h { block = update (update h.block buf.ptr (some device)) d.ptr none },
  ap (λ ds. copy_back_all backends buf ds h) ed
      ∙ ap (λ o. o >>= λ h'. copy_back_all backends buf [] h')
          (ap (λ b. copy_back buf p b true h) eb
            ∙ copy_back-cpu alloc buf p d h host device (ap (find p) ed ∙ find_self p d) writes pos
                ne hh hd lh ld),
  λ q. refl,
)

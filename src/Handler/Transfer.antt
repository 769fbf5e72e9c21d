-- ===== src/Handler/Transfer.antt =====
-- What the explicit memory operations of handler.hpp do to the bytes of the device and of the host.
use neo_sycl.Prelude.{ℕ, ◌≡◌, ◌<◌, ap, ◌∙◌, sym, ◌≢◌, some, List, length, arith}
use neo_sycl.Outcome.{done, undefined, ◌>>=◌}
use neo_sycl.Memory.{Heap, update}
use neo_sycl.Memory.Blocks.{memcpy_whole, memcpy_overrun}
use neo_sycl.Backend.{Backend, Allocator, cpu_backend, host_backend}
use neo_sycl.Buffer.{get_size}
use neo_sycl.Handler.{World, Acc, get_ptr_}
use neo_sycl.Handler.Copy.{copy_out, copy_in, copy_between, update_host}

get_ptr_-device :
    (b : Backend) (hndl : ℕ) (a : Acc) (w : World)
    → 0 < a.device_ptr
    → get_ptr_ b hndl a w ≡ done a.device_ptr
unfolding get_ptr_
get_ptr_-device b hndl a w pos = ground arith

copy_in-cpu :
    (alloc : Allocator) (hndl : ℕ) (acc : Acc) (w : World) (src : ℕ) (from device : List ℕ)
    → 0 < acc.device_ptr
    → src ≢ acc.device_ptr
    → w.heap.block src ≡ some from
    → w.heap.block acc.device_ptr ≡ some device
    → length from ≡ get_size (w.containers acc.container)
    → length device ≡ get_size (w.containers acc.container)
    → copy_in (cpu_backend alloc) hndl src acc w
      ≡ done (record w.heap { block = update w.heap.block acc.device_ptr (some from) })
unfolding copy_in cpu_backend
copy_in-cpu alloc hndl acc w src from device pos sp hs hp ls lp =
    rw (get_ptr_-device (cpu_backend alloc) hndl acc w pos) (
      memcpy_whole acc.device_ptr src (get_size (w.containers acc.container)) w.heap from device hs
        hp (λ e. sp (sym e)) ls lp)

copy_out-cpu :
    (alloc : Allocator) (hndl : ℕ) (acc : Acc) (w : World) (dst : ℕ) (device to : List ℕ)
    → 0 < acc.device_ptr
    → dst ≢ acc.device_ptr
    → w.heap.block acc.device_ptr ≡ some device
    → w.heap.block dst ≡ some to
    → length device ≡ get_size (w.containers acc.container)
    → length to ≡ get_size (w.containers acc.container)
    → copy_out (cpu_backend alloc) hndl acc dst w
      ≡ done (record w.heap { block = update w.heap.block dst (some device) })
unfolding copy_out cpu_backend
copy_out-cpu alloc hndl acc w dst device to pos dp hp hd lp ld =
    rw (get_ptr_-device (cpu_backend alloc) hndl acc w pos) (
      memcpy_whole dst acc.device_ptr (get_size (w.containers acc.container)) w.heap device to hp hd
        dp lp ld)

-- On the CPU device, `copy(src, acc)` and then `copy(acc, dst)`, where the accessor has its
-- device pointer, `src` and `dst` are apart from the device copy, and the three blocks have the
-- buffer's size: both complete, and `dst` and the device copy then hold what `src` held; no other
-- block is touched.
pub copy_out-copy_in :
    (alloc : Allocator) (hndl : ℕ) (acc : Acc) (w : World) (src dst : ℕ) (from device to : List ℕ)
    → 0 < acc.device_ptr
    → src ≢ acc.device_ptr
    → dst ≢ acc.device_ptr
    → w.heap.block src ≡ some from
    → w.heap.block acc.device_ptr ≡ some device
    → w.heap.block dst ≡ some to
    → length from ≡ get_size (w.containers acc.container)
    → length device ≡ get_size (w.containers acc.container)
    → length to ≡ get_size (w.containers acc.container)
    → (copy_in (cpu_backend alloc) hndl src acc w >>= λ h.
        copy_out (cpu_backend alloc) hndl acc dst (record w { heap = h }))
      ≡ done (record w.heap {
        block = update (update w.heap.block acc.device_ptr (some from)) dst (some from);
      })
copy_out-copy_in alloc hndl acc w src dst from device to pos sp dp hs hp hd ls lp ld =
    let h : Heap = record w.heap { block = update w.heap.block acc.device_ptr (some from) } in
    let kept : h.block dst ≡ some to = ground arith in
    let held : h.block acc.device_ptr ≡ some from = ground arith in
    ap (λ o. o >>= λ h. copy_out (cpu_backend alloc) hndl acc dst (record w { heap = h }))
      (copy_in-cpu alloc hndl acc w src from device pos sp hs hp ls lp)
    ∙ copy_out-cpu alloc hndl acc (record w { heap = h }) dst from to pos dp held kept ls ld

-- `copy(src, dst)` between accessors on the CPU device, where both have their device pointers, is
-- undefined when the device copy of `src` is shorter than the buffer of `dst`.
pub copy_between_overrun :
    (alloc : Allocator) (hndl : ℕ) (src dst : Acc) (w : World) (from : List ℕ)
    → 0 < src.device_ptr
    → 0 < dst.device_ptr
    → w.heap.block src.device_ptr ≡ some from
    → length from < get_size (w.containers dst.container)
    → copy_between (cpu_backend alloc) hndl src dst w ≡ undefined
unfolding copy_between cpu_backend
copy_between_overrun alloc hndl src dst w from ps pd hs short =
    rw
      (
        get_ptr_-device (cpu_backend alloc) hndl dst w pd,
        get_ptr_-device (cpu_backend alloc) hndl src w ps,
      )
      (memcpy_overrun dst.device_ptr src.device_ptr (get_size (w.containers dst.container)) w.heap
        from hs short)

-- On the host device, for any accessors and any pointers, the three copies and `update_host`
-- complete and copy nothing.
pub host_copies_nothing :
    (hndl : ℕ) (src dst : Acc) (p : ℕ) (w : World)
    → (copy_out host_backend hndl src p w ≡ done w.heap)
      × (copy_in host_backend hndl p dst w ≡ done w.heap)
      × (copy_between host_backend hndl src dst w ≡ done w.heap)
      × (update_host host_backend hndl src w ≡ done w.heap)
unfolding copy_out copy_in copy_between update_host get_ptr_ host_backend
host_copies_nothing hndl src dst p w = (ground arith, ground arith, ground arith, ground arith)

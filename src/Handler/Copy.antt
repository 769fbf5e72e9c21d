-- ===== src/Handler/Copy.antt =====
-- handler.hpp: the explicit memory operations, `copy` (three ways), `update_host` and `fill`.
use neo_sycl.Prelude.{ℕ, List, [], ◌++◌}
use neo_sycl.Outcome.{Outcome, ◌>>=◌}
use neo_sycl.Memory.{Heap, malloc, free}
use neo_sycl.Backend.{Backend}
use neo_sycl.Buffer.{get_raw_ptr, get_size, get_count}
use neo_sycl.Handler.{World, Acc, get_ptr_}
use neo_sycl.Prelude.{zero, suc}

module _ (b : Backend) (hndl : ℕ) where
  -- `copy(src, T* dst)`, and the overload for a shared pointer.
  unfoldable pub copy_out : Acc → ℕ → World → Outcome Heap
  unfolding get_ptr_ get_size
  copy_out src dst w = do
    p ← get_ptr_ b hndl src w
    b.read_mem dst p (get_size (w.containers src.container)) w.heap

  -- `copy(const T* src, dst)`, and the overload for a shared pointer.
  unfoldable pub copy_in : ℕ → Acc → World → Outcome Heap
  unfolding get_ptr_ get_size
  copy_in src dst w = do
    p ← get_ptr_ b hndl dst w
    b.write_mem p src (get_size (w.containers dst.container)) w.heap

  -- `copy(src, dst)` between accessors: the size is that of `dst`.
  unfoldable pub copy_between : Acc → Acc → World → Outcome Heap
  unfolding get_ptr_ get_size
  copy_between src dst w = do
    q ← get_ptr_ b hndl dst w
    p ← get_ptr_ b hndl src w
    b.copy_mem q p (get_size (w.containers dst.container)) w.heap

  unfoldable pub update_host : Acc → World → Outcome Heap
  unfolding get_ptr_ get_size get_raw_ptr
  update_host acc w = do
    p ← get_ptr_ b hndl acc w
    let buf = w.containers acc.container
    b.read_mem (get_raw_ptr buf) p (get_size buf) w.heap

-- `std::fill_n` over the bytes of `n` values.
unfoldable pub fill_n : ℕ → List ℕ → List ℕ
fill_n zero value = []
fill_n (suc n) value = value ++ fill_n n value

-- `fill`: a temporary array of `get_count()` values is written to the device, and freed.
unfoldable pub fill : Backend → ℕ → Acc → List ℕ → World → Outcome Heap
unfolding get_ptr_ get_size get_count fill_n malloc free
fill b hndl dst value w = do
  let buf = w.containers dst.container
  let (tmp, h) = malloc (λ s. fill_n (get_count buf) value) (get_size buf) w.heap
  p ← get_ptr_ b hndl dst (record w { heap = h })
  h' ← b.write_mem p tmp (get_size buf) h
  free tmp h'

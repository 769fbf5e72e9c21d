-- ===== src/Backend.antt =====
-- The memory interface of `detail::program_data`, by which a handler drives a device, with its
-- implementations for the host (detail/program.hpp) and the CPU device (detail/cpu/program.hpp).
-- A call gets the destination first, as in the source.
pub mod VectorEngine
use neo_sycl.Prelude.{ℕ, Bool, true, false, List, ◌≡◌, length}
use neo_sycl.Outcome.{Outcome, done}
use neo_sycl.Memory.{Heap, malloc, free, memcpy}

pub record Backend : Type 0 where
  pub is_host : Bool
  pub alloc_mem : ℕ → ℕ → Heap → Outcome (ℕ × Heap)
  pub free_mem : ℕ → Heap → Outcome Heap
  pub write_mem : ℕ → ℕ → ℕ → Heap → Outcome Heap
  pub read_mem : ℕ → ℕ → ℕ → Heap → Outcome Heap
  pub copy_mem : ℕ → ℕ → ℕ → Heap → Outcome Heap

-- `program_data_host`: there is nothing to allocate or to copy.
unfoldable pub host_backend : Backend
host_backend = record {
  is_host = true;
  alloc_mem = λ p s h. done (0, h);
  free_mem = λ p h. done h;
  write_mem = λ d s n h. done h;
  read_mem = λ d s n h. done h;
  copy_mem = λ d s n h. done h;
}

-- What `malloc` leaves in a block of `s` bytes.
pub record Allocator : Type 0 where
  pub junk : ℕ → List ℕ
  pub length-junk : (s : ℕ) → length (junk s) ≡ s

-- `program_data_cpu`: the device works in host memory.
unfoldable pub cpu_backend : Allocator → Backend
unfolding malloc free memcpy
cpu_backend a = record {
  is_host = false;
  alloc_mem = λ p s h. done (malloc a.junk s h);
  free_mem = free;
  write_mem = memcpy;
  read_mem = memcpy;
  copy_mem = memcpy;
}

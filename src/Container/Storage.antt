-- ===== src/Container/Storage.antt =====
-- detail/container/data_container_nd.hpp: the memory behind `DataContainerD<T, dimensions>`, which a
-- container owns through a `shared_ptr` or borrows from the host. Elements need no destructor.
use neo_sycl.Prelude.{ℕ, suc, ◌-◌, ◌*◌, List, ◌==◌, if◌then◌else◌}
use neo_sycl.SizeT.{wrap}
use neo_sycl.Outcome.{Outcome, done, ◌>>=◌, or_undefined}
use neo_sycl.Memory.{Heap, malloc, free, memcpy}
use neo_sycl.ArrayNd.{ArrayNd, get_liner}

-- `ptr` and `allocate_ptr` are pointers to the start of a block; 0 is the null pointer. The
-- allocator has no state, and is left out.
pub record DataContainerD (n : ℕ) : Type 0 where
  pub range : ArrayNd n
  pub ptr : ℕ
  pub allocate_ptr : ℕ

-- The memory, and how many `shared_ptr` objects own each block.
pub record Store : Type 0 where
  pub heap : Heap
  pub uses : ℕ → ℕ

abbrev pub with_uses : (ℕ → ℕ) → ℕ → ℕ → ℕ → ℕ
with_uses uses p k q = if p == q then k else uses q

-- `shared_ptr` from a pointer to a new block, its copy, and its destructor.
abbrev pub own : ℕ → Store → Store
own p st = record st { uses = with_uses st.uses p 1 }

abbrev pub share : ℕ → Store → Store
share p st = if p == 0 then st else record st { uses = with_uses st.uses p (suc (st.uses p)) }

unfoldable pub release : ℕ → Store → Outcome Store
unfolding free
release p st =
    let fewer = record st { uses = with_uses st.uses p (st.uses p - 1) } in
    if p == 0
    then done st
    else if (st.uses p - 1) == 0
    then (do h ← free p st.heap; done (record fewer { heap = h }))
    else done fewer

-- The constructors over the host's data.
unfoldable pub container_of_host : {n : ℕ} → ℕ → ArrayNd n → DataContainerD n
container_of_host host_data r = record { range = r; ptr = host_data; allocate_ptr = 0 }

-- The move constructor: it copies the pointers, and the moved container keeps its own.
unfoldable pub move : {n : ℕ} → DataContainerD n → Store → DataContainerD n × Store
move rhs st = (
  record { range = rhs.range; ptr = rhs.ptr; allocate_ptr = rhs.allocate_ptr },
  share rhs.allocate_ptr st,
)

-- The implicit destructor.
unfoldable pub destroy : {n : ℕ} → DataContainerD n → Store → Outcome Store
unfolding release
destroy c st = release c.allocate_ptr st

unfoldable pub begin : {n : ℕ} → DataContainerD n → ℕ
begin c = c.ptr

-- `end() - begin()`, in elements.
unfoldable pub end : {n : ℕ} → DataContainerD n → Outcome ℕ
end c = or_undefined (get_liner c.range)

-- `junk` is what new memory holds, `element_size` is `sizeof(T)`; the memory suffices.
module _ (junk : ℕ → List ℕ) (element_size : ℕ) where
  -- The constructors that allocate.
  unfoldable pub container_of_range :
      {n : ℕ} → ArrayNd n → Store → Outcome (DataContainerD n × Store)
  unfolding malloc get_liner
  container_of_range r st = do
    count ← or_undefined (get_liner r)
    let allocated = malloc junk (element_size * count) st.heap
    done (
      record { range = r; ptr = allocated.0; allocate_ptr = allocated.0 },
      own allocated.0 (record st { heap = allocated.1 }),
    )

  -- The copy constructor.
  unfoldable pub copy : {n : ℕ} → DataContainerD n → Store → Outcome (DataContainerD n × Store)
  unfolding container_of_range memcpy get_liner
  copy rhs st = do
    (c, st') ← container_of_range rhs.range st
    count ← or_undefined (get_liner rhs.range)
    h ← memcpy c.ptr rhs.ptr (wrap (element_size * count)) st'.heap
    done (c, record st' { heap = h })

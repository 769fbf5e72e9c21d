-- ===== src/SyclBuffer.antt =====
-- buffer.hpp and the front of accessor.hpp: a `buffer` is a range with a shared container; an
-- `accessor` is a container with a range and an offset. Containers go by numbers.
pub mod Ranged
pub mod Brackets
use neo_sycl.Prelude.{
  ℕ, zero, suc, ◌*◌, ◌/◌, Bool, true, false, not, ◌&&◌, Option, none, some, List, [], ◌∷◌, ◌==◌,
  ltb, leb, if◌then◌else◌,
}
use neo_sycl.SizeT.{wrap}
use neo_sycl.Outcome.{Outcome, done, throws, undefined, invalid_object_error, ◌>>=◌, or_undefined}
use neo_sycl.Memory.{malloc}
use neo_sycl.Access.{Mode}
use neo_sycl.Backend.{Backend}
use neo_sycl.Range
use neo_sycl.Range.{Range, range_1}
use neo_sycl.Id
use neo_sycl.Id.{IdNd, id_default}
use neo_sycl.Buffer
use neo_sycl.Buffer.{buffer_container}
use neo_sycl.Handler.{World, State, Acc, with_container, with_heap, alloc_mem_}
use neo_sycl.Accessor.{id2index}

-- `element_size` is `sizeof(T)`.
pub record BufferNd (n : ℕ) : Type 0 where
  pub buffer_range : Range n
  pub element_size : ℕ
  pub container : ℕ

-- The constructors that allocate: the new container has the number `c`, its memory is `junk`.
unfoldable pub buffer_of_range :
    {n : ℕ} → (ℕ → List ℕ) → ℕ → Range n → ℕ → World → Outcome (BufferNd n × World)
unfolding Range.size malloc buffer_container
buffer_of_range junk element_size r c w = do
  count ← or_undefined (Range.size r)
  let allocated = malloc junk (wrap (element_size * count)) w.heap
  done (
    record { buffer_range = r; element_size = element_size; container = c },
    with_container c (buffer_container allocated.0 element_size count) (with_heap allocated.1 w),
  )

-- The constructors over the host's data.
unfoldable pub buffer_of_host : {n : ℕ} → ℕ → ℕ → Range n → ℕ → World → Outcome (BufferNd n × World)
unfolding Range.size buffer_container
buffer_of_host host_data element_size r c w = do
  count ← or_undefined (Range.size r)
  done (
    record { buffer_range = r; element_size = element_size; container = c },
    with_container c (buffer_container host_data element_size count) w,
  )

-- The constructors over two iterators, `distance` elements apart, which divide by `sizeof(T)`.
unfoldable pub buffer_of_iterators : ℕ → ℕ → ℕ → ℕ → World → Outcome (BufferNd 1 × World)
unfolding buffer_of_host range_1
buffer_of_iterators first distance element_size c w =
    buffer_of_host first element_size (range_1 (distance / element_size)) c w

unfoldable pub get_range : {n : ℕ} → BufferNd n → Range n
get_range b = b.buffer_range

unfoldable pub get_count : {n : ℕ} → BufferNd n → Option ℕ
unfolding Range.size
get_count b = Range.size b.buffer_range

unfoldable pub get_size : {n : ℕ} → BufferNd n → Option ℕ
unfolding get_count
get_size b = elim (get_count b) [ none ↦ none | some k ↦ some (wrap (k * b.element_size)) ]

unfoldable pub is_sub_buffer : {n : ℕ} → BufferNd n → Bool
is_sub_buffer b = false

unfoldable pub eq : {n : ℕ} → BufferNd n → BufferNd n → Bool
eq lhs rhs = lhs.container == rhs.container

unfoldable pub ne : {n : ℕ} → BufferNd n → BufferNd n → Bool
unfolding eq
ne lhs rhs = not (eq lhs rhs)

pub record Accessor (n : ℕ) : Type 0 where
  pub container : ℕ
  pub access_range : Range n
  pub access_offset : IdNd n
  pub device_ptr : ℕ

-- The constructors that take no handler.
unfoldable pub accessor : {n : ℕ} → BufferNd n → Accessor n
unfolding get_range id_default
accessor {n} b = record {
  container = b.container;
  access_range = get_range b;
  access_offset = id_default n;
  device_ptr = 0;
}

unfoldable pub accessor_range : {n : ℕ} → BufferNd n → Range n → IdNd n → Accessor n
accessor_range b access_range access_offset = record {
  container = b.container;
  access_range = access_range;
  access_offset = access_offset;
  device_ptr = 0;
}

abbrev pub as_acc : {n : ℕ} → Accessor n → Acc
as_acc a = record { container = a.container; device_ptr = a.device_ptr }

unfoldable pub accessor_get_range : {n : ℕ} → Accessor n → Range n
accessor_get_range a = a.access_range

unfoldable pub accessor_get_offset : {n : ℕ} → Accessor n → IdNd n
accessor_get_offset a = a.access_offset

unfoldable pub accessor_get_size : {n : ℕ} → Accessor n → World → ℕ
unfolding Buffer.get_size
accessor_get_size a w = Buffer.get_size (w.containers a.container)

unfoldable pub accessor_get_count : {n : ℕ} → Accessor n → World → ℕ
unfolding Buffer.get_count
accessor_get_count a w = Buffer.get_count (w.containers a.container)

-- `operator[](id)` on the host: the element, counted from the container's pointer.
unfoldable pub accessor_at : {n : ℕ} → ℕ → Accessor n → IdNd n → Option ℕ
unfolding id2index
accessor_at stray a index = id2index stray a.access_range index

unfoldable pub accessor_eq : {n : ℕ} → Accessor n → Accessor n → Bool
unfolding Range.eq Id.eq
accessor_eq lhs rhs =
    lhs.container == rhs.container
    && Range.eq lhs.access_range rhs.access_range
    && Id.eq lhs.access_offset rhs.access_offset

unfoldable pub accessor_ne : {n : ℕ} → Accessor n → Accessor n → Bool
unfolding accessor_eq
accessor_ne lhs rhs = not (accessor_eq lhs rhs)

module _ (b : Backend) (hndl : ℕ) where
  -- `alloc_` of an accessor: the request, which stores the device pointer.
  unfoldable pub alloc_ : {n : ℕ} → Accessor n → Mode → State → Outcome (Accessor n × State)
  unfolding alloc_mem_
  alloc_ a m st = do
    (_, a', st') ← alloc_mem_ b hndl (as_acc a) m st
    done (record a { device_ptr = a'.device_ptr }, st')

  -- The constructors that take a handler.
  unfoldable pub accessor_handler :
      {n : ℕ} → BufferNd n → Mode → State → Outcome (Accessor n × State)
  unfolding alloc_ accessor
  accessor_handler buf m st = alloc_ (accessor buf) m st

  unfoldable pub accessor_handler_range :
      {n : ℕ} → BufferNd n → Range n → IdNd n → Mode → State → Outcome (Accessor n × State)
  unfolding alloc_ accessor_range
  accessor_handler_range buf r o m st = alloc_ (accessor_range buf r o) m st

  -- `get_access` with a handler: one request, and, with a range, a second one.
  unfoldable pub get_access : {n : ℕ} → BufferNd n → Mode → State → Outcome (Accessor n × State)
  unfolding alloc_ accessor
  get_access buf m st = alloc_ (accessor buf) m st

  unfoldable pub get_access_range :
      {n : ℕ} → BufferNd n → Range n → IdNd n → Mode → State → Outcome (Accessor n × State)
  unfolding accessor_handler_range alloc_
  get_access_range buf r o m st = do (a, st1) ← accessor_handler_range buf r o m st; alloc_ a m st1

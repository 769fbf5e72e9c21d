-- ===== src/Buffer.antt =====
-- detail/container/buffer_container.hpp: the container behind a buffer, with the device copies that
-- were made of it; and `CopybackProxy` of detail/program.hpp, which brings them home.
pub mod CopyBack
use neo_sycl.Prelude.{
  ℕ, ◌*◌, Bool, true, false, not, Option, none, some, List, [], ◌∷◌, ◌==◌, if◌then◌else◌,
}
use neo_sycl.SizeT.{wrap}
use neo_sycl.Outcome.{Outcome, done, throws, ◌>>=◌, or_undefined}
use neo_sycl.Memory.{Heap}
use neo_sycl.Access.{Mode, is_read}
use neo_sycl.Mutex.{Mutex}
use neo_sycl.Backend.{Backend}

pub record DevicePtr : Type 0 where
  pub ptr : ℕ
  pub mode : Mode

-- `map` of the source, from `program_data*`; a program_data object goes by a number.
abbrev pub DeviceMap : Type 0
DeviceMap = List (ℕ × DevicePtr)

-- `elements` is `range.get_liner()`.
pub record BufferContainer : Type 0 where
  pub ptr : ℕ
  pub element_size : ℕ
  pub elements : ℕ
  pub devices : DeviceMap
  pub mutex : Mutex

unfoldable pub get_raw_ptr : BufferContainer → ℕ
get_raw_ptr b = b.ptr

unfoldable pub get_count : BufferContainer → ℕ
get_count b = b.elements

unfoldable pub get_size : BufferContainer → ℕ
get_size b = wrap (b.element_size * b.elements)

-- `std::map`: `find` is `at` where `count` is 1; `insert` leaves an entry that is there alone.
abbrev pub find : ℕ → DeviceMap → Option DevicePtr
find p [] = none
find p ((q, d) ∷ m) = if q == p then some d else find p m

abbrev pub insert : ℕ → DevicePtr → DeviceMap → DeviceMap
insert p d [] = (p, d) ∷ []
insert p d ((q, e) ∷ m) = if q == p then (q, e) ∷ m else (q, e) ∷ insert p d m

-- `map.at(p).mode = m`.
abbrev pub set_mode : ℕ → Mode → DeviceMap → DeviceMap
set_mode p m [] = []
set_mode p m ((q, d) ∷ ds) =
    if q == p then (q, record d { mode = m }) ∷ ds else (q, d) ∷ set_mode p m ds

-- The six constructors of a container that wraps `data`; nothing is on a device yet.
unfoldable pub buffer_container : ℕ → ℕ → ℕ → BufferContainer
buffer_container data_ptr element_size elements = record {
  ptr = data_ptr;
  element_size = element_size;
  elements = elements;
  devices = [];
  mutex = record { readers = 0; writers = 0 };
}

-- `CopybackProxy::operator()` for the program_data object `p` that `backend` drives.
unfoldable pub copy_back : BufferContainer → ℕ → Backend → Bool → Heap → Outcome Heap
unfolding get_raw_ptr get_size
copy_back buf p backend free_mem_flag h =
    if backend.is_host then done h else elim (find p buf.devices) [
      | none ↦ done h
      | some d ↦ do
        h' ←
            if is_read d.mode
            then done h
            else backend.read_mem (get_raw_ptr buf) d.ptr (get_size buf) h
        if free_mem_flag then backend.free_mem d.ptr h' else done h'
    ]

-- `~BufferContainer`: every device in the map.
unfoldable pub copy_back_all : (ℕ → Backend) → BufferContainer → DeviceMap → Heap → Outcome Heap
unfolding copy_back
copy_back_all backends buf [] h = done h
copy_back_all backends buf ((p, d) ∷ ds) h = do
  h' ← copy_back buf p (backends p) true h
  copy_back_all backends buf ds h'

unfoldable pub destroy : (ℕ → Backend) → BufferContainer → Heap → Outcome Heap
unfolding copy_back_all
destroy backends buf h = copy_back_all backends buf buf.devices h

-- ===== src/Handler.antt =====
-- handler.hpp: a command group handler takes a lock and, off the host, a device copy for each
-- accessor, moves data, and gives its locks back when it is destroyed.
pub mod Locks
pub mod Mapping
pub mod Pointers
pub mod Copy
pub mod Transfer
pub mod Launch
pub mod Debugging
pub mod Moves
pub mod Runs
pub mod Exclusive
pub mod Exclusion
use neo_sycl.Prelude.{
  ℕ, zero, suc, ◌+◌, Bool, true, false, not, ◌&&◌, Option, none, some, List, [], ◌∷◌, ◌++◌, length,
  get_elem?, set, replicate, ltb, ◌==◌, if◌then◌else◌,
}
use neo_sycl.Outcome.{Outcome, done, throws, Exception, runtime_error, ◌>>=◌, ◌>>◌, or_undefined}
use neo_sycl.Memory.{Heap}
use neo_sycl.Access.{Mode, is_read, is_discard}
use neo_sycl.Mutex.{Mutex, lock_read, unlock_read, lock_write, unlock_write}
use neo_sycl.Backend.{Backend}
use neo_sycl.Buffer.{
  BufferContainer, DevicePtr, find, insert, set_mode, get_raw_ptr, get_size, get_count,
}

-- The containers are shared by all handlers, and go by numbers.
pub record World : Type 0 where
  pub heap : Heap
  pub containers : ℕ → BufferContainer

-- `detail::accessor_data`.
pub record AccessorData : Type 0 where
  pub container : ℕ
  pub mode : Mode

-- An accessor as the handler sees it: its container, and the device pointer (0 for `nullptr`).
pub record Acc : Type 0 where
  pub container : ℕ
  pub device_ptr : ℕ

-- The handler's `acc_` with the world.
pub record State : Type 0 where
  pub world : World
  pub acc : List AccessorData

abbrev pub with_container : ℕ → BufferContainer → World → World
with_container c b w = record w { containers = λ d. if c == d then b else w.containers d }

abbrev pub with_heap : Heap → World → World
with_heap h w = record w { heap = h }

-- A lock operation on one container.
abbrev pub on_mutex : (Mutex → Outcome Mutex) → ℕ → World → Outcome World
on_mutex op c w = do
  m ← op (w.containers c).mutex
  done (with_container c (record (w.containers c) { mutex = m }) w)

-- The `for` loop over `acc_` in `alloc_mem_`: the first entry with this container, or the size.
abbrev pub search_acc : ℕ → List AccessorData → ℕ
search_acc c [] = 0
search_acc c (a ∷ as') = let rest = search_acc c as' in if a.container == c then 0 else suc rest

-- The lock that a mode wants, and the unlock that goes with a mode.
abbrev pub lock_for : Mode → Mutex → Outcome Mutex
lock_for m = if is_read m then lock_read else lock_write

abbrev pub unlock_for : Mode → Mutex → Outcome Mutex
unlock_for m = if is_read m then unlock_read else unlock_write

module _ (b : Backend) (hndl : ℕ) where
  -- `alloc_mem_`, first half: the device copy of the accessor's buffer, made at the first use.
  -- The truth value is `count > 0`.
  unfoldable pub locate : Acc → Mode → World → Outcome (Bool × Acc × World)
  unfolding get_raw_ptr get_size
  locate a m w =
      let buf = w.containers a.container in
      if b.is_host then done (false, a, w) else elim (find hndl buf.devices) [
        | some d ↦ done (true, record a { device_ptr = d.ptr }, w)
        | none ↦ do
          (dp, h) ← b.alloc_mem (get_raw_ptr buf) (get_size buf) w.heap
          let entry = insert hndl (record { ptr = dp; mode = m }) buf.devices
          let mapped = with_container a.container (record buf { devices = entry }) w
          h' ← if is_discard m then done h else b.write_mem dp (get_raw_ptr buf) (get_size buf) h
          done (false, record a { device_ptr = dp }, with_heap h' mapped)
      ]

  -- The body of the loop over `acc_` at the entry that it stops at: a read lock is exchanged for a
  -- write lock if the new accessor writes.
  unfoldable pub upgrade : ℕ → ℕ → Mode → State → Outcome State
  upgrade c i m st = elim (get_elem? st.acc i) [
    | none ↦ done st
    | some e ↦
        if is_read e.mode && not (is_read m)
        then (do
          w ← on_mutex unlock_read e.container st.world
          w' ← on_mutex lock_write e.container w
          let buf = w'.containers c
          let remapped = record buf { devices = set_mode hndl m buf.devices }
          done (record {
            world = with_container c remapped w';
            acc = set st.acc i (record e { mode = m });
          }))
        else done st
  ]

  -- `alloc_mem_`, second half.
  unfoldable pub take_lock : Bool → ℕ → Mode → State → Outcome State
  unfolding upgrade lock_read lock_write unlock_read unlock_write
  take_lock counted c m st = do
    let i = if counted then search_acc c st.acc else 0
    st' ← if counted then upgrade c i m st else done st
    if i == length st'.acc
        then (do
          w ← on_mutex (lock_for m) c st'.world
          done (record { world = w; acc = st'.acc ++ record { container = c; mode = m } ∷ [] }))
        else done st'

  -- `alloc_mem_`: the pointer that it returns, the accessor with its device pointer, and the state.
  unfoldable pub alloc_mem_ : Acc → Mode → State → Outcome (ℕ × Acc × State)
  unfolding locate take_lock get_raw_ptr
  alloc_mem_ a m st = do
    (counted, a', w) ← locate a m st.world
    st' ← take_lock counted a.container m (record st { world = w })
    done (
      if b.is_host then get_raw_ptr (st'.world.containers a.container) else a'.device_ptr,
      a',
      st',
    )

  -- `get_ptr_`.
  unfoldable pub get_ptr_ : Acc → World → Outcome ℕ
  unfolding get_raw_ptr
  get_ptr_ a w =
      let buf = w.containers a.container in
      if not (a.device_ptr == 0)
      then done a.device_ptr
      else if b.is_host
      then done (get_raw_ptr buf)
      else elim (find hndl buf.devices) [
        | some d ↦ done d.ptr
        | none ↦ throws (runtime_error "invalid BufferContainer object")
      ]

  -- `require`, for a placeholder.
  unfoldable pub require : Acc → Mode → State → Outcome State
  unfolding alloc_mem_
  require a m st = do (_, _, st') ← alloc_mem_ a m st; done st'

  -- A command group asks for its accessors one after another.
  unfoldable pub alloc_all : List (ℕ × Mode) → State → Outcome State
  unfolding alloc_mem_
  alloc_all [] st = done st
  alloc_all ((c, m) ∷ rs) st = do
    (_, _, st') ← alloc_mem_ (record { container = c; device_ptr = 0 }) m st
    alloc_all rs st'

-- `~handler`: the loop over `acc_`.
unfoldable pub unlock_all : List AccessorData → World → Outcome World
unfolding unlock_read unlock_write
unlock_all [] w = done w
unlock_all (a ∷ as') w = do w' ← on_mutex (unlock_for a.mode) a.container w; unlock_all as' w'

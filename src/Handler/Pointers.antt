-- ===== src/Handler/Pointers.antt =====
-- Which device pointer a request yields, and which mode the container's map holds for it, by which
-- the buffer's destructor decides whether to copy the data back.
use neo_sycl.Prelude.{
  ℕ, ◌<◌, ◌≡◌, ap, ap₂, ◌∙◌, sym, Bool, true, false, none, some, List, length, get_elem?, arith,
  inl, inr,
}
use neo_sycl.Outcome.{done, ◌>>=◌, >>=-eq-done, done-injective}
use neo_sycl.Memory.{Heap}
use neo_sycl.Access.{Mode, is_read}
use neo_sycl.Mutex.{lock_read, unlock_read, lock_write, unlock_write}
use neo_sycl.Backend.{Backend}
use neo_sycl.Buffer.{DevicePtr, find, copy_back, get_raw_ptr, get_size}
use neo_sycl.Handler.Mapping.{
  ptr_of, find-insert, ptr_of-set_mode, alloc_mem_inv, search_acc-cases, locate_mapped,
}
use neo_sycl.Handler.{
  World, AccessorData, Acc, State, search_acc, locate, upgrade, take_lock, alloc_mem_, get_ptr_,
}

past_end :
    (c : ℕ) (acc : List AccessorData)
    → search_acc c acc ≡ length acc
    → get_elem? acc (search_acc c acc) ≡ none
past_end c acc h = elim (search_acc-cases c acc) [
  | inl (absent, last) ↦ absent
  | inr (e, at_i, same, below) ↦ absurd (omega arith)
]

module _ (b : Backend) (hndl : ℕ) where
  upgrade-ptr_of :
      (c i : ℕ) (m : Mode) (st st' : State) (d : ℕ)
      → upgrade b hndl c i m st ≡ done st'
      → ptr_of hndl (st'.world.containers d).devices ≡ ptr_of hndl (st.world.containers d).devices
  unfolding upgrade lock_read lock_write unlock_read unlock_write
  upgrade-ptr_of c i m st st' d e =
      ground (arith, ptr_of-set_mode hndl hndl m (st.world.containers d).devices)

  take_lock-ptr_of :
      (k : Bool) (c : ℕ) (m : Mode) (st st' : State) (d : ℕ)
      → take_lock b hndl k c m st ≡ done st'
      → ptr_of hndl (st'.world.containers d).devices ≡ ptr_of hndl (st.world.containers d).devices
  unfolding take_lock
  take_lock-ptr_of true c m st st' d e =
      let (t, first, e') = >>=-eq-done (upgrade b hndl c (search_acc c st.acc) m st) _ e in
      let kept = upgrade-ptr_of c (search_acc c st.acc) m st t d first in ground arith
  take_lock-ptr_of false c m st st' d e = ground arith

  locate-ptr_of :
      (a a' : Acc) (m : Mode) (w w' : World) (k : Bool)
      → b.is_host ≡ false
      → locate b hndl a m w ≡ done (k, a', w')
      → ptr_of hndl (w'.containers a.container).devices ≡ some a'.device_ptr
  unfolding locate
  locate-ptr_of a a' m w w' k device e = ground (
    arith,
    find-insert hndl (record { ptr = a'.device_ptr; mode = m }) (w.containers a.container).devices,
  )

  -- Off the host: the pointer that a request returns is the accessor's device pointer and the
  -- one that the container's map holds for this device; if it is not null, `get_ptr_` gives it
  -- for the accessor.
  pub alloc_mem_ptr :
      (a a' : Acc) (m : Mode) (st st' : State) (p : ℕ)
      → b.is_host ≡ false
      → alloc_mem_ b hndl a m st ≡ done (p, a', st')
      → (a'.device_ptr ≡ p)
        × (ptr_of hndl (st'.world.containers a.container).devices ≡ some p)
        × (0 < p → get_ptr_ b hndl a' st'.world ≡ done p)
  unfolding get_ptr_
  alloc_mem_ptr a a' m st st' p device called =
      let (k, w, located, taken, returned) = alloc_mem_inv b hndl a a' m st st' p called in
      let same : a'.device_ptr ≡ p = ground arith in
      (
        same,
        take_lock-ptr_of k a.container m (record { world = w; acc = st.acc }) st' a.container taken
            ∙ locate-ptr_of a a' m st.world w k device located
            ∙ ap some same,
        λ pos. ground arith,
      )

  -- A request for a buffer that already has its device copy leaves the pointer, and the mode that
  -- the map holds becomes `m` only where this handler has a read entry and `m` writes.
  take_lock_mode :
      (c : ℕ) (m : Mode) (st st' : State) (d : DevicePtr)
      → find hndl (st.world.containers c).devices ≡ some d
      → take_lock b hndl true c m st ≡ done st'
      → get_elem? st.acc (search_acc c st.acc) ≡ none
      → find hndl (st'.world.containers c).devices ≡ some d
  unfolding take_lock lock_read lock_write unlock_read unlock_write
  take_lock_mode c m st st' d mapped e absent = ground arith

  -- Off the host, where the device copy of a buffer is held for the mode `read` and the buffer
  -- is not in this handler's `acc_`: after a request for the buffer in any mode, the buffer's
  -- destructor, at this device and in any state of memory, copies nothing back and only frees
  -- the device copy.
  pub write_is_lost :
      (a a' : Acc) (m : Mode) (st st' : State) (d : DevicePtr) (p : ℕ) (h : Heap)
      → b.is_host ≡ false
      → find hndl (st.world.containers a.container).devices ≡ some d
      → d.mode ≡ Mode.read
      → search_acc a.container st.acc ≡ length st.acc
      → alloc_mem_ b hndl a m st ≡ done (p, a', st')
      → copy_back (st'.world.containers a.container) hndl b true h ≡ b.free_mem p h
  unfolding copy_back
  write_is_lost a a' m st st' d p h device mapped reads fresh called =
      let (k, w, located, taken, returned) = alloc_mem_inv b hndl a a' m st st' p called in
      let known =
        done-injective (sym (locate_mapped b hndl a m st.world d device mapped) ∙ located) in
      let same_ptr : d.ptr ≡ p = ap (λ r. r.1.device_ptr) known ∙ ground arith in
      let kept =
        take_lock_mode a.container m st st' d mapped
          (ap₂ (λ j v. take_lock b hndl j a.container m (record { world = v; acc = st.acc }))
              (ap (λ r. r.0) known) (ap (λ r. r.2) known)
            ∙ taken)
          (past_end a.container st.acc fresh) in
      ground arith

  locate_first :
      (a a' : Acc) (m : Mode) (w w' : World) (k : Bool)
      → b.is_host ≡ false
      → find hndl (w.containers a.container).devices ≡ none
      → locate b hndl a m w ≡ done (k, a', w')
      → (k ≡ false)
        × (find hndl (w'.containers a.container).devices
            ≡ some (record { ptr = a'.device_ptr; mode = m }))
  unfolding locate
  locate_first a a' m w w' k device absent e = ground (
    arith,
    find-insert hndl (record { ptr = a'.device_ptr; mode = m }) (w.containers a.container).devices,
  )

  take_lock_devices :
      (c : ℕ) (m : Mode) (st st' : State)
      → take_lock b hndl false c m st ≡ done st'
      → (st'.world.containers c).devices ≡ (st.world.containers c).devices
  unfolding take_lock lock_read lock_write
  take_lock_devices c m st st' e = ground arith

  -- Off the host, where a device copy is made for a mode other than `read`: after the request,
  -- the buffer's destructor, at this device and in any state of memory, reads the device copy
  -- back into the host's data and then frees it.
  pub first_write_is_kept :
      (a a' : Acc) (m : Mode) (st st' : State) (p : ℕ) (h : Heap)
      → b.is_host ≡ false
      → find hndl (st.world.containers a.container).devices ≡ none
      → is_read m ≡ false
      → alloc_mem_ b hndl a m st ≡ done (p, a', st')
      → let buf = st'.world.containers a.container in
        copy_back buf hndl b true h
        ≡ (b.read_mem (get_raw_ptr buf) p (get_size buf) h >>= λ h'. b.free_mem p h')
  unfolding copy_back
  first_write_is_kept a a' m st st' p h device absent writes called =
      let (k, w, located, taken, returned) = alloc_mem_inv b hndl a a' m st st' p called in
      let (fresh, inserted) = locate_first a a' m st.world w k device absent located in
      let kept =
        take_lock_devices a.container m (record { world = w; acc = st.acc }) st'
          (ap (λ j. take_lock b hndl j a.container m (record { world = w; acc = st.acc }))
              (sym fresh)
            ∙ taken) in
      ground arith

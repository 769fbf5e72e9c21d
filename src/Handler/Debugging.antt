-- ===== src/Handler/Debugging.antt =====
-- handler.hpp built with DEBUG: what `get_ptr_` prints is computed first, and reads the container's
-- map.
use neo_sycl.Prelude.{
  ℕ, ◌≡◌, ◌⊎◌, refl, ap, ap₂, sym, ◌∙◌, Bool, true, false, none, some, inl, inr, Bool-cases, ◌<◌,
  ◌==◌, arith,
}
use neo_sycl.Outcome.{Outcome, done, throws, out_of_range, done-injective}
use neo_sycl.Access.{Mode}
use neo_sycl.Backend.{Backend}
use neo_sycl.Buffer.{find, get_raw_ptr}
use neo_sycl.Handler.{World, State, Acc, locate, take_lock, alloc_mem_, get_ptr_}
use neo_sycl.Mutex.{lock_read, lock_write}
use neo_sycl.Handler.Mapping.{alloc_mem_inv, ptr_of}
use neo_sycl.Handler.Pointers.{alloc_mem_ptr}

module _ (b : Backend) (hndl : ℕ) where
  -- `buf->map.at(hndl_).ptr` among the arguments of DEBUG_INFO.
  unfoldable pub debug_get_ptr_ : Acc → World → Outcome ℕ
  unfolding get_ptr_
  debug_get_ptr_ a w = elim (find hndl (w.containers a.container).devices) [
    | none ↦ throws out_of_range
    | some d ↦ get_ptr_ b hndl a w
  ]

  take_lock_devices :
      (c : ℕ) (m : Mode) (st st' : State)
      → take_lock b hndl false c m st ≡ done st'
      → (d : ℕ) → (st'.world.containers d).devices ≡ (st.world.containers d).devices
  unfolding take_lock lock_read lock_write
  take_lock_devices c m st st' e d = ground arith

  locate_host :
      (a : Acc) (m : Mode) (w : World) → b.is_host ≡ true → locate b hndl a m w ≡ done (false, a, w)
  unfolding locate
  locate_host a m w host = rw host refl

  locate-container :
      (a a' : Acc) (m : Mode) (w w' : World) (k : Bool)
      → locate b hndl a m w ≡ done (k, a', w')
      → a'.container ≡ a.container
  unfolding locate
  locate-container a a' m w w' k e = ground arith

  -- After a request on the host the map is as it was.
  host_map :
      (a a' : Acc) (m : Mode) (st st' : State) (p : ℕ)
      → b.is_host ≡ true
      → alloc_mem_ b hndl a m st ≡ done (p, a', st')
      → (a' ≡ a)
        × (get_raw_ptr (st'.world.containers a.container) ≡ p)
        × ((st'.world.containers a.container).devices ≡ (st.world.containers a.container).devices)
  host_map a a' m st st' p host called =
      let (k, w, located, taken, returned) = alloc_mem_inv b hndl a a' m st st' p called in
      let known = done-injective (sym (locate_host a m st.world host) ∙ located) in
      (
        sym (ap (λ r. r.1) known),
        rw host at returned,
        take_lock_devices a.container m st st'
            (ap₂ (λ j v. take_lock b hndl j a.container m (record { world = v; acc = st.acc }))
                (ap (λ r. r.0) known) (ap (λ r. r.2) known)
              ∙ taken)
            a.container,
      )

  -- A request for a buffer that has no device copy, and then `get_ptr_`.
  pub debug_get_ptr_-get_ptr_ :
      (a a' : Acc) (m : Mode) (st st' : State) (p : ℕ)
      → alloc_mem_ b hndl a m st ≡ done (p, a', st')
      → a.device_ptr ≡ 0
      → find hndl (st.world.containers a.container).devices ≡ none
      → 0 < p
      → ((b.is_host ≡ true)
          × (debug_get_ptr_ a' st'.world ≡ throws out_of_range)
          × (get_ptr_ b hndl a' st'.world ≡ done p))
        ⊎ ((b.is_host ≡ false)
            × (debug_get_ptr_ a' st'.world ≡ done p)
            × (get_ptr_ b hndl a' st'.world ≡ done p))
  unfolding debug_get_ptr_
  debug_get_ptr_-get_ptr_ a a' m st st' p called fresh absent pos = elim (Bool-cases b.is_host) [
    | inl host ↦
        let (same, raw, devices) = host_map a a' m st st' p host called in
        let nothing : find hndl (st'.world.containers a'.container).devices ≡ none =
          ap (λ (x : Acc). find hndl (st'.world.containers x.container).devices) same
          ∙ ap (find hndl) devices
          ∙ absent in
        let null : (a'.device_ptr == 0) ≡ true = rw same (ground arith) in
        inl (
          host,
          rw (nothing, debug_get_ptr_) refl,
          rw (null, host, ← raw)
              (ap (λ (x : Acc). done (get_raw_ptr (st'.world.containers x.container))) same),
        )
    | inr device ↦
        let (same, mapped, found) = alloc_mem_ptr b hndl a a' m st st' p device called in
        let (k, w, located, _, _) = alloc_mem_inv b hndl a a' m st st' p called in
        let there =
          ap (λ c. ptr_of hndl (st'.world.containers c).devices)
            (locate-container a a' m st.world w k located)
          ∙ mapped in
        inr (device, ground arith, found pos)
  ]

-- ===== src/Handler/Mapping.antt =====
-- Device copies and locks of single requests: what `alloc_mem_` guarantees of the pointer, and when
-- it locks.
use neo_sycl.Prelude.{
  length-set, ℕ, zero, suc, ◌<◌, ◌≡◌, refl, ap, ap₂, ◌∙◌, sym, Bool, true, false, not, ◌&&◌, Option,
  none, some, List, [], ◌∷◌, ◌++◌, length, get_elem?, set, arith, ◌==◌, ==_iff, if◌then◌else◌,
  Bool-cases, ◌⊎◌, inl, inr,
}
use neo_sycl.Outcome.{done, >>=-eq-done, done-injective}
use neo_sycl.Access.{Mode, is_read}
use neo_sycl.Backend.{Backend}
use neo_sycl.Buffer.{DeviceMap, DevicePtr, find, insert, set_mode, get_raw_ptr}
use neo_sycl.Handler.Locks.{locate_mutex}
use neo_sycl.Handler.{World, AccessorData, Acc, State, search_acc, locate, take_lock, alloc_mem_}

pub find-insert :
    (p : ℕ) (d : DevicePtr) (m : DeviceMap) → find p m ≡ none → find p (insert p d m) ≡ some d
find-insert p d [] h = ground arith
find-insert p d ((q, e) ∷ m) h = ground (arith, find-insert p d m)

pub search_acc-cases :
    (c : ℕ) (acc : List AccessorData)
    → ((get_elem? acc (search_acc c acc) ≡ none) × (search_acc c acc ≡ length acc))
      ⊎ ((e : AccessorData) × (get_elem? acc (search_acc c acc) ≡ some e)
          × (e.container ≡ c)
          × (search_acc c acc < length acc))
search_acc-cases c [] = inl (refl, refl)
search_acc-cases c (x ∷ xs) = elim (Bool-cases (x.container == c)) [
  | inl here ↦ rw here (inr (x, refl, (==_iff x.container c).0 here, omega arith))
  | inr there ↦ rw there (elim (search_acc-cases c xs) [
    | inl (absent, last) ↦ inl (absent, ap suc last)
    | inr (e, at_i, same, below) ↦ inr (e, at_i, same, omega arith)
  ])
]

get_elem?-append :
    {A : Type 0} (xs : List A) (x : A) → get_elem? (xs ++ x ∷ []) (length xs) ≡ some x
get_elem?-append [] x = refl
get_elem?-append (y ∷ xs) x = get_elem?-append xs x

get_elem?-set_self :
    {A : Type 0} (xs : List A) (i : ℕ) (v : A) → i < length xs → get_elem? (set xs i v) i ≡ some v
get_elem?-set_self [] i v h = absurd (omega arith)
get_elem?-set_self (x ∷ xs) zero v h = refl
get_elem?-set_self (x ∷ xs) (suc i) v h = get_elem?-set_self xs i v (omega arith)

-- The device pointer of a map, whatever its mode.
abbrev pub ptr_of : ℕ → DeviceMap → Option ℕ
ptr_of p m = elim (find p m) [ none ↦ none | some d ↦ some d.ptr ]

pub ptr_of-set_mode :
    (p q : ℕ) (m : Mode) (ds : DeviceMap) → ptr_of p (set_mode q m ds) ≡ ptr_of p ds
ptr_of-set_mode p q m [] = refl
ptr_of-set_mode p q m ((r, e) ∷ ds) = ground (arith, ptr_of-set_mode p q m ds)

module _ (b : Backend) (hndl : ℕ) where
  locate_fresh :
      (a a' : Acc) (m : Mode) (w w' : World) (counted : Bool)
      → (b.is_host ≡ true) ⊎ (find hndl (w.containers a.container).devices ≡ none)
      → locate b hndl a m w ≡ done (counted, a', w')
      → counted ≡ false
  unfolding locate
  locate_fresh a a' m w w' counted h e = ground arith

  -- A completed request, by its halves.
  pub alloc_mem_inv :
      (a a' : Acc) (m : Mode) (st st' : State) (p : ℕ)
      → alloc_mem_ b hndl a m st ≡ done (p, a', st')
      → (counted : Bool) × (w : World) × (locate b hndl a m st.world ≡ done (counted, a', w))
        × (take_lock b hndl counted a.container m (record { world = w; acc = st.acc }) ≡ done st')
        × ((if b.is_host then get_raw_ptr (st'.world.containers a.container) else a'.device_ptr)
            ≡ p)
  unfolding alloc_mem_
  alloc_mem_inv a a' m st st' p called =
      let ((counted, a₁, w), located, next) = >>=-eq-done (locate b hndl a m st.world) _ called in
      let (t, taken, made) =
        >>=-eq-done (take_lock b hndl counted a.container m (record st { world = w })) _ next in
      let same = done-injective made in
      let same_acc : a₁ ≡ a' = ap (λ r. r.1) same in
      let same_state : t ≡ st' = ap (λ r. r.2) same in
      (
        counted,
        w,
        located ∙ ap (λ x. done (counted, x, w)) same_acc,
        taken ∙ ap done same_state,
        ap₂
              (λ (s : State) (x : Acc).
                if b.is_host then get_raw_ptr (s.world.containers a.container) else x.device_ptr)
              (sym same_state) (sym same_acc)
            ∙ ap (λ r. r.0) same,
      )

  take_lock_fresh :
      (c : ℕ) (m : Mode) (w : World) (e : AccessorData) (es : List AccessorData)
      → take_lock b hndl false c m (record { world = w; acc = e ∷ es })
        ≡ done (record { world = w; acc = e ∷ es })
  unfolding take_lock
  take_lock_fresh c m w e es = ground arith

  -- On the host, or where the buffer has no device copy yet: a request by a handler that has an
  -- entry in `acc_` already leaves `acc_` and every lock as they are.
  pub fresh_buffer_unlocked :
      (a a' : Acc) (m : Mode) (w : World) (e : AccessorData) (es : List AccessorData) (p : ℕ)
      (st' : State)
      → (b.is_host ≡ true) ⊎ (find hndl (w.containers a.container).devices ≡ none)
      → alloc_mem_ b hndl a m (record { world = w; acc = e ∷ es }) ≡ done (p, a', st')
      → (st'.acc ≡ e ∷ es) × ((c : ℕ) → (st'.world.containers c).mutex ≡ (w.containers c).mutex)
  fresh_buffer_unlocked a a' m w e es p st' h called =
      let (counted, w', located, taken, _) = alloc_mem_inv a a' m _ st' p called in
      let fresh = locate_fresh a a' m w w' counted h located in
      let same = done-injective (
        sym (take_lock_fresh a.container m w' e es)
        ∙ ap (λ k. take_lock b hndl k a.container m (record { world = w'; acc = e ∷ es }))
            (sym fresh)
        ∙ taken) in
      (
        ap (λ s. s.acc) (sym same),
        λ c.
            ap (λ s. (s.world.containers c).mutex) (sym same)
            ∙ locate_mutex b hndl a a' m w w' counted located c,
      )

  pub locate_mapped :
      (a : Acc) (m : Mode) (w : World) (d : DevicePtr)
      → b.is_host ≡ false
      → find hndl (w.containers a.container).devices ≡ some d
      → locate b hndl a m w ≡ done (true, record a { device_ptr = d.ptr }, w)
  unfolding locate
  locate_mapped a m w d device mapped = ground arith

  -- An entry of `acc_` for `c` that does for mode `m`.
  abbrev pub Covers : ℕ → Mode → List AccessorData → Type 0
  Covers c m acc =
      (i : ℕ) × (x : AccessorData) × (get_elem? acc i ≡ some x)
      × (x.container ≡ c)
      × (is_read x.mode ≡ true → is_read m ≡ true)

  take_lock-Covers :
      (c : ℕ) (m : Mode) (st st' : State)
      → take_lock b hndl true c m st ≡ done st'
      → Covers c m st'.acc
  unfolding take_lock
  take_lock-Covers c m st st' e =
      let i : ℕ = search_acc c st.acc in
      elim (search_acc-cases c st.acc) [
        | inl (absent, last) ↦
            let pushed : st'.acc ≡ st.acc ++ record { container = c; mode = m } ∷ [] =
              ground arith in
            (
              length st.acc,
              record { container = c; mode = m },
              rw pushed (get_elem?-append st.acc _),
              refl,
              λ h. h,
            )
        | inr (x, at_i, same, below) ↦ elim (Bool-cases (is_read x.mode && not (is_read m))) [
          | inl exchanges ↦
              let changed : st'.acc ≡ set st.acc i (record x { mode = m }) =
                ground (arith, length-set st.acc i (record x { mode = m })) in
              (
                i,
                record x { mode = m },
                rw changed (get_elem?-set_self st.acc i _ below),
                same,
                λ h. h,
              )
          | inr stays ↦
              let unchanged : st'.acc ≡ st.acc = ground arith in
              (i, x, rw unchanged at_i, same, λ h. ground arith)
        ]
      ]

  -- Off the host: a request for a buffer that has its device copy leaves in `acc_` an entry for
  -- the buffer's container, and one that is no `read` entry if the request's mode is not
  -- `read`.
  pub mapped_buffer_locked :
      (a a' : Acc) (m : Mode) (st st' : State) (d : DevicePtr) (p : ℕ)
      → b.is_host ≡ false
      → find hndl (st.world.containers a.container).devices ≡ some d
      → alloc_mem_ b hndl a m st ≡ done (p, a', st')
      → Covers a.container m st'.acc
  mapped_buffer_locked a a' m st st' d p device mapped called =
      let (counted, w, located, taken, _) = alloc_mem_inv a a' m st st' p called in
      let known = done-injective (sym (locate_mapped a m st.world d device mapped) ∙ located) in
      take_lock-Covers a.container m st st' (
        ap₂ (λ k v. take_lock b hndl k a.container m (record { world = v; acc = st.acc }))
          (ap (λ r. r.0) known) (ap (λ r. r.2) known)
        ∙ taken)

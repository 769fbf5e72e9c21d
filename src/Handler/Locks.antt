-- ===== src/Handler/Locks.antt =====
-- The locks that a handler holds, against its `acc_`.
use neo_sycl.Prelude.{
  ℕ, zero, suc, ◌+◌, ◌≤◌, ◌≡◌, refl, ap, Bool, true, false, not, ◌&&◌, some, List, [], ◌∷◌, ◌++◌,
  length, get_elem?, set, arith, ◌==◌, if◌then◌else◌, Bool-cases, Option-cases, subst, inl, inr,
  ◌-◌,
}
use neo_sycl.Outcome.{done, >>=-eq-done, done-injective}
use neo_sycl.Access.{Mode, is_read}
use neo_sycl.Mutex.{Mutex, lock_read, unlock_read, lock_write, unlock_write}
use neo_sycl.Backend.{Backend}
use neo_sycl.Buffer.{BufferContainer}
use neo_sycl.Handler.{
  World, AccessorData, Acc, State, with_container, on_mutex, search_acc, lock_for, unlock_for,
  locate, upgrade, take_lock, alloc_mem_, alloc_all, unlock_all,
}

-- What one entry of `acc_` adds to the readers and to the writers of container `c`.
abbrev pub reads : ℕ → AccessorData → ℕ
reads c a = if a.container == c && is_read a.mode then 1 else 0

abbrev pub writes : ℕ → AccessorData → ℕ
writes c a = if a.container == c && not (is_read a.mode) then 1 else 0

abbrev pub total : {A : Type 0} → (A → ℕ) → List A → ℕ
total f [] = 0
total f (a ∷ as') = f a + total f as'

pub total-append :
    {A : Type 0} (f : A → ℕ) (xs ys : List A) → total f (xs ++ ys) ≡ total f xs + total f ys
total-append f [] ys = omega arith
total-append f (x ∷ xs) ys = omega (arith, total-append f xs ys)

pub total-set :
    {A : Type 0} (f : A → ℕ) (xs : List A) (i : ℕ) (a e : A)
    → get_elem? xs i ≡ some a
    → total f (set xs i e) + f a ≡ total f xs + f e
total-set f [] i a e h = cc
total-set f (x ∷ xs) zero a e h = ground arith
total-set f (x ∷ xs) (suc i) a e h = omega (arith, total-set f xs i a e h)

-- Every mutex is what it was in `before`, plus the locks of `acc`.
abbrev pub Holds : (ℕ → Mutex) → State → Type 0
Holds before st =
    (c : ℕ)
    → ((st.world.containers c).mutex.readers ≡ (before c).readers + total (reads c) st.acc)
      × ((st.world.containers c).mutex.writers ≡ (before c).writers + total (writes c) st.acc)

abbrev pub entry : ℕ → Mode → AccessorData
entry c m = record { container = c; mode = m }

module _ (m : Mode) (c : ℕ) (w w' : World) where
  pub lock_effect :
      on_mutex (lock_for m) c w ≡ done w'
      → (d : ℕ)
      → ((w'.containers d).mutex.readers ≡ (w.containers d).mutex.readers + reads d (entry c m))
        × ((w'.containers d).mutex.writers ≡ (w.containers d).mutex.writers + writes d (entry c m))
  unfolding lock_read lock_write
  lock_effect e d = ground arith

  pub unlock_effect :
      on_mutex (unlock_for m) c w ≡ done w'
      → (d : ℕ)
      → ((w'.containers d).mutex.readers + reads d (entry c m) ≡ (w.containers d).mutex.readers)
        × ((w'.containers d).mutex.writers + writes d (entry c m) ≡ (w.containers d).mutex.writers)
  unfolding unlock_read unlock_write
  unlock_effect e d = ground arith

-- An unlock that something is there for succeeds.
unlock_total :
    (m : Mode) (c : ℕ) (w : World)
    → reads c (entry c m) ≤ (w.containers c).mutex.readers
    → writes c (entry c m) ≤ (w.containers c).mutex.writers
    → (w' : World) × (on_mutex (unlock_for m) c w ≡ done w')
unfolding unlock_read unlock_write
unlock_total m c w p q = elim (Bool-cases (is_read m)) [
  | inl e ↦ (put (record mu { readers = mu.readers - 1 }), ground arith)
  | inr e ↦ (put (record mu { writers = mu.writers - 1 }), ground arith)
]
  where
    mu : Mutex
    mu = (w.containers c).mutex

    put : Mutex → World
    put x = with_container c (record (w.containers c) { mutex = x }) w

-- The destructor succeeds, and leaves every mutex as it was in `before`.
pub unlock_all-Holds :
    (before : ℕ → Mutex) (acc : List AccessorData) (w : World)
    → Holds before (record { world = w; acc = acc })
    → (w' : World) × (unlock_all acc w ≡ done w') × ((c : ℕ) → (w'.containers c).mutex ≡ before c)
unfolding unlock_all
unlock_all-Holds before [] w h = (w, refl, λ c. ground (arith, h c))
unlock_all-Holds before (a ∷ rest) w h =
    let (w', e) =
      unlock_total a.mode a.container w (ground (arith, h a.container))
        (ground (arith, h a.container)) in
    let (w'', e', same) =
      unlock_all-Holds before rest w'
        (λ c. omega (arith, h c, unlock_effect a.mode a.container w w' e c)) in
    (w'', rw e e', same)

-- The device copy of a buffer does not touch its lock.
pub locate_mutex :
    (b : Backend) (hndl : ℕ) (a a' : Acc) (m : Mode) (w w' : World) (counted : Bool)
    → locate b hndl a m w ≡ done (counted, a', w')
    → (c : ℕ) → (w'.containers c).mutex ≡ (w.containers c).mutex
unfolding locate
locate_mutex b hndl a a' m w w' counted e c = ground arith

module _ (b : Backend) (hndl : ℕ) (before : ℕ → Mutex) where
  -- Exchanging the read lock of entry `i` for a write lock.
  exchange-Holds :
      (c i : ℕ) (m : Mode) (st : State) (e : AccessorData) (w w' : World)
      → Holds before st
      → get_elem? st.acc i ≡ some e
      → is_read e.mode ≡ true
      → is_read m ≡ false
      → on_mutex unlock_read e.container st.world ≡ done w
      → on_mutex lock_write e.container w ≡ done w'
      → (bc : BufferContainer) → bc.mutex ≡ (w'.containers c).mutex
      → Holds before
          (record { world = with_container c bc w'; acc = set st.acc i (record e { mode = m }) })
  exchange-Holds c i m st e w w' h at_i er mr u l bc same d = ground (
    arith,
    h d,
    unlock_effect Mode.read e.container st.world w u d,
    lock_effect Mode.write e.container w w' l d,
    total-set (reads d) st.acc i e (record e { mode = m }) at_i,
    total-set (writes d) st.acc i e (record e { mode = m }) at_i,
  )

  upgrade-Holds :
      (c i : ℕ) (m : Mode) (st st' : State)
      → Holds before st
      → upgrade b hndl c i m st ≡ done st'
      → Holds before st'
  unfolding upgrade
  upgrade-Holds c i m st st' h e = elim (Option-cases (get_elem? st.acc i)) [
    | inl q ↦ let same : st ≡ st' = ground arith in subst (Holds before) same h
    | inr (x, q) ↦ elim (Bool-cases (is_read x.mode && not (is_read m))) [
      | inl exchanges ↦
          let e' = rw (q, upgrade, exchanges) at e in
          let (w, u, e'') = >>=-eq-done (on_mutex unlock_read x.container st.world) _ e' in
          let (w', l, made) = >>=-eq-done (on_mutex lock_write x.container w) _ e'' in
          subst (Holds before) (done-injective made)
            (exchange-Holds c i m st x w w' h q (ground arith) (ground arith) u l _ refl)
      | inr stays ↦ let same : st ≡ st' = ground arith in subst (Holds before) same h
    ]
  ]

  take_lock-Holds :
      (counted : Bool) (c : ℕ) (m : Mode) (st st' : State)
      → Holds before st
      → take_lock b hndl counted c m st ≡ done st'
      → Holds before st'
  unfolding take_lock
  take_lock-Holds counted c m st st' h e =
      let (t, first, e') =
        >>=-eq-done
          (if counted
            then upgrade b hndl c (if counted then search_acc c st.acc else 0) m st
            else done st)
          _ e in
      let t_Holds : Holds before t = kept counted _ first in
      elim (Bool-cases ((if counted then search_acc c st.acc else 0) == length t.acc)) [
        | inl new ↦
            let (w, l, made) = >>=-eq-done (on_mutex (lock_for m) c t.world) _ (rw new at e') in
            subst (Holds before) (done-injective made) λ d. omega (
              arith,
              t_Holds d,
              lock_effect m c t.world w l d,
              total-append (reads d) t.acc (entry c m ∷ []),
              total-append (writes d) t.acc (entry c m ∷ []),
            )
        | inr old ↦ subst (Holds before) (done-injective (rw old at e')) t_Holds
      ]
    where
      kept :
          (k : Bool) (i : ℕ) {t : State}
          → (if k then upgrade b hndl c i m st else done st) ≡ done t
          → Holds before t
      kept true i {t} q = upgrade-Holds c i m st t h q
      kept false i q = subst (Holds before) (done-injective q) h

  pub alloc_mem_-Holds :
      (a a' : Acc) (m : Mode) (st st' : State) (p : ℕ)
      → Holds before st
      → alloc_mem_ b hndl a m st ≡ done (p, a', st')
      → Holds before st'
  unfolding alloc_mem_
  alloc_mem_-Holds a a' m st st' p h e =
      let ((counted, a₁, w), located, e') = >>=-eq-done (locate b hndl a m st.world) _ e in
      let (t, taken, made) =
        >>=-eq-done (take_lock b hndl counted a.container m (record st { world = w })) _ e' in
      subst (Holds before) (ap (λ r. r.2) (done-injective made)) (
        take_lock-Holds counted a.container m (record st { world = w }) t
          (λ c. omega (
            arith,
            h c,
            ap (λ x. x.readers) (locate_mutex b hndl a a₁ m st.world w counted located c),
            ap (λ x. x.writers) (locate_mutex b hndl a a₁ m st.world w counted located c),
          ))
          taken)

  alloc_all-Holds :
      (rs : List (ℕ × Mode)) (st st' : State)
      → Holds before st
      → alloc_all b hndl rs st ≡ done st'
      → Holds before st'
  unfolding alloc_all
  alloc_all-Holds [] st st' h e = subst (Holds before) (done-injective e) h
  alloc_all-Holds ((c, m) ∷ rs) st st' h e =
      let ((p, a, t), allocated, e') =
        >>=-eq-done (alloc_mem_ b hndl (record { container = c; device_ptr = 0 }) m st) _ e in
      alloc_all-Holds rs t st' (alloc_mem_-Holds _ a m st t p h allocated) e'

-- Whatever accessors a command group has asked for, in whatever modes and on whatever device:
-- once all are granted, the destructor of its handler succeeds, and leaves the lock of every
-- container as it was before the command group.
pub unlock_all-alloc_all :
    (b : Backend) (hndl : ℕ) (rs : List (ℕ × Mode)) (w : World) (st : State)
    → alloc_all b hndl rs (record { world = w; acc = [] }) ≡ done st
    → (w' : World) × (unlock_all st.acc st.world ≡ done w')
      × ((c : ℕ) → (w'.containers c).mutex ≡ (w.containers c).mutex)
unlock_all-alloc_all b hndl rs w st e =
    unlock_all-Holds before st.acc st.world
      (alloc_all-Holds b hndl before rs (record { world = w; acc = [] }) st (λ c. omega arith) e)
  where
    before : ℕ → Mutex
    before c = (w.containers c).mutex

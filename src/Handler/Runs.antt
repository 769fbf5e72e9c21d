-- ===== src/Handler/Runs.antt =====
-- `alloc_mem_` and the destructor of handler.hpp as runs of a handler's steps.
use neo_sycl.Prelude.{
  ℕ, zero, suc, ◌≡◌, refl, ap, Bool, true, false, not, ◌&&◌, some, List, [], ◌∷◌, ◌++◌, map, length,
  get_elem?, set, arith, ◌==◌, if◌then◌else◌, Bool-cases, Option-cases, subst, inl, inr,
  get_elem?-append_last,
}
use neo_sycl.Outcome.{done, >>=-eq-done, done-injective}
use neo_sycl.Access.{Mode, is_read}
use neo_sycl.Mutex.{unlock_read, lock_write}
use neo_sycl.Backend.{Backend}
use neo_sycl.Buffer.{BufferContainer}
use neo_sycl.Handler.{
  World, AccessorData, Acc, State, with_container, on_mutex, search_acc, lock_for, unlock_for,
  upgrade, take_lock, alloc_mem_, alloc_all, unlock_all,
}
use neo_sycl.Handler.Locks.{entry, locate_mutex, unlock_all-alloc_all}
use neo_sycl.Handler.Mapping.{alloc_mem_inv}
use neo_sycl.Handler.Moves.{
  Slot, granted, waiting, pushes, locks, releases, unlocks, works, Moves, stays, more,
}

-- The destructor of a handler all of whose entries are granted is a run of these steps.
unlock_all-Moves :
    (acc : List AccessorData) (v w w' : World) (xs : List Slot)
    → Moves v xs w (map granted acc)
    → unlock_all acc w ≡ done w'
    → Moves v xs w' []
unfolding unlock_all
unlock_all-Moves [] v w w' xs before e = subst (λ u. Moves v xs u []) (done-injective e) before
unlock_all-Moves (a ∷ rest) v w w' xs before e =
    let (u, unlocked, e') =
      >>=-eq-done (on_mutex (unlock_for a.mode) a.container w) (λ u. unlock_all rest u) e in
    unlock_all-Moves rest v u w' xs (more before (unlocks a unlocked)) e'

module _ {A : Type 0} where
  set-set : (xs : List A) (i : ℕ) (a b : A) → set (set xs i a) i b ≡ set xs i b
  set-set [] i a b = refl
  set-set (x ∷ xs) zero a b = refl
  set-set (x ∷ xs) (suc i) a b = ap (λ ys. x ∷ ys) (set-set xs i a b)

  get_elem?-set :
      (xs : List A) (i : ℕ) (a b : A) → get_elem? xs i ≡ some a → get_elem? (set xs i b) i ≡ some b
  get_elem?-set [] i a b e = cc
  get_elem?-set (x ∷ xs) zero a b e = refl
  get_elem?-set (x ∷ xs) (suc i) a b e = get_elem?-set xs i a b e

  set-append_last : (xs : List A) (a b : A) → set (xs ++ a ∷ []) (length xs) b ≡ xs ++ b ∷ []
  set-append_last [] a b = refl
  set-append_last (x ∷ xs) a b = ap (λ ys. x ∷ ys) (set-append_last xs a b)

get_elem?-granted :
    (acc : List AccessorData) (i : ℕ) (e : AccessorData)
    → get_elem? acc i ≡ some e
    → get_elem? (map granted acc) i ≡ some (granted e)
get_elem?-granted [] i e q = cc
get_elem?-granted (a ∷ acc) zero e q = cc
get_elem?-granted (a ∷ acc) (suc i) e q = get_elem?-granted acc i e q

set-granted :
    (acc : List AccessorData) (i : ℕ) (e : AccessorData)
    → set (map granted acc) i (granted e) ≡ map granted (set acc i e)
set-granted [] i e = refl
set-granted (a ∷ acc) zero e = refl
set-granted (a ∷ acc) (suc i) e = ap (λ ys. granted a ∷ ys) (set-granted acc i e)

append-granted :
    (acc : List AccessorData) (e : AccessorData)
    → map granted acc ++ granted e ∷ [] ≡ map granted (acc ++ e ∷ [])
append-granted [] e = refl
append-granted (a ∷ acc) e = ap (λ ys. granted a ∷ ys) (append-granted acc e)

-- The state of a handler all of whose entries are granted, after steps from where it began.
abbrev pub Came : World → List Slot → State → Type 0
Came w xs st = Moves w xs st.world (map granted st.acc)

module _ (w₀ : World) (xs₀ : List Slot) where
  push_lock :
      (c : ℕ) (m : Mode) (st : State) (w : World)
      → Came w₀ xs₀ st
      → on_mutex (lock_for m) c st.world ≡ done w
      → Came w₀ xs₀ (record { world = w; acc = st.acc ++ entry c m ∷ [] })
  push_lock c m st w before locked =
      let xs = map granted st.acc in
      subst (Moves w₀ xs₀ w) (append-granted st.acc (entry c m)) (
        subst (Moves w₀ xs₀ w) (set-append_last xs _ (granted (entry c m))) (
          more (more before (pushes c m))
            (locks (length xs) (entry c m) m (get_elem?-append_last xs _) locked)))

  exchange :
      (i : ℕ) (m : Mode) (st : State) (e : AccessorData) (w w' : World)
      → Came w₀ xs₀ st
      → get_elem? st.acc i ≡ some e
      → is_read e.mode ≡ true
      → is_read m ≡ false
      → on_mutex unlock_read e.container st.world ≡ done w
      → on_mutex (lock_for m) e.container w ≡ done w'
      → Came w₀ xs₀ (record { world = w'; acc = set st.acc i (record e { mode = m }) })
  exchange i m st e w w' before at_i er mr unlocked locked =
      let xs = map granted st.acc in
      let at_i' = get_elem?-granted st.acc i e at_i in
      subst (Moves w₀ xs₀ w') (set-granted st.acc i (record e { mode = m })) (
        subst (Moves w₀ xs₀ w') (set-set xs i (waiting e m) (granted (record e { mode = m }))) (
          more (more before (releases i e m at_i' er mr unlocked))
            (locks i e m (get_elem?-set xs i _ _ at_i') locked)))

module _ (b : Backend) (hndl : ℕ) (w₀ : World) (xs₀ : List Slot) where
  unlocked_work :
      (c : ℕ) (st : State) (bc : BufferContainer)
      → Came w₀ xs₀ st
      → bc.mutex ≡ (st.world.containers c).mutex
      → Came w₀ xs₀ (record st { world = with_container c bc st.world })
  unlocked_work c st bc before same = more before (works λ d. ground (arith, same))

  upgrade-Came :
      (c i : ℕ) (m : Mode) (st st' : State)
      → Came w₀ xs₀ st
      → upgrade b hndl c i m st ≡ done st'
      → Came w₀ xs₀ st'
  unfolding upgrade
  upgrade-Came c i m st st' before e = elim (Option-cases (get_elem? st.acc i)) [
    | inl q ↦ subst (Came w₀ xs₀) (done-injective (rw (q, upgrade) at e)) before
    | inr (a, q) ↦ elim (Bool-cases (is_read a.mode && not (is_read m))) [
      | inl exchanges ↦
          let e' = rw (q, upgrade, exchanges) at e in
          let (w, u, e1) = >>=-eq-done (on_mutex unlock_read a.container st.world) _ e' in
          let (w', l, made) = >>=-eq-done (on_mutex lock_write a.container w) _ e1 in
          let mr : is_read m ≡ false = ground arith in
          subst (Came w₀ xs₀) (done-injective made) (
            unlocked_work c _ _
              (exchange w₀ xs₀ i m st a w w' before q (ground arith) mr u (rw mr l)) refl)
      | inr kept ↦ subst (Came w₀ xs₀) (done-injective (rw (q, upgrade, kept) at e)) before
    ]
  ]

  take_lock-Came :
      (counted : Bool) (c : ℕ) (m : Mode) (st st' : State)
      → Came w₀ xs₀ st
      → take_lock b hndl counted c m st ≡ done st'
      → Came w₀ xs₀ st'
  unfolding take_lock
  take_lock-Came counted c m st st' before e =
      let (t, first, e') =
        >>=-eq-done
          (if counted
            then upgrade b hndl c (if counted then search_acc c st.acc else 0) m st
            else done st)
          _ e in
      let came : Came w₀ xs₀ t = kept counted _ first in
      elim (Bool-cases ((if counted then search_acc c st.acc else 0) == length t.acc)) [
        | inl new ↦
            let (w, l, made) = >>=-eq-done (on_mutex (lock_for m) c t.world) _ (rw new at e') in
            subst (Came w₀ xs₀) (done-injective made) (push_lock w₀ xs₀ c m t w came l)
        | inr old ↦ subst (Came w₀ xs₀) (done-injective (rw old at e')) came
      ]
    where
      kept :
          (k : Bool) (i : ℕ) {t : State}
          → (if k then upgrade b hndl c i m st else done st) ≡ done t
          → Came w₀ xs₀ t
      kept true i {t} q = upgrade-Came c i m st t before q
      kept false i q = subst (Came w₀ xs₀) (done-injective q) before

module _ (b : Backend) (hndl : ℕ) (w₀ : World) (xs₀ : List Slot) where
  alloc_mem_-Came :
      (a a' : Acc) (m : Mode) (st st' : State) (p : ℕ)
      → Came w₀ xs₀ st
      → alloc_mem_ b hndl a m st ≡ done (p, a', st')
      → Came w₀ xs₀ st'
  alloc_mem_-Came a a' m st st' p before called =
      let (counted, w, located, taken, _) = alloc_mem_inv b hndl a a' m st st' p called in
      take_lock-Came b hndl w₀ xs₀ counted a.container m (record { world = w; acc = st.acc }) st'
        (more before (works (locate_mutex b hndl a a' m st.world w counted located))) taken

  alloc_all-Came :
      (rs : List (ℕ × Mode)) (st st' : State)
      → Came w₀ xs₀ st
      → alloc_all b hndl rs st ≡ done st'
      → Came w₀ xs₀ st'
  unfolding alloc_all
  alloc_all-Came [] st st' before e = subst (Came w₀ xs₀) (done-injective e) before
  alloc_all-Came ((c, m) ∷ rs) st st' before e =
      let ((p, a, t), allocated, e') =
        >>=-eq-done (alloc_mem_ b hndl (record { container = c; device_ptr = 0 }) m st) _ e in
      alloc_all-Came rs t st' (alloc_mem_-Came _ a m st t p before allocated) e'

-- Whatever accessors a command group has asked for, in whatever modes and on whatever device:
-- once all are granted, its handler has come from an empty `acc_` to its entries, all granted, by
-- a run of the small steps of a handler, which put an entry into `acc_` before its lock is
-- granted and give the read lock of an entry back before they wait for another; the destructor
-- completes, and the whole, with the destructor's unlocks, is a run of such steps back to an
-- empty `acc_`.
pub alloc_all-Moves :
    (b : Backend) (hndl : ℕ) (rs : List (ℕ × Mode)) (w : World) (st : State)
    → alloc_all b hndl rs (record { world = w; acc = [] }) ≡ done st
    → Moves w [] st.world (map granted st.acc)
      × (w' : World) × (unlock_all st.acc st.world ≡ done w')
      × Moves w [] w' []
alloc_all-Moves b hndl rs w st e =
    let asked = alloc_all-Came b hndl w [] rs (record { world = w; acc = [] }) st stays e in
    let (w', unlocked, _) = unlock_all-alloc_all b hndl rs w st e in
    (asked, w', unlocked, unlock_all-Moves st.acc w st.world w' [] asked unlocked)

-- ===== src/Handler/Moves.antt =====
-- The steps in which a handler of handler.hpp takes, exchanges and gives back its locks: an entry of
-- `acc_` is there before its lock is granted, and an exchange gives the read lock back first.
use neo_sycl.Prelude.{
  ℕ, ◌+◌, ◌≡◌, ap, true, false, some, List, [], ◌∷◌, ◌++◌, get_elem?, set, arith,
}
use neo_sycl.Outcome.{done}
use neo_sycl.Access.{Mode, is_read}
use neo_sycl.Mutex.{unlock_read}
use neo_sycl.Handler.{World, AccessorData, on_mutex, lock_for, unlock_for}
use neo_sycl.Handler.Locks.{
  reads, writes, total, total-append, total-set, entry, lock_effect, unlock_effect,
}

-- An entry of `acc_`: one whose lock the handler has, or one for which it waits, for the mode given.
pub data Slot : Type 0 where
  granted : AccessorData → Slot
  waiting : AccessorData → Mode → Slot

-- What the granted entries add to the readers and to the writers of a container.
abbrev pub granted_reads : ℕ → Slot → ℕ
granted_reads c (granted a) = reads c a
granted_reads c (waiting a m) = 0

abbrev pub granted_writes : ℕ → Slot → ℕ
granted_writes c (granted a) = writes c a
granted_writes c (waiting a m) = 0

-- One step of one handler: it puts an entry into `acc_`; is granted the lock that an entry waits
-- for; gives the read lock of an entry back, to wait for that of another mode; gives the lock of its
-- first entry back in its destructor; does anything else, which leaves the locks alone.
pub data Move (w : World) : List Slot → World → List Slot → Type 0 where
  pushes : {xs : List Slot} (c : ℕ) (m : Mode) → Move w xs w (xs ++ waiting (entry c m) m ∷ [])
  locks :
      {xs : List Slot} {w' : World} (i : ℕ) (e : AccessorData) (m : Mode)
      → get_elem? xs i ≡ some (waiting e m)
      → on_mutex (lock_for m) e.container w ≡ done w'
      → Move w xs w' (set xs i (granted (record e { mode = m })))
  releases :
      {xs : List Slot} {w' : World} (i : ℕ) (e : AccessorData) (m : Mode)
      → get_elem? xs i ≡ some (granted e)
      → is_read e.mode ≡ true
      → is_read m ≡ false
      → on_mutex unlock_read e.container w ≡ done w'
      → Move w xs w' (set xs i (waiting e m))
  unlocks :
      {xs : List Slot} {w' : World} (e : AccessorData)
      → on_mutex (unlock_for e.mode) e.container w ≡ done w'
      → Move w (granted e ∷ xs) w' xs
  works :
      {xs : List Slot} {w' : World}
      → ((c : ℕ) → (w'.containers c).mutex ≡ (w.containers c).mutex)
      → Move w xs w' xs

pub data Moves (w : World) (xs : List Slot) : World → List Slot → Type 0 where
  stays : Moves w xs w xs
  more : {v w' : World} {ys zs : List Slot} → Moves w xs v ys → Move v ys w' zs → Moves w xs w' zs

-- A step changes a lock as it changes what is granted.
pub Move-Balanced :
    {w w' : World} {xs ys : List Slot}
    → Move w xs w' ys
    → (d : ℕ)
    → ((w'.containers d).mutex.readers + total (granted_reads d) xs
        ≡ (w.containers d).mutex.readers + total (granted_reads d) ys)
      × ((w'.containers d).mutex.writers + total (granted_writes d) xs
          ≡ (w.containers d).mutex.writers + total (granted_writes d) ys)
Move-Balanced (pushes {xs} c m) d = omega (
  arith,
  total-append (granted_reads d) xs (waiting (entry c m) m ∷ []),
  total-append (granted_writes d) xs (waiting (entry c m) m ∷ []),
)
Move-Balanced {w} {w'} (locks {xs} i e m at_i locked) d = omega (
  arith,
  lock_effect m e.container w w' locked d,
  total-set (granted_reads d) xs i _ (granted (record e { mode = m })) at_i,
  total-set (granted_writes d) xs i _ (granted (record e { mode = m })) at_i,
)
Move-Balanced {w} {w'} (releases {xs} i e m at_i er mr unlocked) d = ground (
  arith,
  unlock_effect Mode.read e.container w w' unlocked d,
  total-set (granted_reads d) xs i _ (waiting e m) at_i,
  total-set (granted_writes d) xs i _ (waiting e m) at_i,
)
Move-Balanced {w} {w'} (unlocks {xs} e unlocked) d =
    omega (arith, unlock_effect e.mode e.container w w' unlocked d)
Move-Balanced (works same) d =
    omega (arith, ap (λ m. m.readers) (same d), ap (λ m. m.writers) (same d))

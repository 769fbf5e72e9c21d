-- ===== src/Handler/Exclusive.antt =====
-- The reader-writer locks stay exclusive under what a handler of handler.hpp does with them.
use neo_sycl.Prelude.{ℕ, ◌≡◌, ◌⊎◌, List, arith, subst, sym}
use neo_sycl.Outcome.{done}
use neo_sycl.Access.{Mode}
use neo_sycl.Mutex.{Mutex, lock_read, unlock_read, lock_write, unlock_write}
use neo_sycl.Handler.{World, on_mutex, lock_for, unlock_for}
use neo_sycl.Handler.Moves.{Slot, Move, pushes, locks, releases, unlocks, works}

-- One writer and no reader, or no writer.
abbrev pub Exclusive : Mutex → Type 0
Exclusive m = (m.writers ≡ 0) ⊎ ((m.writers ≡ 1) × (m.readers ≡ 0))

abbrev pub AllExclusive : World → Type 0
AllExclusive w = (c : ℕ) → Exclusive (w.containers c).mutex

module _ (m : Mode) (c : ℕ) (w w' : World) where
  lock-Exclusive : on_mutex (lock_for m) c w ≡ done w' → AllExclusive w → AllExclusive w'
  unfolding lock_read lock_write
  lock-Exclusive e h d = ground (arith, h d)

  unlock-Exclusive : on_mutex (unlock_for m) c w ≡ done w' → AllExclusive w → AllExclusive w'
  unfolding unlock_read unlock_write
  unlock-Exclusive e h d = ground (arith, h d)

pub Move-Exclusive :
    {w w' : World} {xs ys : List Slot} → Move w xs w' ys → AllExclusive w → AllExclusive w'
Move-Exclusive (pushes c m) h = h
Move-Exclusive {w} {w'} (locks i e m _ locked) h = lock-Exclusive m e.container w w' locked h
Move-Exclusive {w} {w'} (releases i e m _ _ _ unlocked) h =
    unlock-Exclusive Mode.read e.container w w' unlocked h
Move-Exclusive {w} {w'} (unlocks e unlocked) h = unlock-Exclusive e.mode e.container w w' unlocked h
Move-Exclusive (works same) h = λ d. subst Exclusive (sym (same d)) (h d)

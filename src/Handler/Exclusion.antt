-- ===== src/Handler/Exclusion.antt =====
-- Several handlers of handler.hpp at work on the same containers, one step of one of them at a time.
use neo_sycl.Prelude.{ℕ, ◌+◌, ◌≤◌, ◌≡◌, ◌⊎◌, ap, List, [], ◌∷◌, ◌++◌, arith, inl, ◌∙◌}
use neo_sycl.Mutex.{Mutex}
use neo_sycl.Handler.{World}
use neo_sycl.Handler.Locks.{total}
use neo_sycl.Handler.Moves.{
  Slot, granted_reads, granted_writes, Move, Move-Balanced, Moves, stays, more,
}
use neo_sycl.Handler.Exclusive.{Exclusive, Move-Exclusive}

-- The handlers that are there, each with its `acc_`.
pub record Handlers : Type 0 where
  pub world : World
  pub held : List (List Slot)

-- A handler is made, takes a step, or is gone, when its destructor has given all its locks back.
pub data Act : Handlers → Handlers → Type 0 where
  makes : {s : Handlers} → Act s (record s { held = [] ∷ s.held })
  moves :
      {w w' : World} {xs ys : List Slot} (pre post : List (List Slot))
      → Move w xs w' ys
      → Act
          (record { world = w; held = pre ++ (xs ∷ post) })
          (record { world = w'; held = pre ++ (ys ∷ post) })
  leaves :
      {w : World} (pre post : List (List Slot))
      → Act
          (record { world = w; held = pre ++ ([] ∷ post) })
          (record { world = w; held = pre ++ post })

pub data Acts (s : Handlers) : Handlers → Type 0 where
  here : Acts s s
  later : {t u : Handlers} → Acts s t → Act t u → Acts s u

-- The steps of one handler, while the others wait.
pub Moves-Acts :
    {s : Handlers} {w : World} {xs : List Slot} {w' : World} {ys : List Slot}
    (pre post : List (List Slot))
    → Acts s (record { world = w; held = pre ++ (xs ∷ post) })
    → Moves w xs w' ys
    → Acts s (record { world = w'; held = pre ++ (ys ∷ post) })
Moves-Acts pre post before stays = before
Moves-Acts pre post before (more ms m) = later (Moves-Acts pre post before ms) (moves pre post m)

abbrev pub sum : (Slot → ℕ) → List (List Slot) → ℕ
sum f [] = 0
sum f (xs ∷ hs) = total f xs + sum f hs

sum-append :
    (f : Slot → ℕ) (pre post : List (List Slot)) → sum f (pre ++ post) ≡ sum f pre + sum f post
sum-append f [] post = omega arith
sum-append f (xs ∷ pre) post = omega (arith, sum-append f pre post)

-- Every lock is what the handlers' granted entries add up to, and is exclusive.
abbrev pub IsCounted : Handlers → Type 0
IsCounted s =
    (c : ℕ)
    → ((s.world.containers c).mutex.readers ≡ sum (granted_reads c) s.held)
      × ((s.world.containers c).mutex.writers ≡ sum (granted_writes c) s.held)
      × Exclusive (s.world.containers c).mutex

Act-IsCounted : {s t : Handlers} → Act s t → IsCounted s → IsCounted t
Act-IsCounted makes h c = (omega (arith, (h c).0), omega (arith, (h c).1), (h c).2)
Act-IsCounted (moves {w} {w'} {xs} {ys} pre post move) h c =
    let (readers, writers) = Move-Balanced move c in
    (
      omega (
        arith,
        (h c).0,
        readers,
        sum-append (granted_reads c) pre (xs ∷ post),
        sum-append (granted_reads c) pre (ys ∷ post),
      ),
      omega (
        arith,
        (h c).1,
        writers,
        sum-append (granted_writes c) pre (xs ∷ post),
        sum-append (granted_writes c) pre (ys ∷ post),
      ),
      Move-Exclusive move (λ d. (h d).2) c,
    )
Act-IsCounted (leaves {w} pre post) h c = (
  omega (
    arith,
    (h c).0,
    sum-append (granted_reads c) pre ([] ∷ post),
    sum-append (granted_reads c) pre post,
  ),
  omega (
    arith,
    (h c).1,
    sum-append (granted_writes c) pre ([] ∷ post),
    sum-append (granted_writes c) pre post,
  ),
  (h c).2,
)

Acts-IsCounted : {s t : Handlers} → Acts s t → IsCounted s → IsCounted t
Acts-IsCounted here h = h
Acts-IsCounted (later acts act) h = Act-IsCounted act (Acts-IsCounted acts h)

-- `one` has no granted entry for writing `c`, or one, and `other` has no granted entry for `c` then.
abbrev pub Apart : ℕ → List Slot → List Slot → Type 0
Apart c one other =
    (total (granted_writes c) one ≡ 0)
    ⊎ ((total (granted_writes c) one ≡ 1)
        × (total (granted_reads c) other ≡ 0)
        × (total (granted_writes c) other ≡ 0))

-- Any number of handlers, each made, taking steps, and gone after its destructor, in any order,
-- where a step puts an entry into `acc_`, is granted the lock that an entry waits for, gives the
-- read lock of an entry back to wait for another mode, gives a lock back in the destructor, or
-- leaves the locks alone, from a state in which every lock is free: of two handlers that are
-- there, where one has a granted entry for writing a buffer's container, it has one such entry,
-- and the other has no granted entry for that container.
pub Acts-Apart :
    (w : World) (s : Handlers) (pre mid post : List (List Slot)) (one other : List Slot) (c : ℕ)
    → ((d : ℕ) → (w.containers d).mutex ≡ record { readers = 0; writers = 0 })
    → Acts (record { world = w; held = [] }) s
    → s.held ≡ pre ++ (one ∷ (mid ++ (other ∷ post)))
    → Apart c one other × Apart c other one
Acts-Apart w s pre mid post one other c free acts at =
    let (readers, writers, exclusive) = Acts-IsCounted acts (start w free) c in
    let r =
      ap (sum (granted_reads c)) at
      ∙ sum-append (granted_reads c) pre (one ∷ (mid ++ (other ∷ post))) in
    let v =
      ap (sum (granted_writes c)) at
      ∙ sum-append (granted_writes c) pre (one ∷ (mid ++ (other ∷ post))) in
    (
      split (s.world.containers c).mutex (total (granted_writes c) one)
          (total (granted_reads c) other) (total (granted_writes c) other) exclusive
          (omega (arith, readers, r, sum-append (granted_reads c) mid (other ∷ post)))
          (omega (arith, writers, v, sum-append (granted_writes c) mid (other ∷ post))),
      split (s.world.containers c).mutex (total (granted_writes c) other)
          (total (granted_reads c) one) (total (granted_writes c) one) exclusive
          (omega (arith, readers, r, sum-append (granted_reads c) mid (other ∷ post)))
          (omega (arith, writers, v, sum-append (granted_writes c) mid (other ∷ post))),
    )
  where
    start :
        (w : World)
        → ((d : ℕ) → (w.containers d).mutex ≡ record { readers = 0; writers = 0 })
        → IsCounted (record { world = w; held = [] })
    start w free d = (
      ap (λ (x : Mutex). x.readers) (free d),
      ap (λ (x : Mutex). x.writers) (free d),
      inl (ap (λ (x : Mutex). x.writers) (free d)),
    )

    split :
        (m : Mutex) (x r v : ℕ)
        → Exclusive m
        → r ≤ m.readers
        → x + v ≤ m.writers
        → (x ≡ 0) ⊎ ((x ≡ 1) × (r ≡ 0) × (v ≡ 0))
    split m x r v h le less = ground arith

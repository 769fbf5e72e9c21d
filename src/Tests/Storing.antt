-- ===== src/Tests/Storing.antt =====
-- Containers that are made, moved, copied and destroyed.
use neo_sycl.Prelude.{
  ℕ, ◌≡◌, ◌≢◌, ◌≤◌, ◌<◌, refl, none, some, List, [], ◌∷◌, replicate, arith, ◌==◌, if◌then◌else◌,
  nil, cons,
}
use neo_sycl.Outcome.{done}
use neo_sycl.Memory.{Heap}
use neo_sycl.ArrayNd.{ArrayNd, array_nd_1, get_liner}
use neo_sycl.Container.Storage.{DataContainerD, Store, container_of_range, move, copy, begin}
use neo_sycl.Container.Lifetime.{Live, allocates, moves, Reach, here, later, owners, IsBlock, start}
use neo_sycl.Container.Ownership.{Reach-IsBlock}
use neo_sycl.Container.Copying.{copy-begin}
use neo_sycl.Tests.Handling.{length-replicate}

-- The host's three bytes are block 1.
abbrev host : Heap
host = record { next = 2; block = λ p. if p == 1 then some (5 ∷ 6 ∷ 7 ∷ []) else none }

abbrev three : ArrayNd 1
unfolding array_nd_1
three = array_nd_1 3

abbrev owner : DataContainerD 1
owner = record { range = cons 3 nil; ptr = 2; allocate_ptr = 2 }

abbrev fill_bytes : ℕ → List ℕ
fill_bytes size = replicate size 0

abbrev made : Live 1
made = record {
  store = record {
    heap = record { next = 3; block = λ p. if 2 == p then some (0 ∷ 0 ∷ 0 ∷ []) else host.block p };
    uses = λ p. if 2 == p then 1 else 0;
  };
  objects = owner ∷ [];
}

abbrev shared : Live 1
unfolding move
shared = record {
  store = (move owner made.store).1;
  objects = (move owner made.store).0 ∷ made.objects;
}

-- A container of three bytes is made, and moved from.
moved : Reach fill_bytes 1 (start 1 host) shared
unfolding container_of_range get_liner move three
moved = later (later here (allocates three refl)) (moves 0 refl)

fresh : (p : ℕ) → host.next ≤ p → host.block p ≡ none
fresh p from = ground arith

Reach-IsBlock_example :
    (0 < owners 2 shared.objects → IsBlock 2 shared.store.heap)
    × (owners 2 shared.objects ≡ 0 → shared.store.heap.block 2 ≡ none)
Reach-IsBlock_example =
    Reach-IsBlock fill_bytes 1 host shared (omega arith) fresh moved 2 (omega arith)

abbrev borrowed : DataContainerD 1
borrowed = record { range = cons 3 nil; ptr = 1; allocate_ptr = 0 }

copy-begin_example :
    (c : DataContainerD 1) × (st : Store) × (copy fill_bytes 1 borrowed (start 1 host).store
      ≡ done (c, st))
    × (c.range ≡ borrowed.range)
    × (begin c ≢ begin borrowed)
    × (st.heap.block (begin c) ≡ some (5 ∷ 6 ∷ 7 ∷ []))
    × ((p : ℕ) → p ≢ begin c → st.heap.block p ≡ host.block p)
unfolding get_liner
copy-begin_example =
    copy-begin fill_bytes 1 3 borrowed (start 1 host).store (5 ∷ 6 ∷ 7 ∷ [])
      (λ size. length-replicate size 0) refl (omega arith) refl refl (ground arith)

-- ===== src/ParallelFor.antt =====
-- detail/handler.hpp: `single_task` and the six overloads of `parallel_for` that run a command
-- group on the host. A kernel is a state transformer; `none` is an exception, which ends the loops.
pub mod Box
pub mod Visits
use neo_sycl.Prelude.{ℕ, zero, suc, ◌+◌, ◌-◌, Option, none, some, ◌>>=◌}
use neo_sycl.ArrayNd.{array_nd_1, array_nd_2, array_nd_3}
use neo_sycl.Range
use neo_sycl.Range.{Range}
use neo_sycl.Id
use neo_sycl.Id.{IdNd, id_1, id_2, id_3}
use neo_sycl.Item.{Item, item}

-- `for (size_t x = ...; x < hi; x++)` with `left` rounds to go; below `hi` no round can wrap `x`.
pub for_loop {ℓ} : {S : Type ℓ} → ℕ → ℕ → (ℕ → S → Option S) → S → Option S
for_loop zero x body s = some s
for_loop (suc left) x body s = body x s >>= for_loop left (x + 1) body

module _ {S : Type 0} where
  unfoldable pub single_task : (S → Option S) → S → Option S
  single_task func s = func s

  -- The loop over one dimension, from `offset.get(d)` to `r.get(d)`.
  over : {n : ℕ} → Range n → IdNd n → ℕ → (ℕ → S → Option S) → S → Option S
  over r offset d body s = do lo ← Id.get offset d; hi ← Range.get r d; for_loop (hi - lo) lo body s

  unfoldable pub parallel_for_id_1 : Range 1 → (IdNd 1 → S → Option S) → IdNd 1 → S → Option S
  unfolding over
  parallel_for_id_1 r func offset = over r offset 0 λ x. func (id_1 x)

  unfoldable pub parallel_for_id_2 : Range 2 → (IdNd 2 → S → Option S) → IdNd 2 → S → Option S
  unfolding over
  parallel_for_id_2 r func offset = over r offset 0 λ x. over r offset 1 λ y. func (id_2 x y)

  unfoldable pub parallel_for_id_3 : Range 3 → (IdNd 3 → S → Option S) → IdNd 3 → S → Option S
  unfolding over
  parallel_for_id_3 r func offset =
      over r offset 0 λ x. over r offset 1 λ y. over r offset 2 λ z. func (id_3 x y z)

  unfoldable pub parallel_for_item_1 : Range 1 → (Item 1 → S → Option S) → IdNd 1 → S → Option S
  unfolding over
  parallel_for_item_1 r func offset s = do
    o0 ← Id.get offset 0
    over r offset 0 (λ x. func (item r (array_nd_1 x) (array_nd_1 o0))) s

  unfoldable pub parallel_for_item_2 : Range 2 → (Item 2 → S → Option S) → IdNd 2 → S → Option S
  unfolding over
  parallel_for_item_2 r func offset s = do
    o0 ← Id.get offset 0
    o1 ← Id.get offset 1
    over r offset 0 (λ x. over r offset 1 λ y. func (item r (array_nd_2 x y) (array_nd_2 o0 o1))) s

  unfoldable pub parallel_for_item_3 : Range 3 → (Item 3 → S → Option S) → IdNd 3 → S → Option S
  unfolding over
  parallel_for_item_3 r func offset s = do
    o0 ← Id.get offset 0
    o1 ← Id.get offset 1
    o2 ← Id.get offset 2
    over r offset 0
        (λ x.
          over r offset 1
            λ y. over r offset 2 λ z. func (item r (array_nd_3 x y z) (array_nd_3 o0 o1 o2)))
        s

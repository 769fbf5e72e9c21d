-- ===== src/Kout/Items.antt =====
-- `id2item` of detail/runtime/acc.hpp, which makes the items in the loops of the device code.
use neo_sycl.Prelude.{ℕ, ◌≡◌, refl, Option, some, List, get_elem?, ◌>>=◌}
use neo_sycl.ArrayNd.{array_nd_1, array_nd_2, array_nd_3, at}
use neo_sycl.Range.{Range, range_1, range_2, range_3}
use neo_sycl.Range
use neo_sycl.Item.{Item, item}
use neo_sycl.Handler.Launch.{set_range}

-- `id2item`; `none` where `s` is shorter than it reads.
unfoldable pub id2item_1 : List ℕ → ℕ → Option (Item 1)
unfolding range_1 array_nd_1 item
id2item_1 s i0 = do
  r0 ← get_elem? s 0
  o0 ← get_elem? s 3
  some (item (range_1 r0) (array_nd_1 i0) (array_nd_1 o0))

unfoldable pub id2item_2 : List ℕ → ℕ → ℕ → Option (Item 2)
unfolding range_2 array_nd_2 item
id2item_2 s i0 i1 = do
  r0 ← get_elem? s 0
  r1 ← get_elem? s 1
  o0 ← get_elem? s 3
  o1 ← get_elem? s 4
  some (item (range_2 r0 r1) (array_nd_2 i0 i1) (array_nd_2 o0 o1))

unfoldable pub id2item_3 : List ℕ → ℕ → ℕ → ℕ → Option (Item 3)
unfolding range_3 array_nd_3 item
id2item_3 s i0 i1 i2 = do
  r0 ← get_elem? s 0
  r1 ← get_elem? s 1
  r2 ← get_elem? s 2
  o0 ← get_elem? s 3
  o1 ← get_elem? s 4
  o2 ← get_elem? s 5
  some (item (range_3 r0 r1 r2) (array_nd_3 i0 i1 i2) (array_nd_3 o0 o1 o2))

-- Over the six numbers of a range, `id2item` makes the item of that range at an index, with offset 0.
pub id2item-set_range :
    (stray : ℕ → ℕ) (a b c i j k : ℕ)
    → (id2item_1 (set_range stray (range_1 a)) i
        ≡ some (item (range_1 a) (array_nd_1 i) (array_nd_1 0)))
      × (id2item_2 (set_range stray (range_2 a b)) i j
          ≡ some (item (range_2 a b) (array_nd_2 i j) (array_nd_2 0 0)))
      × (id2item_3 (set_range stray (range_3 a b c)) i j k
          ≡ some (item (range_3 a b c) (array_nd_3 i j k) (array_nd_3 0 0 0)))
unfolding id2item_1 id2item_2 id2item_3 set_range Range.get at
id2item-set_range stray a b c i j k = (refl, refl, refl)

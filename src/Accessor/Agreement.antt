-- ===== src/Accessor/Agreement.antt =====
-- The layout of a kernel's accessor on a device against that of the host accessor and that of the
-- container's `operator[]`.
use neo_sycl.Prelude.{ℕ, ◌+◌, ◌*◌, ◌<◌, ◌≡◌, refl, ap, ap₂, ◌∙◌, sym, some, arith, ◌↔◌}
use neo_sycl.SizeT.{wrap, IsSizeT}
use neo_sycl.ArrayNd.{array_nd_1, array_nd_2, array_nd_3, at}
use neo_sycl.Range
use neo_sycl.Range.{Range, range_1, range_2, range_3}
use neo_sycl.Id
use neo_sycl.Id.{IdNd, id_1, id_2, id_3}
use neo_sycl.Container.{element_2, element_3}
use neo_sycl.Accessor.{id2index, acc_index_1, acc_index_2, acc_index_3, map_range}
use neo_sycl.Accessor.Layout.{id2index_2}

mirror_2 : (y i j : ℕ) → wrap (wrap (i * y) + j) ≡ wrap (j + wrap (y * i))
mirror_2 y i j = omega arith

mirror_3 :
    (y z i j k : ℕ)
    → wrap (wrap (wrap (wrap (i * y) + j) * z) + k) ≡ wrap (k + wrap (z * wrap (j + wrap (y * i))))
mirror_3 y z i j k = rw (mirror_2 y i j) (mirror_2 z _ k)

-- A kernel's accessor, with the numbers that `map_` makes from a range, names at an index the
-- element that the host accessor names over the reversed range at the reversed index, in two and
-- three dimensions; in one dimension the two name the same element.
pub acc_index-id2index :
    (stray x y z i j k : ℕ) (a : IdNd 1) (b : IdNd 2) (c : IdNd 3)
    → (acc_index_1 (map_range (range_1 x) a) (id_1 i) ≡ id2index stray (range_1 x) (id_1 i))
      × (acc_index_2 (map_range (range_2 x y) b) (id_2 i j)
          ≡ id2index stray (range_2 y x) (id_2 j i))
      × (acc_index_3 (map_range (range_3 x y z) c) (id_3 i j k)
          ≡ id2index stray (range_3 z y x) (id_3 k j i))
unfolding acc_index_1 acc_index_2 acc_index_3 map_range id2index Range.get Id.get range_1 range_2
    range_3 id_1 id_2 id_3 array_nd_1 array_nd_2 array_nd_3 at
acc_index-id2index stray x y z i j k a b c =
    (refl, ap some (mirror_2 y i j), ap some (mirror_3 y z i j k))

-- Over a square range of at least two, whose number of elements fits `size_t`, a kernel's
-- accessor and the host accessor name the same element at an index in range exactly on the
-- diagonal.
pub agree_on_diagonal :
    (stray n i j : ℕ) (o : IdNd 2)
    → 1 < n
    → i < n
    → j < n
    → IsSizeT (n * n)
    → (acc_index_2 (map_range (range_2 n n) o) (id_2 i j) ≡ id2index stray (range_2 n n) (id_2 i j))
      ↔ (i ≡ j)
agree_on_diagonal stray n i j o big p q h = (
  λ e.
      let (_, _, unique) = id2index_2 stray n n j i i j h q p p q in
      sym (unique (sym swapped ∙ e)).0,
  λ e. swapped ∙ ap₂ (λ a b. id2index stray (range_2 n n) (id_2 a b)) (sym e) e,
)
  where
    swapped :
        acc_index_2 (map_range (range_2 n n) o) (id_2 i j) ≡ id2index stray (range_2 n n) (id_2 j i)
    swapped = (acc_index-id2index stray n n n i j i (id_1 0) o (id_3 0 0 0)).1

-- `data[i][j]` of a two-dimensional container whose number of elements fits `size_t`, `i` below
-- the second extent and `j` below the first, is the element that the host accessor names at
-- `id(j, i)`.
pub element_2-id2index :
    (stray x y i j : ℕ)
    → IsSizeT (x * y)
    → i < y
    → j < x
    → element_2 (range_2 x y).dims i j ≡ id2index stray (range_2 x y) (id_2 j i)
unfolding element_2 range_2 array_nd_2 at
element_2-id2index stray x y i j h p q =
    let (exact, bound, _) = id2index_2 stray x y j i j i h q p q p in
    ap some (omega arith) ∙ sym exact

-- Over a range with equal first extents, `data[i][j][k]` and `data[j][i][k]` of a
-- three-dimensional container are the same element.
pub element_3_collides :
    (n z i j k : ℕ) → element_3 (range_3 n n z).dims i j k ≡ element_3 (range_3 n n z).dims j i k
unfolding element_3 range_3 array_nd_3 at
element_3_collides n z i j k = ap some (omega arith)

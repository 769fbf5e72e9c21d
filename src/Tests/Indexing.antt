-- ===== src/Tests/Indexing.antt =====
-- Arrays, indices and loops at small inputs.
use neo_sycl.Prelude.{ℕ, suc, ◌≡◌, ◌<◌, Option, some, arith, nil, cons}
use neo_sycl.ArrayNd.{ArrayNd}
use neo_sycl.Range.{Range, range_1, range_2, range_3}
use neo_sycl.Id.{IdNd, id_1, id_2, id_3}
use neo_sycl.Item.{Item, item}
use neo_sycl.Accessor.{id2index, acc_index_1, acc_index_2, acc_index_3, map_range}
use neo_sycl.Accessor.Layout.{id2index_3}
use neo_sycl.Accessor.Agreement.{acc_index-id2index}
use neo_sycl.ParallelFor.{
  parallel_for_id_1, parallel_for_id_2, parallel_for_id_3, parallel_for_item_1, parallel_for_item_2,
  parallel_for_item_3,
}
use neo_sycl.ParallelFor.Box.{run_all, box, parallel_for_id-run_all, parallel_for_item-run_all}

abbrev small : ArrayNd 2
small = cons 3 (cons 4 nil)

abbrev other : ArrayNd 2
other = cons 1 (cons 4 nil)

id2index_3_example :
    (id2index 9 (range_3 3 4 2) (id_3 2 1 1) ≡ some 17)
    × (17 < 24)
    × (id2index 9 (range_3 3 4 2) (id_3 2 1 1) ≡ id2index 9 (range_3 3 4 2) (id_3 0 3 0)
        → (suc 1 ≡ 0) × (suc 0 ≡ 3) × (suc 0 ≡ 0))
id2index_3_example =
    id2index_3 9 3 4 2 2 1 1 0 3 0 (omega arith) (omega arith) (omega arith) (omega arith)
      (omega arith) (omega arith) (omega arith)

acc_index-id2index_example :
    (acc_index_1 (map_range (range_1 5) (id_1 0)) (id_1 2) ≡ id2index 9 (range_1 5) (id_1 2))
    × (acc_index_2 (map_range (range_2 5 6) (id_2 0 0)) (id_2 2 3)
        ≡ id2index 9 (range_2 6 5) (id_2 3 2))
    × (acc_index_3 (map_range (range_3 5 6 7) (id_3 0 0 0)) (id_3 2 3 4)
        ≡ id2index 9 (range_3 7 6 5) (id_3 4 3 2))
acc_index-id2index_example = acc_index-id2index 9 5 6 7 2 3 4 (id_1 0) (id_2 0 0) (id_3 0 0 0)

parallel_for_id-run_all_example :
    ((r : Range 1) (o : IdNd 1) (func : IdNd 1 → ℕ → Option ℕ) (s : ℕ)
      → parallel_for_id_1 r func o s
        ≡ run_all (λ v. func (record { dims = v })) (box o.dims r.dims) s)
    × ((r : Range 2) (o : IdNd 2) (func : IdNd 2 → ℕ → Option ℕ) (s : ℕ)
        → parallel_for_id_2 r func o s
          ≡ run_all (λ v. func (record { dims = v })) (box o.dims r.dims) s)
    × ((r : Range 3) (o : IdNd 3) (func : IdNd 3 → ℕ → Option ℕ) (s : ℕ)
        → parallel_for_id_3 r func o s
          ≡ run_all (λ v. func (record { dims = v })) (box o.dims r.dims) s)
parallel_for_id-run_all_example = parallel_for_id-run_all {S = ℕ}

parallel_for_item-run_all_example :
    ((r : Range 1) (o : IdNd 1) (func : Item 1 → ℕ → Option ℕ) (s : ℕ)
      → parallel_for_item_1 r func o s
        ≡ run_all (λ v. func (item r v o.dims)) (box o.dims r.dims) s)
    × ((r : Range 2) (o : IdNd 2) (func : Item 2 → ℕ → Option ℕ) (s : ℕ)
        → parallel_for_item_2 r func o s
          ≡ run_all (λ v. func (item r v o.dims)) (box o.dims r.dims) s)
    × ((r : Range 3) (o : IdNd 3) (func : Item 3 → ℕ → Option ℕ) (s : ℕ)
        → parallel_for_item_3 r func o s
          ≡ run_all (λ v. func (item r v o.dims)) (box o.dims r.dims) s)
parallel_for_item-run_all_example = parallel_for_item-run_all {S = ℕ}

-- ===== src/Accessor.antt =====
-- accessor.hpp: which element of the container an index names on the host; and
-- detail/runtime/acc.hpp: which one it names in a kernel on a device.
pub mod Layout
pub mod Agreement
use neo_sycl.Prelude.{ℕ, ◌+◌, ◌*◌, Bool, Option, some, none, ◌==◌, if◌then◌else◌, ◌>>=◌, get?}
use mathlib.Core.Option.{get_or}
use neo_sycl.SizeT.{wrap}
use neo_sycl.Range
use neo_sycl.Range.{Range}
use neo_sycl.Id
use neo_sycl.Id.{IdNd}

-- `accessRange.get(d)`. For one dimension `get(1)` lies past the end of the array; `stray` is what
-- is found there.
unfoldable pub read_range : {n : ℕ} → ℕ → Range n → ℕ → ℕ
read_range stray r d = get_or (Range.get r d) stray

-- `accessor::id2index`.
unfoldable pub id2index : {n : ℕ} → ℕ → Range n → IdNd n → Option ℕ
unfolding read_range
id2index {n} stray access_range index =
    let x = read_range stray access_range 0 in
    let y = read_range stray access_range 1 in
    if n == 2
    then (do i ← Id.get index 0; j ← Id.get index 1; some (wrap (i + wrap (x * j))))
    else if n == 3
    then (do
      i ← Id.get index 0
      j ← Id.get index 1
      k ← Id.get index 2
      some (wrap (i + wrap (x * wrap (j + wrap (y * k))))))
    else Id.get index 0

-- `rt::acc_<T>::operator[]`, over the six numbers `r_` that `handler::map_` fills in.
pub record AccRange : Type 0 where
  pub r0 : ℕ
  pub r1 : ℕ
  pub r2 : ℕ
  pub o0 : ℕ
  pub o1 : ℕ
  pub o2 : ℕ

unfoldable pub acc_index_1 : AccRange → IdNd 1 → Option ℕ
acc_index_1 r i = Id.get i 0

unfoldable pub acc_index_2 : AccRange → IdNd 2 → Option ℕ
acc_index_2 r i = do i0 ← Id.get i 0; i1 ← Id.get i 1; some (wrap (wrap (i0 * r.r1) + i1))

unfoldable pub acc_index_3 : AccRange → IdNd 3 → Option ℕ
acc_index_3 r i = do
  i0 ← Id.get i 0
  i1 ← Id.get i 1
  i2 ← Id.get i 2
  some (wrap (wrap (wrap (wrap (i0 * r.r1) + i1) * r.r2) + i2))

-- `handler::map_`: `size_t sz[6] = {1, 1, 1, 0, 0, 0}` with the range and the offset copied over.
unfoldable pub map_range : {n : ℕ} → Range n → IdNd n → AccRange
map_range r o = record {
  r0 = get_or (Range.get r 0) 1;
  r1 = get_or (Range.get r 1) 1;
  r2 = get_or (Range.get r 2) 1;
  o0 = get_or (Id.get o 0) 0;
  o1 = get_or (Id.get o 1) 0;
  o2 = get_or (Id.get o 2) 0;
}

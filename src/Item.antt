-- ===== src/Item.antt =====
-- item.hpp: `item<dimensions, with_offset>`, one work item of a `parallel_for`.
use neo_sycl.Prelude.{ℕ, Bool, ◌&&◌, ◌||◌, Option}
use neo_sycl.ArrayNd
use neo_sycl.ArrayNd.{ArrayNd}
use neo_sycl.Range
use neo_sycl.Range.{Range}
use neo_sycl.Id.{IdNd}

-- `data` of the source is `index` here.
pub record Item (n : ℕ) : Type 0 where
  pub max_range : Range n
  pub index : ArrayNd n
  pub offset : ArrayNd n

unfoldable pub item : {n : ℕ} → Range n → ArrayNd n → ArrayNd n → Item n
item r index offsets = record { max_range = r; index = index; offset = offsets }

-- `get_id(dimension)` and `operator[]`.
unfoldable pub at : {n : ℕ} → Item n → ℕ → Option ℕ
at i dimension = ArrayNd.at i.index dimension

-- `id(const item&)`: `this->data[i] = item[i]`, one dimension after another.
unfoldable pub id_of_item : {n : ℕ} → Item n → IdNd n
id_of_item i = record { dims = ArrayNd.copy_loop i.index }

unfoldable pub get_id : {n : ℕ} → Item n → IdNd n
get_id i = id_of_item i

unfoldable pub get_range : {n : ℕ} → Item n → Range n
get_range i = i.max_range

-- `get_offset` returns `this->get_id()`.
unfoldable pub get_offset : {n : ℕ} → Item n → IdNd n
get_offset i = get_id i

-- `operator item<dimensions, true>`: the index stands for the offset, too.
unfoldable pub with_offset : {n : ℕ} → Item n → Item n
with_offset i = item i.max_range i.index i.index

unfoldable pub eq : {n : ℕ} → Item n → Item n → Bool
eq lhs rhs =
    ArrayNd.eq lhs.index rhs.index
    && Range.eq lhs.max_range rhs.max_range
    && ArrayNd.eq lhs.offset rhs.offset

unfoldable pub ne : {n : ℕ} → Item n → Item n → Bool
ne lhs rhs =
    ArrayNd.ne lhs.index rhs.index
    || Range.ne lhs.max_range rhs.max_range
    || ArrayNd.ne lhs.offset rhs.offset

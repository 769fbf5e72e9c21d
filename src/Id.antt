-- ===== src/Id.antt =====
-- id.hpp: `id<dimensions>`, with the operators that op_def.hpp gives it; nd_range.hpp.
use neo_sycl.Prelude.{ℕ, Bool, Option, some, ◌>>=◌}
use neo_sycl.SizeT.{BinaryOp}
use neo_sycl.Range.{Range}
use neo_sycl.ArrayNd
use neo_sycl.ArrayNd.{ArrayNd}

pub record IdNd (n : ℕ) : Type 0 where
  pub dims : ArrayNd n

unfoldable pub id_1 : ℕ → IdNd 1
id_1 dim0 = record { dims = ArrayNd.array_nd_1 dim0 }

unfoldable pub id_2 : ℕ → ℕ → IdNd 2
id_2 dim0 dim1 = record { dims = ArrayNd.array_nd_2 dim0 dim1 }

unfoldable pub id_3 : ℕ → ℕ → ℕ → IdNd 3
id_3 dim0 dim1 dim2 = record { dims = ArrayNd.array_nd_3 dim0 dim1 dim2 }

-- `get(dimension)` and `operator[]`.
unfoldable pub get : {n : ℕ} → IdNd n → ℕ → Option ℕ
get r dimension = ArrayNd.at r.dims dimension

-- The default constructor: all zero.
unfoldable pub id_default : (n : ℕ) → IdNd n
id_default n = record { dims = ArrayNd.array_nd n }

-- `id(const range&)`: `this->data[i] = range.get(i)`, one dimension after another.
unfoldable pub of_range : {n : ℕ} → Range n → IdNd n
of_range r = record { dims = ArrayNd.copy_loop r.dims }

unfoldable pub eq : {n : ℕ} → IdNd n → IdNd n → Bool
eq lhs rhs = ArrayNd.eq lhs.dims rhs.dims

unfoldable pub ne : {n : ℕ} → IdNd n → IdNd n → Bool
ne lhs rhs = ArrayNd.ne lhs.dims rhs.dims

abbrev wrap_up : {n : ℕ} → Option (ArrayNd n) → Option (IdNd n)
wrap_up o = do a ← o; some (record { dims = a })

-- DEFINE_OP_CONST, DEFINE_OP_CONST_SIZE_T, DEFINE_OP, DEFINE_OP_SIZE_T (the new `lhs`) and
-- DEFINE_OP_CONST_SIZE_T_LEFT.
unfoldable pub op_const : {n : ℕ} → BinaryOp → IdNd n → IdNd n → Option (IdNd n)
op_const op lhs rhs = wrap_up (ArrayNd.op_const op lhs.dims rhs.dims)

unfoldable pub op_const_size_t : {n : ℕ} → BinaryOp → IdNd n → ℕ → Option (IdNd n)
op_const_size_t op lhs rhs = wrap_up (ArrayNd.op_const_size_t op lhs.dims rhs)

unfoldable pub op_assign : {n : ℕ} → BinaryOp → IdNd n → IdNd n → Option (IdNd n)
op_assign op lhs rhs = wrap_up (ArrayNd.op_assign op lhs.dims rhs.dims)

unfoldable pub op_assign_size_t : {n : ℕ} → BinaryOp → IdNd n → ℕ → Option (IdNd n)
op_assign_size_t op lhs rhs = wrap_up (ArrayNd.op_assign_size_t op lhs.dims rhs)

unfoldable pub op_const_size_t_left : {n : ℕ} → BinaryOp → ℕ → IdNd n → Option (IdNd n)
op_const_size_t_left op lhs rhs = wrap_up (ArrayNd.op_const_size_t_left op lhs rhs.dims)

-- nd_range.hpp.
pub record NdRange (n : ℕ) : Type 0 where
  pub global_range : Range n
  pub local_range : Range n
  pub offset : IdNd n

unfoldable pub nd_range : {n : ℕ} → Range n → Range n → NdRange n
unfolding id_default
nd_range {n} global_size local_size = record {
  global_range = global_size;
  local_range = local_size;
  offset = id_default n;
}

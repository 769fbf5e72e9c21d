-- ===== src/Range.antt =====
-- range.hpp: `range<dimensions>`, with the operators that op_def.hpp gives it. (An operator that
-- returns a new range needs a default constructor, which `range` lacks; `id` has one.)
use neo_sycl.Prelude.{ℕ, Bool, Option, some, ◌>>=◌}
use neo_sycl.SizeT.{BinaryOp}
use neo_sycl.ArrayNd
use neo_sycl.ArrayNd.{ArrayNd}

pub record Range (n : ℕ) : Type 0 where
  pub dims : ArrayNd n

unfoldable pub range_1 : ℕ → Range 1
range_1 dim0 = record { dims = ArrayNd.array_nd_1 dim0 }

unfoldable pub range_2 : ℕ → ℕ → Range 2
range_2 dim0 dim1 = record { dims = ArrayNd.array_nd_2 dim0 dim1 }

unfoldable pub range_3 : ℕ → ℕ → ℕ → Range 3
range_3 dim0 dim1 dim2 = record { dims = ArrayNd.array_nd_3 dim0 dim1 dim2 }

-- `get(dimension)` and `operator[]`.
unfoldable pub get : {n : ℕ} → Range n → ℕ → Option ℕ
get r dimension = ArrayNd.at r.dims dimension

unfoldable pub size : {n : ℕ} → Range n → Option ℕ
size r = ArrayNd.get_liner r.dims

unfoldable pub eq : {n : ℕ} → Range n → Range n → Bool
eq lhs rhs = ArrayNd.eq lhs.dims rhs.dims

unfoldable pub ne : {n : ℕ} → Range n → Range n → Bool
ne lhs rhs = ArrayNd.ne lhs.dims rhs.dims

abbrev wrap_up : {n : ℕ} → Option (ArrayNd n) → Option (Range n)
wrap_up o = do a ← o; some (record { dims = a })

-- DEFINE_OP_CONST, DEFINE_OP_CONST_SIZE_T, DEFINE_OP, DEFINE_OP_SIZE_T (the new `lhs`) and
-- DEFINE_OP_CONST_SIZE_T_LEFT.
unfoldable pub op_const : {n : ℕ} → BinaryOp → Range n → Range n → Option (Range n)
op_const op lhs rhs = wrap_up (ArrayNd.op_const op lhs.dims rhs.dims)

unfoldable pub op_const_size_t : {n : ℕ} → BinaryOp → Range n → ℕ → Option (Range n)
op_const_size_t op lhs rhs = wrap_up (ArrayNd.op_const_size_t op lhs.dims rhs)

unfoldable pub op_assign : {n : ℕ} → BinaryOp → Range n → Range n → Option (Range n)
op_assign op lhs rhs = wrap_up (ArrayNd.op_assign op lhs.dims rhs.dims)

unfoldable pub op_assign_size_t : {n : ℕ} → BinaryOp → Range n → ℕ → Option (Range n)
op_assign_size_t op lhs rhs = wrap_up (ArrayNd.op_assign_size_t op lhs.dims rhs)

unfoldable pub op_const_size_t_left : {n : ℕ} → BinaryOp → ℕ → Range n → Option (Range n)
op_const_size_t_left op lhs rhs = wrap_up (ArrayNd.op_const_size_t_left op lhs rhs.dims)

-- ===== src/ArrayNd.antt =====
-- detail/container/array_nd.hpp: `ArrayND<dimensions>`, an array of `size_t`, and its operators.
pub mod Equality
use neo_sycl.Prelude.{
  ℕ, zero, suc, ◌*◌, Bool, true, false, not, Option, none, some, ◌==◌, if◌then◌else◌, ◌>>=◌, Vec,
  nil, cons, get?, put, fill, zip_with?, map?,
}
use neo_sycl.SizeT.{BinaryOp, apply, wrap}

abbrev pub ArrayNd : ℕ → Type 0
ArrayNd = Vec ℕ

-- The constructors: `ArrayND() : data{}`, and one for each number of dimensions.
unfoldable pub array_nd : (n : ℕ) → ArrayNd n
array_nd n = fill n 0

unfoldable pub array_nd_1 : ℕ → ArrayNd 1
array_nd_1 dim0 = cons dim0 nil

unfoldable pub array_nd_2 : ℕ → ℕ → ArrayNd 2
array_nd_2 dim0 dim1 = cons dim0 (cons dim1 nil)

unfoldable pub array_nd_3 : ℕ → ℕ → ℕ → ArrayNd 3
array_nd_3 dim0 dim1 dim2 = cons dim0 (cons dim1 (cons dim2 nil))

-- `operator[]`, read and written through; `none` is out of bounds.
unfoldable pub at : {n : ℕ} → ArrayNd n → ℕ → Option ℕ
at a dimension = get? a dimension

-- `get_liner`: the tests on `dimensions` are those of the source, in its order.
unfoldable pub get_liner : {n : ℕ} → ArrayNd n → Option ℕ
unfolding at
get_liner {n} a =
    if n == 2
    then (do x ← at a 0; y ← at a 1; some (wrap (x * y)))
    else if n == 3
    then (do x ← at a 0; y ← at a 1; z ← at a 2; some (wrap (wrap (x * y) * z)))
    else at a 0

-- DEFINE_ARRAY_ND_OP_CONST: a new array.
unfoldable pub op_const : {n : ℕ} → BinaryOp → ArrayNd n → ArrayNd n → Option (ArrayNd n)
op_const op lhs rhs = zip_with? (apply op) lhs rhs

-- DEFINE_ARRAY_ND_OP_CONST_SIZE_T: a new array, against one number.
unfoldable pub op_const_size_t : {n : ℕ} → BinaryOp → ArrayNd n → ℕ → Option (ArrayNd n)
op_const_size_t op lhs rhs = map? (λ x. apply op x rhs) lhs

-- DEFINE_ARRAY_ND_OP, with the binary operator of `+=` and so on: the new contents of `lhs`, to
-- which the call returns a reference.
unfoldable pub op_assign : {n : ℕ} → BinaryOp → ArrayNd n → ArrayNd n → Option (ArrayNd n)
op_assign op lhs rhs = zip_with? (λ x y. apply op x y) lhs rhs

-- DEFINE_ARRAY_ND_OP_SIZE_T: the new contents of `lhs`.
unfoldable pub op_assign_size_t : {n : ℕ} → BinaryOp → ArrayNd n → ℕ → Option (ArrayNd n)
op_assign_size_t op lhs rhs = map? (λ x. apply op x rhs) lhs

-- DEFINE_ARRAY_ND_OP_CONST_SIZE_T_LEFT: the number stands on the left, `rhs[i] op lhs` is stored.
unfoldable pub op_const_size_t_left : {n : ℕ} → BinaryOp → ℕ → ArrayNd n → Option (ArrayNd n)
op_const_size_t_left op lhs rhs = map? (λ y. apply op y lhs) rhs

-- DEFINE_ARRAY_ND_COMMON_BY_VALUE_SEMANTICS: `==` and `!=`, each its own loop with early return.
unfoldable pub eq : {n : ℕ} → ArrayNd n → ArrayNd n → Bool
eq nil rhs = true
eq (cons x v) (cons y w) = let rest = eq v w in if not (x == y) then false else rest

unfoldable pub ne : {n : ℕ} → ArrayNd n → ArrayNd n → Bool
ne nil rhs = false
ne (cons x v) (cons y w) = let rest = ne v w in if not (x == y) then true else rest

-- `for (int i = 0; i < dimensions; i++) this->data[i] = from[i]`, the loop of two constructors of `id`.
unfoldable pub copy_loop : {n : ℕ} → ArrayNd n → ArrayNd n
copy_loop nil = nil
copy_loop (cons x v) = cons x (copy_loop v)

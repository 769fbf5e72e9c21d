-- ===== src/Vector.antt =====
-- detail/builtin/vec.hpp, and the operators and functions on vectors that the macros of
-- detail/builtin/op_defs.hpp define. A vector `r` that the source leaves uninitialised is an argument.
pub mod Elementwise
pub mod Common
pub mod Integer
pub mod Dot
pub mod Geometry
use neo_sycl.Prelude.{ℕ, zero, suc, ◌*◌, Bool, Option, some, ◌>>=◌, Vec, get?, put}

-- `for (int i = ...; left rounds; i++) r[i] = f(i)`, where `f` may read `r`.
unfoldable pub assign_loop {ℓ} :
    {A : Type ℓ} {n : ℕ} → (ℕ → Vec A n → Option A) → ℕ → ℕ → Vec A n → Option (Vec A n)
assign_loop f zero i r = some r
assign_loop f (suc left) i r = f i r >>= λ a. assign_loop f left (suc i) (put r i a)

module _ {A : Type 0} where
  -- The constructors: one value, and two, three or four.
  unfoldable pub vec_all : {n : ℕ} → A → Vec A n → Option (Vec A n)
  unfolding assign_loop
  vec_all {n} x r = assign_loop (λ i v. some x) n 0 r

  unfoldable pub vec_2 : A → A → Vec A 2 → Vec A 2
  vec_2 x y r = put (put r 0 x) 1 y

  unfoldable pub vec_3 : A → A → A → Vec A 3 → Vec A 3
  vec_3 x y z r = put (put (put r 0 x) 1 y) 2 z

  unfoldable pub vec_4 : A → A → A → A → Vec A 4 → Vec A 4
  vec_4 x y z w r = put (put (put (put r 0 x) 1 y) 2 z) 3 w

  unfoldable pub get_count : {n : ℕ} → Vec A n → ℕ
  get_count {n} v = n

  unfoldable pub get_size : {n : ℕ} → ℕ → Vec A n → ℕ
  unfolding get_count
  get_size size_of v = get_count v * size_of

module _ {A B : Type 0} where
  -- `convert`, over the conversion of one element.
  unfoldable pub convert : {n : ℕ} → (A → B) → Vec A n → Vec B n → Option (Vec B n)
  unfolding assign_loop
  convert {n} conv v r = assign_loop (λ i u. get? v i >>= λ a. some (conv a)) n 0 r

-- What the reference `const T& rhs` of the compound assignment refers to: a value outside the
-- vector on the left, or the element of that vector at an index, which is read anew each time.
pub data Rhs (A : Type 0) : Type 0 where
  outside : A → Rhs A
  element : ℕ → Rhs A

unfoldable pub read : {A : Type 0} {n : ℕ} → Rhs A → Vec A n → Option A
read (outside b) u = some b
read (element k) u = get? u k

-- DEF_VEC_BINARY_OPERATOR: between vectors, with a value on the right, with a value on the left.
module _ {A : Type 0} {n : ℕ} (op : A → A → Option A) where
  unfoldable pub binary : Vec A n → Vec A n → Vec A n → Option (Vec A n)
  unfolding assign_loop
  binary lhs rhs r = assign_loop (λ i u. get? lhs i >>= λ a. get? rhs i >>= λ b. op a b) n 0 r

  unfoldable pub binary_value : Vec A n → A → Vec A n → Option (Vec A n)
  unfolding assign_loop
  binary_value lhs rhs r = assign_loop (λ i u. get? lhs i >>= λ a. op a rhs) n 0 r

  unfoldable pub value_binary : A → Vec A n → Vec A n → Option (Vec A n)
  unfolding assign_loop
  value_binary lhs rhs r = assign_loop (λ i u. get? rhs i >>= λ b. op b lhs) n 0 r

  -- DEF_VEC_ASSIGN_OPERATOR: with another vector, with itself, with a value.
  unfoldable pub assign : Vec A n → Vec A n → Option (Vec A n)
  unfolding assign_loop
  assign lhs rhs = assign_loop (λ i u. get? u i >>= λ a. get? rhs i >>= λ b. op a b) n 0 lhs

  unfoldable pub assign_self : Vec A n → Option (Vec A n)
  unfolding assign_loop
  assign_self lhs = assign_loop (λ i u. get? u i >>= λ a. get? u i >>= λ b. op a b) n 0 lhs

  unfoldable pub assign_value : Vec A n → Rhs A → Option (Vec A n)
  unfolding assign_loop read
  assign_value lhs rhs = assign_loop (λ i u. get? u i >>= λ a. read rhs u >>= λ b. op a b) n 0 lhs

-- The prefix operator of DEF_VEC_INCDEC_OPERATOR, and DEF_VEC_UNARY_OPERATOR, over the operator on
-- one element.
module _ {A : Type 0} {n : ℕ} where
  unfoldable pub incdec : (A → Option A) → Vec A n → Option (Vec A n)
  unfolding assign_loop
  incdec op lhs = assign_loop (λ i u. get? u i >>= op) n 0 lhs

  unfoldable pub unary : (A → Option A) → Vec A n → Vec A n → Option (Vec A n)
  unfolding assign_loop
  unary op v r = assign_loop (λ i u. get? v i >>= op) n 0 r

-- The functions of DEFINE_GEN_FUNC and DEFINE_UGEN_FUNC, over the function on one element.
module _ {A B : Type 0} {n : ℕ} where
  unfoldable pub gen_func : (A → Option B) → Vec A n → Vec B n → Option (Vec B n)
  unfolding assign_loop
  gen_func f x r = assign_loop (λ i u. get? x i >>= f) n 0 r

  -- DEFINE_GEN_FUNC2 and DEFINE_UGEN_FUNC2, and DEFINE_GEN_FUNC3.
  unfoldable pub gen_func2 : (A → A → Option B) → Vec A n → Vec A n → Vec B n → Option (Vec B n)
  unfolding assign_loop
  gen_func2 f x y r = assign_loop (λ i u. get? x i >>= λ a. get? y i >>= λ b. f a b) n 0 r

  unfoldable pub gen_func3 :
      (A → A → A → Option B) → Vec A n → Vec A n → Vec A n → Vec B n → Option (Vec B n)
  unfolding assign_loop
  gen_func3 f x y z r =
      assign_loop (λ i u. get? x i >>= λ a. get? y i >>= λ b. get? z i >>= λ c. f a b c) n 0 r

  -- DEF_VEC_BOOLEAN_OPERATOR, over the comparison and the conversion of its result.
  unfoldable pub boolean :
      (A → A → Bool) → (Bool → B) → Vec A n → Vec A n → Vec B n → Option (Vec B n)
  unfolding assign_loop
  boolean op ret lhs rhs r =
      assign_loop (λ i u. get? lhs i >>= λ a. get? rhs i >>= λ b. some (ret (op a b))) n 0 r

  unfoldable pub boolean_value :
      (A → A → Bool) → (Bool → B) → Vec A n → A → Vec B n → Option (Vec B n)
  unfolding assign_loop
  boolean_value op ret lhs rhs r =
      assign_loop (λ i u. get? lhs i >>= λ a. some (ret (op a rhs))) n 0 r

  unfoldable pub value_boolean :
      (A → A → Bool) → (Bool → B) → A → Vec A n → Vec B n → Option (Vec B n)
  unfolding assign_loop
  value_boolean op ret lhs rhs r =
      assign_loop (λ i u. get? rhs i >>= λ b. some (ret (op lhs b))) n 0 r

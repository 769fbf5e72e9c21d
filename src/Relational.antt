-- ===== src/Relational.antt =====
-- detail/builtin/relational.hpp: comparisons and tests of floating-point numbers, as integers. The
-- bodies are those of DEFINE_REL_FUNC and DEFINE_TEST_FUNC.
pub mod Ordered
use neo_sycl.Prelude.{ℕ, zero, suc, Bool, true, false, not, ◌&&◌, ◌||◌, Option, some, Vec, ltb}
use neo_sycl.SizeT.{of_bool}
use neo_sycl.Math.{FloatOps}
use neo_sycl.Vector.{gen_func, gen_func2}

module _ {T : Type 0} (fl : FloatOps T) where
  unfoldable pub isequal : T → T → ℕ
  isequal p0 p1 = of_bool (fl.same p0 p1)

  -- `!=` of numbers is the negation of `==`.
  unfoldable pub isnoequal : T → T → ℕ
  isnoequal p0 p1 = of_bool (not (fl.same p0 p1))

  unfoldable pub isgreater : T → T → ℕ
  isgreater p0 p1 = of_bool (fl.less p1 p0)

  unfoldable pub isless : T → T → ℕ
  isless p0 p1 = of_bool (fl.less p0 p1)

  unfoldable pub islessgreater : T → T → ℕ
  islessgreater p0 p1 = of_bool (fl.less p0 p1 || fl.less p1 p0)

  unfoldable pub isnan : T → ℕ
  isnan p = of_bool (fl.is_nan p)

  unfoldable pub isordered : T → T → ℕ
  unfolding isequal
  isordered p0 p1 = of_bool (ltb 0 (isequal p0 p0) && ltb 0 (isequal p1 p1))

  unfoldable pub isunordered : T → T → ℕ
  unfolding isnan
  isunordered p0 p1 = of_bool (ltb 0 (isnan p0) || ltb 0 (isnan p1))

-- The overloads on vectors, over the scalar function.
unfoldable pub rel_vec :
    {T : Type 0} {n : ℕ} → (T → T → ℕ) → Vec T n → Vec T n → Vec ℕ n → Option (Vec ℕ n)
unfolding gen_func2
rel_vec f p0 p1 r = gen_func2 (λ a b. some (f a b)) p0 p1 r

unfoldable pub test_vec : {T : Type 0} {n : ℕ} → (T → ℕ) → Vec T n → Vec ℕ n → Option (Vec ℕ n)
unfolding gen_func
test_vec f p r = gen_func (λ a. some (f a)) p r

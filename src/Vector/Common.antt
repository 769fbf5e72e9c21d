-- ===== src/Vector/Common.antt =====
-- The functions on vectors of detail/builtin/common.hpp and detail/builtin/integer.hpp: the instances
-- of the macros, and the overloads that take plain values.
use neo_sycl.Prelude.{
  ℕ, ◌≤◌, ◌≡◌, refl, ap, ◌∙◌, Option, some, ◌>>=◌, Vec, nil, cons, get?, map?, arith,
}
use neo_sycl.Builtin
use neo_sycl.Vector.{assign_loop, gen_func, gen_func2, gen_func3}
use neo_sycl.Vector.Elementwise.{gen_func-map?}

module _ {n : ℕ} where
  -- DEFINE_GEN_FUNC3(clamp), DEFINE_GEN_FUNC2(max), DEFINE_GEN_FUNC2(min), DEFINE_GEN_FUNC2(step) and
  -- DEFINE_GEN_FUNC(sign), for vectors.
  unfoldable pub clamp : Vec ℕ n → Vec ℕ n → Vec ℕ n → Vec ℕ n → Option (Vec ℕ n)
  unfolding gen_func3
  clamp x y z r = gen_func3 (λ a b c. some (Builtin.clamp a b c)) x y z r

  unfoldable pub max : Vec ℕ n → Vec ℕ n → Vec ℕ n → Option (Vec ℕ n)
  unfolding gen_func2
  max x y r = gen_func2 (λ a b. some (Builtin.max a b)) x y r

  unfoldable pub min : Vec ℕ n → Vec ℕ n → Vec ℕ n → Option (Vec ℕ n)
  unfolding gen_func2
  min x y r = gen_func2 (λ a b. some (Builtin.min a b)) x y r

  unfoldable pub step : Vec ℕ n → Vec ℕ n → Vec ℕ n → Option (Vec ℕ n)
  unfolding gen_func2
  step e x r = gen_func2 (λ a b. some (Builtin.step a b)) e x r

  unfoldable pub sign : Vec ℕ n → Vec ℕ n → Option (Vec ℕ n)
  unfolding gen_func
  sign x r = gen_func (λ a. some (Builtin.sign a)) x r

  -- The overloads with plain values.
  unfoldable pub clamp_value : Vec ℕ n → ℕ → ℕ → Vec ℕ n → Option (Vec ℕ n)
  unfolding assign_loop
  clamp_value x y z r = assign_loop (λ i u. get? x i >>= λ a. some (Builtin.clamp a y z)) n 0 r

  unfoldable pub max_value : Vec ℕ n → ℕ → Vec ℕ n → Option (Vec ℕ n)
  unfolding assign_loop
  max_value x y r = assign_loop (λ i u. get? x i >>= λ a. some (Builtin.max a y)) n 0 r

  unfoldable pub min_value : Vec ℕ n → ℕ → Vec ℕ n → Option (Vec ℕ n)
  unfolding assign_loop
  min_value x y r = assign_loop (λ i u. get? x i >>= λ a. some (Builtin.min a y)) n 0 r

  unfoldable pub step_value : ℕ → Vec ℕ n → Vec ℕ n → Option (Vec ℕ n)
  unfolding assign_loop
  step_value e x r = assign_loop (λ i u. get? x i >>= λ a. some (Builtin.step e a)) n 0 r

-- Between `lo` and `hi` in every element.
abbrev pub Within : {n : ℕ} → ℕ → ℕ → Vec ℕ n → Type 0
Within lo hi nil = Unit
Within lo hi (cons x v) = (lo ≤ x) × (x ≤ hi) × Within lo hi v

clamp_map :
    {n : ℕ} (x : Vec ℕ n) (y z : ℕ)
    → y ≤ z
    → (u : Vec ℕ n) × (map? (λ a. some (Builtin.clamp a y z)) x ≡ some u) × Within y z u
unfolding Builtin.clamp
clamp_map nil y z h = (nil, refl, tt)
clamp_map (cons a x) y z h =
    let (u, e, w) = clamp_map x y z h in
    (
      cons (Builtin.clamp a y z) u,
      ap (λ o. o >>= λ v. some (cons (Builtin.clamp a y z) v)) e,
      (ground arith, ground arith, w),
    )

unmoved :
    {n : ℕ} (x : Vec ℕ n) (y z : ℕ)
    → Within y z x
    → map? (λ a. some (Builtin.clamp a y z)) x ≡ some x
unfolding Builtin.clamp
unmoved nil y z w = refl
unmoved (cons a x) y z w =
    let same : Builtin.clamp a y z ≡ a = ground arith in rw (same, unmoved x y z w.2) refl

clamp_value-map? :
    {n : ℕ} (x r : Vec ℕ n) (y z : ℕ)
    → clamp_value x y z r ≡ map? (λ a. some (Builtin.clamp a y z)) x
unfolding clamp_value gen_func
clamp_value-map? x r y z = gen_func-map? (λ a. some (Builtin.clamp a y z)) x r

-- For bounds in order: `clamp` of a vector between two values completes, every element of the
-- result lies within them, and `clamp` leaves the result as it is.
pub clamp_value-Within :
    {n : ℕ} (x r : Vec ℕ n) (y z : ℕ)
    → y ≤ z
    → (u : Vec ℕ n) × (clamp_value x y z r ≡ some u) × Within y z u × (clamp_value u y z r ≡ some u)
clamp_value-Within x r y z h =
    let (u, e, w) = clamp_map x y z h in
    (u, clamp_value-map? x r y z ∙ e, w, clamp_value-map? u r y z ∙ unmoved u y z w)

-- ===== src/Math.antt =====
-- detail/builtin/math.hpp: the functions that are more than a call of <cmath>, over the operations on
-- floating-point numbers, which are a parameter. `M_PI` is a number of the same type.
pub mod Magnitude
pub mod Outputs
pub mod Pairs
pub mod Blend
use neo_sycl.Prelude.{
  ℕ, zero, suc, Bool, true, false, Option, some, ◌>>=◌, Vec, get?, put, if◌then◌else◌,
}

-- The operators of the language and the functions of <cmath>; `of_nat` converts an integer.
pub record FloatOps (T : Type 0) : Type 0 where
  pub plus : T → T → T
  pub minus : T → T → T
  pub times : T → T → T
  pub over : T → T → T
  pub negate : T → T
  pub less : T → T → Bool
  pub same : T → T → Bool
  pub is_nan : T → Bool
  pub of_nat : ℕ → T
  pub pi : T
  pub acos : T → T
  pub asin : T → T
  pub atan : T → T
  pub atan2 : T → T → T
  pub cos : T → T
  pub sin : T → T
  pub tan : T → T
  pub exp : T → T
  pub log : T → T
  pub sqrt : T → T
  pub pow : T → T → T
  pub fabs : T → T
  pub fmax : T → T → T
  pub fmin : T → T → T
  pub floor : T → T

module _ {T : Type 0} (fl : FloatOps T) where
  unfoldable pub acospi : T → T
  acospi i = fl.over (fl.acos i) fl.pi

  unfoldable pub asinpi : T → T
  asinpi i = fl.over (fl.asin i) fl.pi

  unfoldable pub atanpi : T → T
  atanpi i = fl.over (fl.atan i) fl.pi

  unfoldable pub atan2pi : T → T → T
  atan2pi i j = fl.over (fl.atan2 i j) fl.pi

  unfoldable pub cospi : T → T
  cospi i = fl.cos (fl.times fl.pi i)

  unfoldable pub divide : T → T → T
  divide i j = fl.over i j

  unfoldable pub exp10 : T → T
  exp10 i = fl.exp (fl.plus i (fl.log (fl.of_nat 10)))

  unfoldable pub mad : T → T → T → T
  mad i j k = fl.plus (fl.times i j) k

  unfoldable pub maxmag : T → T → T
  maxmag i j =
      if fl.less (fl.fabs j) (fl.fabs i)
      then i
      else if fl.less (fl.fabs i) (fl.fabs j)
      then j
      else fl.fmax i j

  unfoldable pub minmag : T → T → T
  minmag i j =
      if fl.less (fl.fabs i) (fl.fabs j)
      then i
      else if fl.less (fl.fabs j) (fl.fabs i)
      then j
      else fl.fmin i j

  unfoldable pub powr : T → T → T
  powr i j = fl.pow i j

  unfoldable pub recip : T → T
  recip i = fl.over (fl.of_nat 1) i

  -- The root, of a positive degree.
  unfoldable pub rootn : T → ℕ → T
  rootn x i = fl.pow x (fl.over (fl.of_nat 1) (fl.of_nat i))

  unfoldable pub rsqrt : T → T
  rsqrt i = fl.sqrt (fl.negate i)

  unfoldable pub sinpi : T → T
  sinpi i = fl.over (fl.sin i) fl.pi

  unfoldable pub tanpi : T → T
  tanpi i = fl.over (fl.tan i) fl.pi

  -- `fract` and `sincos`: the result, and what is stored through the pointer.
  unfoldable pub fract : T → T × T
  fract x = (fl.minus x (fl.floor x), fl.floor x)

  unfoldable pub sincos : T → T × T
  sincos x = (fl.sin x, fl.cos x)

-- The loops that store a second result for each element: `R[i] = f(x[i], &p[i])`, with `n` elements
-- behind `p`.
unfoldable pub out_loop :
    {A B : Type 0} {n : ℕ}
    → (ℕ → Option (A × B))
    → ℕ
    → ℕ
    → Vec A n × Vec B n
    → Option (Vec A n × Vec B n)
out_loop f zero i (r, p) = some (r, p)
out_loop f (suc left) i (r, p) = f i >>= λ (a, b). out_loop f left (suc i) (put r i a, put p i b)

module _ {T : Type 0} {n : ℕ} (fl : FloatOps T) where
  unfoldable pub fract_vec : Vec T n → Vec T n × Vec T n → Option (Vec T n × Vec T n)
  unfolding out_loop fract
  fract_vec x start = out_loop (λ i. get? x i >>= λ a. some (fract fl a)) n 0 start

  unfoldable pub sincos_vec : Vec T n → Vec T n × Vec T n → Option (Vec T n × Vec T n)
  unfolding out_loop sincos
  sincos_vec x start = out_loop (λ i. get? x i >>= λ a. some (sincos fl a)) n 0 start

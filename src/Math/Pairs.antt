-- ===== src/Math/Pairs.antt =====
-- The functions of detail/builtin/math.hpp that hand a pointer or an `int` to <cmath>, and their
-- loops over vectors. What <cmath> does is a parameter; `E` stands for `int`.
use neo_sycl.Prelude.{
  ℕ, ◌^◌, ◌≡◌, refl, ap, ◌∙◌, Option, none, some, ◌>>=◌, Vec, nil, cons, get?, map?, ltb,
  if◌then◌else◌,
}
use neo_sycl.Math.{FloatOps, rootn, out_loop}
use neo_sycl.Math.Outputs.{map_vec, out_loop-map_vec}
use neo_sycl.Vector.{assign_loop, gen_func}
use neo_sycl.Vector.Elementwise.{gen_func-map?}

pub record Cmath (T E : Type 0) : Type 0 where
  pub std_frexp : T → T × E
  pub std_modf : T → T × T
  pub std_remquo : T → T → T × E
  pub std_ilogb : T → E
  pub quiet_nan : T

module _ {T E : Type 0} (fl : FloatOps T) (cm : Cmath T E) where
  -- The result, and what is stored through the pointer.
  unfoldable pub frexp : T → T × E
  frexp x = cm.std_frexp x

  unfoldable pub modf : T → T × T
  modf x = cm.std_modf x

  unfoldable pub remquo : T → T → T × E
  remquo x y = cm.std_remquo x y

  unfoldable pub ilogb : T → E
  ilogb x = cm.std_ilogb x

  -- The argument is not used.
  unfoldable pub nan : ℕ → T
  nan x = cm.quiet_nan

  -- For an exponent that is not negative.
  unfoldable pub pown : T → ℕ → T
  pown x y = fl.pow x (fl.of_nat y)

  -- `x * (1 << y)`: `1 << y` is an `int` for `y` below 31.
  unfoldable pub ldexp : T → ℕ → Option T
  ldexp x y = if ltb y 31 then some (fl.times x (fl.of_nat (2 ^ y))) else none

  module _ {n : ℕ} where
    unfoldable pub frexp_vec : Vec T n → Vec T n × Vec E n → Option (Vec T n × Vec E n)
    unfolding out_loop frexp
    frexp_vec x start = out_loop (λ i. get? x i >>= λ a. some (frexp a)) n 0 start

    unfoldable pub modf_vec : Vec T n → Vec T n × Vec T n → Option (Vec T n × Vec T n)
    unfolding out_loop modf
    modf_vec x start = out_loop (λ i. get? x i >>= λ a. some (modf a)) n 0 start

    unfoldable pub remquo_vec : Vec T n → Vec T n → Vec T n × Vec E n → Option (Vec T n × Vec E n)
    unfolding out_loop remquo
    remquo_vec x y start =
        out_loop (λ i. get? x i >>= λ a. get? y i >>= λ b. some (remquo a b)) n 0 start

    unfoldable pub ilogb_vec : Vec T n → Vec E n → Option (Vec E n)
    unfolding assign_loop ilogb
    ilogb_vec x r = assign_loop (λ i u. get? x i >>= λ a. some (ilogb a)) n 0 r

    unfoldable pub nan_vec : Vec ℕ n → Vec T n → Option (Vec T n)
    unfolding assign_loop nan
    nan_vec x r = assign_loop (λ i u. get? x i >>= λ a. some (nan a)) n 0 r

    -- The root of a positive degree.
    unfoldable pub rootn_vec : Vec T n → ℕ → Vec T n → Option (Vec T n)
    unfolding assign_loop rootn
    rootn_vec x y r = assign_loop (λ i u. get? x i >>= λ a. some (rootn fl a y)) n 0 r

  map?-map_vec :
      {A B : Type 0} {n : ℕ} (f : A → B) (x : Vec A n)
      → map? (λ a. some (f a)) x ≡ some (map_vec f x)
  map?-map_vec f nil = refl
  map?-map_vec f (cons a x) = ap (λ o. o >>= λ u. some (cons (f a) u)) (map?-map_vec f x)

  -- On vectors: each element of the results, and of the arrays behind the pointers, is that of the
  -- scalar function, whatever was there before.
  pub frexp_vec-modf_vec :
      {n : ℕ} (x r p : Vec T n) (e : Vec E n) (s : Vec ℕ n) (y : ℕ)
      → (frexp_vec x (r, e) ≡ some (map_vec (λ a. (frexp a).0) x, map_vec (λ a. (frexp a).1) x))
        × (modf_vec x (r, p) ≡ some (map_vec (λ a. (modf a).0) x, map_vec (λ a. (modf a).1) x))
        × (ilogb_vec x e ≡ some (map_vec ilogb x))
        × (nan_vec s r ≡ some (map_vec nan s))
        × (rootn_vec x y r ≡ some (map_vec (λ a. rootn fl a y) x))
  unfolding frexp_vec modf_vec ilogb_vec nan_vec rootn_vec gen_func
  frexp_vec-modf_vec x r p e s y = (
    out_loop-map_vec frexp x r e,
    out_loop-map_vec modf x r p,
    gen_func-map? (λ a. some (ilogb a)) x e ∙ map?-map_vec ilogb x,
    gen_func-map? (λ a. some (nan a)) s r ∙ map?-map_vec nan s,
    gen_func-map? (λ a. some (rootn fl a y)) x r ∙ map?-map_vec (λ a. rootn fl a y) x,
  )

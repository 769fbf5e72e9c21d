-- ===== src/Math/Blend.antt =====
-- The functions of detail/builtin/common.hpp on floating-point numbers, and their overloads on
-- vectors.
use neo_sycl.Prelude.{ℕ, ◌≡◌, refl, true, false, Option, some, ◌>>=◌, Vec, get?, if◌then◌else◌}
use neo_sycl.Math.{FloatOps}
use neo_sycl.Vector.{assign_loop, gen_func, gen_func3}

module _ {T : Type 0} (fl : FloatOps T) where
  unfoldable pub degrees : T → T
  degrees i = fl.over (fl.times i (fl.of_nat 180)) fl.pi

  unfoldable pub mix : T → T → T → T
  mix x y z = fl.plus (fl.times x z) (fl.times (fl.minus (fl.of_nat 1) z) y)

  unfoldable pub radians : T → T
  radians i = fl.over (fl.times i fl.pi) (fl.of_nat 180)

  unfoldable pub step : T → T → T
  step e x = if fl.less x e then fl.of_nat 0 else fl.of_nat 1

  unfoldable pub smoothstep : T → T → T → T
  smoothstep e1 e2 x =
      if fl.less x e1
      then fl.of_nat 0
      else if fl.less e2 x
      then fl.of_nat 1
      else fl.over (fl.minus x e1) (fl.minus e2 e1)

  module _ {n : ℕ} where
    unfoldable pub degrees_vec : Vec T n → Vec T n → Option (Vec T n)
    unfolding gen_func degrees
    degrees_vec x r = gen_func (λ a. some (degrees a)) x r

    unfoldable pub radians_vec : Vec T n → Vec T n → Option (Vec T n)
    unfolding gen_func radians
    radians_vec x r = gen_func (λ a. some (radians a)) x r

    unfoldable pub mix_vec : Vec T n → Vec T n → Vec T n → Vec T n → Option (Vec T n)
    unfolding gen_func3 mix
    mix_vec x y z r = gen_func3 (λ a b c. some (mix a b c)) x y z r

    unfoldable pub smoothstep_vec : Vec T n → Vec T n → Vec T n → Vec T n → Option (Vec T n)
    unfolding gen_func3 smoothstep
    smoothstep_vec e1 e2 x r = gen_func3 (λ a b c. some (smoothstep a b c)) e1 e2 x r

    -- The overloads with plain values.
    unfoldable pub mix_value : Vec T n → Vec T n → T → Vec T n → Option (Vec T n)
    unfolding assign_loop mix
    mix_value x y z r =
        assign_loop (λ i u. get? x i >>= λ a. get? y i >>= λ b. some (mix a b z)) n 0 r

    unfoldable pub smoothstep_value : T → T → Vec T n → Vec T n → Option (Vec T n)
    unfolding assign_loop smoothstep
    smoothstep_value e1 e2 x r =
        assign_loop (λ i u. get? x i >>= λ a. some (smoothstep e1 e2 a)) n 0 r

  -- Between equal edges `smoothstep` is `step`, but at the edge itself, where it divides by the
  -- difference of the edges.
  pub smoothstep-step :
      (e x : T)
      → ((a b : T) → fl.less a b ≡ true → fl.less b a ≡ false)
      → (fl.less x e ≡ true → smoothstep e e x ≡ step e x)
        × (fl.less e x ≡ true → smoothstep e e x ≡ step e x)
  unfolding smoothstep step
  smoothstep-step e x asymmetric =
      ((λ below. rw below refl), (λ above. rw (asymmetric e x above, above) refl))

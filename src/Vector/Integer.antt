-- ===== src/Vector/Integer.antt =====
-- The instances of the macros in detail/builtin/integer.hpp on vectors, for an unsigned type of `w`
-- bits.
use neo_sycl.Builtin.Bits.{ones, popcount_lem}
use neo_sycl.Math.Outputs.{map_vec}
use neo_sycl.Prelude.{nil, cons, ◌<◌, ◌^◌, ℕ, ◌≡◌, refl, ◌∙◌, Option, none, some, Vec, map?}
use neo_sycl.Builtin
use neo_sycl.Outcome.{Outcome, done}
use neo_sycl.Vector.{gen_func, gen_func2, gen_func3}
use neo_sycl.Vector.Elementwise.{gen_func-map?}

-- What is undefined has no value.
abbrev pub defined : {A : Type 0} → Outcome A → Option A
defined (done a) = some a
defined _ = none

module _ (w : ℕ) {n : ℕ} where
  unfoldable pub abs_diff : Vec ℕ n → Vec ℕ n → Vec ℕ n → Option (Vec ℕ n)
  unfolding gen_func2
  abs_diff x y r = gen_func2 (λ a b. some (Builtin.abs_diff w a b)) x y r

  unfoldable pub add_sat : Vec ℕ n → Vec ℕ n → Vec ℕ n → Option (Vec ℕ n)
  unfolding gen_func2
  add_sat x y r = gen_func2 (λ a b. some (Builtin.add_sat w a b)) x y r

  unfoldable pub hadd : Vec ℕ n → Vec ℕ n → Vec ℕ n → Option (Vec ℕ n)
  unfolding gen_func2
  hadd x y r = gen_func2 (λ a b. some (Builtin.hadd w a b)) x y r

  unfoldable pub sub_sat : Vec ℕ n → Vec ℕ n → Vec ℕ n → Option (Vec ℕ n)
  unfolding gen_func2
  sub_sat x y r = gen_func2 (λ a b. some (Builtin.sub_sat w a b)) x y r

  unfoldable pub mul_hi : Vec ℕ n → Vec ℕ n → Vec ℕ n → Option (Vec ℕ n)
  unfolding gen_func2
  mul_hi x y r = gen_func2 (λ a b. some (Builtin.mul_hi w a b)) x y r

  unfoldable pub mad_hi : Vec ℕ n → Vec ℕ n → Vec ℕ n → Vec ℕ n → Option (Vec ℕ n)
  unfolding gen_func3
  mad_hi x y z r = gen_func3 (λ a b c. some (Builtin.mad_hi w a b c)) x y z r

  unfoldable pub mad_sat : Vec ℕ n → Vec ℕ n → Vec ℕ n → Vec ℕ n → Option (Vec ℕ n)
  unfolding gen_func3
  mad_sat x y z r = gen_func3 (λ a b c. defined (Builtin.mad_sat w a b c)) x y z r

  unfoldable pub rotate : Vec ℕ n → Vec ℕ n → Vec ℕ n → Option (Vec ℕ n)
  unfolding gen_func2
  rotate x y r = gen_func2 (λ a b. defined (Builtin.rotate w a b)) x y r

  unfoldable pub clz : Vec ℕ n → Vec ℕ n → Option (Vec ℕ n)
  unfolding gen_func
  clz x r = gen_func (Builtin.clz w) x r

  unfoldable pub popcount : Vec ℕ n → Vec ℕ n → Option (Vec ℕ n)
  unfolding gen_func
  popcount x r = gen_func (Builtin.popcount w) x r

abbrev Below : {n : ℕ} → ℕ → Vec ℕ n → Type 0
Below w nil = Unit
Below w (cons a v) = (a < 2 ^ w) × Below w v

counts :
    (w : ℕ) {n : ℕ} (x : Vec ℕ n)
    → Below w x
    → map? (Builtin.popcount w) x ≡ some (map_vec (ones w) x)
counts w nil h = refl
counts w (cons a x) (h, hs) = rw (popcount_lem w a h, counts w x hs) refl

-- On a vector of numbers in range `popcount` ends, with the number of ones of each element.
pub popcount-ones :
    (w : ℕ) {n : ℕ} (x r : Vec ℕ n) → Below w x → popcount w x r ≡ some (map_vec (ones w) x)
unfolding popcount
popcount-ones w x r h = gen_func-map? (Builtin.popcount w) x r ∙ counts w x h

-- ===== src/Builtin.antt =====
-- The functions on integers of detail/builtin/integer.hpp and detail/builtin/common.hpp, for an
-- unsigned type of `w` bits that is not promoted to `int`.
pub mod Saturation
pub mod Bits
use neo_sycl.Prelude.{
  ℕ, zero, suc, ◌+◌, ◌-◌, ◌*◌, ◌/◌, ◌%◌, ◌^◌, ◌==◌, Bool, true, false, Option, none, some,
  if◌then◌else◌, ltb, leb, bit_and, bit_or,
}
use neo_sycl.Outcome.{Outcome, done, undefined, ◌>>=◌, ◌>>◌, guard}

-- `clamp`, `step`, `max`, `min` and `sign` of common.hpp.
unfoldable pub clamp : ℕ → ℕ → ℕ → ℕ
clamp x y z = if ltb x y then y else if ltb z x then z else x

unfoldable pub step : ℕ → ℕ → ℕ
step e x = if ltb x e then 0 else 1

unfoldable pub max : ℕ → ℕ → ℕ
max x y = if ltb x y then y else x

unfoldable pub min : ℕ → ℕ → ℕ
min x y = if ltb x y then x else y

-- `sign`: `x < 0 ? 1 : 0`.
unfoldable pub sign : ℕ → ℕ
sign x = if ltb x 0 then 1 else 0

module _ (w : ℕ) where
  -- `std::numeric_limits<T>::max()`.
  abbrev pub max_value : ℕ
  max_value = 2 ^ w - 1

  abbrev pub wrap_to : ℕ → ℕ
  wrap_to n = n % 2 ^ w

  -- `-x` and `i - j`, modulo `2 ^ w`.
  abbrev pub minus : ℕ → ℕ → ℕ
  minus i j = wrap_to (i + (2 ^ w - j))

  unfoldable pub abs : ℕ → ℕ
  abs x = if ltb x 0 then minus 0 x else x

  unfoldable pub abs_diff : ℕ → ℕ → ℕ
  unfolding abs
  abs_diff i j = abs (minus i j)

  unfoldable pub add_sat : ℕ → ℕ → ℕ
  add_sat i j = if leb (minus max_value i) j then max_value else wrap_to (i + j)

  unfoldable pub hadd : ℕ → ℕ → ℕ
  unfolding add_sat
  hadd i j = add_sat i j / 2

  -- The loop of `clz`, on fuel; `none` when it runs out. The mask has only the bit `w - 1`, so
  -- `bits & mask` is 0 where that digit is.
  unfoldable pub clz_loop : ℕ → ℕ → ℕ → Option ℕ
  clz_loop zero bits num = none
  clz_loop (suc n) bits num =
      let rest = clz_loop n (wrap_to (bits * 2)) (num + 1) in
      if (bits / 2 ^ (w - 1)) % 2 == 0 then rest else some num

  unfoldable pub clz : ℕ → Option ℕ
  unfolding clz_loop
  clz x = clz_loop w x 0

  -- The mask has the upper half of the bits.
  unfoldable pub mul_hi : ℕ → ℕ → ℕ
  mul_hi i j = bit_and (wrap_to (max_value * 2 ^ (w / 2))) (wrap_to (i * j))

  unfoldable pub mul_sat : ℕ → ℕ → Outcome ℕ
  mul_sat i j =
      if i == 0
      then undefined
      else done (if leb (max_value / i) j then max_value else wrap_to (i * j))

  unfoldable pub mad_hi : ℕ → ℕ → ℕ → ℕ
  unfolding mul_hi
  mad_hi i j k = wrap_to (mul_hi i j + k)

  unfoldable pub mad_sat : ℕ → ℕ → ℕ → Outcome ℕ
  unfolding mul_sat add_sat
  mad_sat i j k = do prod ← mul_sat i j; done (add_sat prod k)

  -- A shift by `w` bits or more is undefined.
  unfoldable pub rotate : ℕ → ℕ → Outcome ℕ
  rotate i j = do
    guard (ltb j w)
    guard (ltb (minus w j) w)
    done (bit_or (wrap_to (i * 2 ^ j)) (i / 2 ^ minus w j))

  unfoldable pub sub_sat : ℕ → ℕ → ℕ
  sub_sat i j = if leb i (wrap_to (0 + j)) then 0 else minus i j

  -- The loop of `popcount`, on fuel; `bits & 1` is `bits % 2`.
  unfoldable pub popcount_loop : ℕ → ℕ → ℕ → Option ℕ
  popcount_loop zero bits nzb = none
  popcount_loop (suc n) bits nzb =
      let rest = popcount_loop n (bits / 2) (nzb + bits % 2) in if bits == 0 then some nzb else rest

  -- With `w + 1` rounds.
  unfoldable pub popcount : ℕ → Option ℕ
  unfolding popcount_loop
  popcount x = popcount_loop (suc w) x 0

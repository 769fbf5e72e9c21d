-- ===== src/Builtin/Saturation.antt =====
-- The saturating functions of detail/builtin/integer.hpp, against exact arithmetic.
use native.Mathlib.Nat.{mod-eq_of_lt, mod-lt, mod-add-div, add-mod_left}
use neo_sycl.Prelude.{
  ℕ, zero, suc, ◌+◌, ◌-◌, ◌*◌, ◌/◌, ◌%◌, ◌^◌, ◌≤◌, ◌<◌, ◌≡◌, ap, ◌∙◌, ◌==◌, true, false,
  if◌then◌else◌, ltb, leb, arith, dec_lt,
}
use neo_sycl.Outcome.{done}
use neo_sycl.Builtin.{max_value, wrap_to, minus, add_sat, sub_sat, mul_sat}

pub pow_positive : (w : ℕ) → 0 < 2 ^ w
pow_positive zero = omega arith
pow_positive (suc w) = omega (arith, pow_positive w)

wrap_small : (w n : ℕ) → n < 2 ^ w → wrap_to w n ≡ n
wrap_small w n h = mod-eq_of_lt h

minus_small : (w i j : ℕ) → j ≤ i → i < 2 ^ w → minus w i j ≡ i - j
minus_small w i j le h =
    let around : i + (2 ^ w - j) ≡ 2 ^ w + (i - j) = omega arith in
    ap (λ n. n % 2 ^ w) around ∙ add-mod_left (2 ^ w) (i - j) ∙ wrap_small w (i - j) (omega arith)

-- For `i` and `j` in range: `add_sat` is the sum, or the greatest value where the sum is greater.
pub add_sat_lem :
    (w i j : ℕ)
    → i < 2 ^ w
    → j < 2 ^ w
    → add_sat w i j ≡ (if ltb (max_value w) (i + j) then max_value w else i + j)
unfolding add_sat
add_sat_lem w i j hi hj =
    rw (minus_small w (max_value w) i (omega arith) (omega arith), add_sat)
      (elim (dec_lt (i + j) (2 ^ w)) [
        | yes fits ↦ rw (wrap_small w (i + j) fits) (ground arith)
        | no over ↦ ground arith
      ])

-- For `i` and `j` in range: `sub_sat` is the difference, or 0 where `j` is greater.
pub sub_sat_lem : (w i j : ℕ) → i < 2 ^ w → j < 2 ^ w → sub_sat w i j ≡ i - j
unfolding sub_sat
sub_sat_lem w i j hi hj =
    let plain : wrap_to w (0 + j) ≡ j = wrap_small w (0 + j) (omega arith) ∙ omega arith in
    elim (dec_lt j i) [
      | yes less ↦
          let rest : minus w i j ≡ i - j = minus_small w i j (omega arith) hi in
          let test : leb i j ≡ false = ground arith in rw (sub_sat, plain, test) rest
      | no more ↦
          let test : leb i j ≡ true = ground arith in rw (sub_sat, plain, test) (omega arith)
    ]

below_quotient : (m i j : ℕ) → j < m / i → i * j ≤ m
below_quotient m i j h = let whole : m % i + i * (m / i) ≡ m = mod-add-div m i in grind arith

above_quotient : (m i j : ℕ) → 0 < i → m / i < j → m < i * j
above_quotient m i j pos h =
    let whole : m % i + i * (m / i) ≡ m = mod-add-div m i in
    let rest : m % i < i = mod-lt m pos in grind arith

-- For `i` other than 0, `mul_sat` is the product, or the greatest value where the product is
-- greater; except that at `j = max / i` it is the greatest value in any case.
pub mul_sat_lem :
    (w i j : ℕ)
    → 0 < i
    → mul_sat w i j
      ≡ done (
          if j == max_value w / i
          then max_value w
          else if ltb (max_value w) (i * j)
          then max_value w
          else i * j)
unfolding mul_sat
mul_sat_lem w i j pos = elim (dec_lt j (max_value w / i)) [
  | yes less ↦
      let bound : i * j ≤ max_value w = below_quotient (max_value w) i j less in
      let plain : wrap_to w (i * j) ≡ i * j =
        wrap_small w (i * j) (omega (arith, pow_positive w)) in
      rw (mul_sat, plain) (ground arith)
  | no geq ↦ elim (dec_lt (max_value w / i) j) [
    | yes more ↦
        let over : max_value w < i * j = above_quotient (max_value w) i j pos more in ground arith
    | no leq ↦ ground arith
  ]
]

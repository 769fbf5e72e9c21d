-- ===== src/Builtin/Bits.antt =====
-- The loops over the bits of a number, `popcount` and `clz` of detail/builtin/integer.hpp.
use native.Mathlib.Nat.{
  mul_assoc, div-eq_of_lt, div-eq_of_lt-le, zero-div, div-div-eq-div-mul, mod-eq_of_lt,
}
use neo_sycl.Prelude.{
  ℕ, zero, suc, ◌+◌, ◌-◌, ◌*◌, ◌/◌, ◌%◌, ◌^◌, ◌≤◌, ◌<◌, ◌≡◌, refl, sym, ap, ◌∙◌, subst, ◌==◌, true,
  false, none, some, arith, dec_lt, ℕ_discrete,
}
use neo_sycl.Builtin.{wrap_to, popcount, popcount_loop, clz, clz_loop}

-- The number of ones among the binary digits of `x` below the place `k`.
abbrev pub ones : ℕ → ℕ → ℕ
ones zero x = 0
ones (suc k) x = (x / 2 ^ k) % 2 + ones k x

halve_place : (k x : ℕ) → x / 2 / 2 ^ k ≡ x / 2 ^ suc k
halve_place k x = div-div-eq-div-mul x 2 (2 ^ k) ∙ ap (λ d. x / d) (omega arith)

ones_low : (k x : ℕ) → ones (suc k) x ≡ x % 2 + ones k (x / 2)
ones_low zero x = omega arith
ones_low (suc k) x = rw (halve_place k x) (omega (arith, ones_low k x))

ones_zero : (k : ℕ) → ones k 0 ≡ 0
ones_zero zero = refl
ones_zero (suc k) = rw (zero-div (2 ^ k)) (omega (arith, ones_zero k))

popcount_loop-ones :
    (w n k bits nzb : ℕ)
    → bits < 2 ^ k
    → k < n
    → popcount_loop w n bits nzb ≡ some (nzb + ones k bits)
unfolding popcount_loop
popcount_loop-ones w zero k bits nzb h f = absurd (omega arith)
popcount_loop-ones w (suc n) zero bits nzb h f = ground arith
popcount_loop-ones w (suc n) (suc k) bits nzb h f = elim (ℕ_discrete bits 0) [
  | yes e ↦
      let total : nzb ≡ nzb + ones (suc k) bits = rw (e) (omega (arith, ones_zero (suc k))) in
      let test : (bits == 0) ≡ true = ground arith in
      rw (popcount_loop, test) (ap (λ d. some d) total)
  | no more ↦
      let halved : bits / 2 < 2 ^ k = omega arith in
      let rest : popcount_loop w n (bits / 2) (nzb + bits % 2)
          ≡ some (nzb + bits % 2 + ones k (bits / 2)) =
        popcount_loop-ones w n k (bits / 2) (nzb + bits % 2) halved (omega arith) in
      let total : nzb + bits % 2 + ones k (bits / 2) ≡ nzb + ones (suc k) bits =
        omega (arith, ones_low k bits) in
      let test : (bits == 0) ≡ false = ground arith in
      rw (popcount_loop, test) (rest ∙ ap (λ d. some d) total)
]

-- For `x` in range: `popcount` ends, and gives the number of ones among the `w` binary digits.
pub popcount_lem : (w x : ℕ) → x < 2 ^ w → popcount w x ≡ some (ones w x)
unfolding popcount
popcount_lem w x h =
    popcount_loop-ones w (suc w) w x 0 h (omega arith) ∙ ap (λ d. some d) (omega arith)

-- A number below `2 ^ suc v` has the digit `v` where it is not below `2 ^ v`.
top_digit : (v x : ℕ) → 2 ^ v ≤ x → x < 2 ^ suc v → (x / 2 ^ v) % 2 ≡ 1
top_digit v x le lt =
    let digit : x / 2 ^ v ≡ 1 = div-eq_of_lt-le (2 ^ v) (omega arith) (omega arith) in
    rw (digit) refl

no_top_digit : (v x : ℕ) → x < 2 ^ v → (x / 2 ^ v) % 2 ≡ 0
no_top_digit v x lt = let digit : x / 2 ^ v ≡ 0 = div-eq_of_lt lt in rw (digit) refl

clz_stops :
    (v n bits num : ℕ)
    → 2 ^ v ≤ bits
    → bits < 2 ^ suc v
    → clz_loop (suc v) (suc n) bits num ≡ some num
unfolding clz_loop
clz_stops v n bits num le less =
    let digit : (bits / 2 ^ (suc v - 1)) % 2 ≡ 1 =
      subst (λ e. (bits / 2 ^ e) % 2 ≡ 1) (omega arith) (top_digit v bits le less) in
    let test : ((bits / 2 ^ (suc v - 1)) % 2 == 0) ≡ false = rw (digit) refl in
    rw (clz_loop, test) refl

clz_goes_on :
    (v n bits num : ℕ)
    → bits < 2 ^ v
    → clz_loop (suc v) (suc n) bits num ≡ clz_loop (suc v) n (bits * 2) (num + 1)
unfolding clz_loop
clz_goes_on v n bits num less =
    let digit : (bits / 2 ^ (suc v - 1)) % 2 ≡ 0 =
      subst (λ e. (bits / 2 ^ e) % 2 ≡ 0) (omega arith) (no_top_digit v bits less) in
    let test : ((bits / 2 ^ (suc v - 1)) % 2 == 0) ≡ true = rw (digit) refl in
    let plain : wrap_to (suc v) (bits * 2) ≡ bits * 2 = mod-eq_of_lt (omega arith) in
    rw (clz_loop, test, plain) refl

-- What `clz` returns: how far `x` can be shifted until its top digit is a one.
abbrev pub LeadingZeros : ℕ → ℕ → ℕ → Type 0
LeadingZeros w x k = (2 ^ (w - 1) ≤ x * 2 ^ k) × (x * 2 ^ k < 2 ^ w)

shift : (b n : ℕ) → b * 2 * 2 ^ n ≡ b * 2 ^ suc n
shift b n = mul_assoc b 2 (2 ^ n) ∙ ap (λ m. b * m) (omega arith)

pow_positive : (n : ℕ) → 0 < 2 ^ n
pow_positive zero = omega arith
pow_positive (suc n) = omega (arith, pow_positive n)

clz_from :
    (v n bits num : ℕ)
    → bits < 2 ^ suc v
    → 2 ^ v ≤ bits * 2 ^ n
    → (k : ℕ) × (clz_loop (suc v) (suc n) bits num ≡ some (num + k))
      × (2 ^ v ≤ bits * 2 ^ k)
      × (bits * 2 ^ k < 2 ^ suc v)
clz_from v zero bits num small enough = (
  0,
  clz_stops v zero bits num (omega arith) small ∙ ap (λ d. some d) (omega arith),
  omega arith,
  omega arith,
)
clz_from v (suc n) bits num small enough = elim (dec_lt bits (2 ^ v)) [
  | no top ↦ (
    0,
    clz_stops v (suc n) bits num (omega arith) small ∙ ap (λ d. some d) (omega arith),
    omega arith,
    omega arith,
  )
  | yes low ↦
      let again : 2 ^ v ≤ bits * 2 * 2 ^ n = subst (λ m. 2 ^ v ≤ m) (sym (shift bits n)) enough in
      let (k, e, le, less) = clz_from v n (bits * 2) (num + 1) (omega arith) again in
      (
        suc k,
        clz_goes_on v (suc n) bits num low ∙ e ∙ ap (λ d. some d) (omega arith),
        subst (λ m. 2 ^ v ≤ m) (shift bits k) le,
        subst (λ m. m < 2 ^ suc v) (shift bits k) less,
      )
]

-- For `x` in range and not 0: `clz` ends, and a shift of `x` by the number it returns brings a
-- one to the top place and loses none.
pub clz_lem : (w x : ℕ) → 0 < x → x < 2 ^ w → (k : ℕ) × (clz w x ≡ some k) × LeadingZeros w x k
unfolding clz
clz_lem zero x pos less = absurd (omega arith)
clz_lem (suc v) x pos less =
    let (k, e, le, less') = clz_from v v x 0 less (grind (arith, pow_positive v)) in
    (
      k,
      e ∙ ap (λ d. some d) (omega arith),
      (subst (λ d. 2 ^ d ≤ x * 2 ^ k) (omega arith) le, less'),
    )

-- The loop of `clz` never ends on 0, whatever the fuel.
pub clz_zero : (v n num : ℕ) → clz_loop (suc v) n 0 num ≡ none
unfolding clz_loop
clz_zero v zero num = refl
clz_zero v (suc n) num = clz_goes_on v n 0 num (pow_positive v) ∙ clz_zero v n (num + 1)

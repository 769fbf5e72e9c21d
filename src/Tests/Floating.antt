-- ===== src/Tests/Floating.antt =====
-- The floating-point functions over a type of numbers with three values of magnitude and more.
use neo_sycl.Prelude.{
  ◌≡◌, ap, ◌>>=◌, some, Vec, nil, cons, ℕ, ◌+◌, ◌-◌, ◌*◌, ◌/◌, false, ltb, ◌==◌, if◌then◌else◌,
  arith,
}
use neo_sycl.Math.{FloatOps}
use neo_sycl.Vector.{binary}
use neo_sycl.Vector.Geometry.{distance, length, fast_distance, fast_length, distance-length}

-- Tenths, without a sign.
abbrev tenths : FloatOps ℕ
tenths = record {
  plus = λ x y. x + y;
  minus = λ x y. x - y;
  times = λ x y. x * y / 10;
  over = λ x y. x * 10 / y;
  negate = λ x. 0 - x;
  less = λ x y. ltb x y;
  same = λ x y. x == y;
  is_nan = λ x. false;
  of_nat = λ n. n * 10;
  pi = 31;
  acos = λ x. 0;
  asin = λ x. 0;
  atan = λ x. 0;
  atan2 = λ x y. 0;
  cos = λ x. 10;
  sin = λ x. x;
  tan = λ x. x;
  exp = λ x. 10;
  log = λ x. 0;
  sqrt = λ x. x;
  pow = λ x y. x;
  fabs = λ x. x;
  fmax = λ x y. if ltb x y then y else x;
  fmin = λ x y. if ltb x y then x else y;
  floor = λ x. x / 10 * 10;
}

-- Whole numbers whose difference is without a sign.
abbrev unsigned : FloatOps ℕ
unsigned = record tenths { minus = λ x y. if ltb x y then y - x else x - y; times = λ x y. x * y }

unsigned_even :
    (a b : ℕ)
    → unsigned.times (unsigned.minus a b) (unsigned.minus a b)
      ≡ unsigned.times (unsigned.minus b a) (unsigned.minus b a)
unsigned_even a b =
    let same : (if ltb a b then b - a else a - b) ≡ (if ltb b a then a - b else b - a) =
      ground arith in
    ap (λ d. d * d) same

abbrev near : Vec ℕ 2
near = cons 1 (cons 5 nil)

abbrev far : Vec ℕ 2
far = cons 4 (cons 1 nil)

distance-length_example :
    (distance unsigned near far
      ≡ (binary (λ a b. some (unsigned.minus a b)) near far near >>= length unsigned))
    × (distance unsigned near far ≡ distance unsigned far near)
    × (fast_distance unsigned near far ≡ distance unsigned near far)
    × (fast_length unsigned near ≡ length unsigned near)
distance-length_example = distance-length unsigned near far near unsigned_even

-- ===== src/Tests/Numbers.antt =====
-- The integer functions on eight bits.
use neo_sycl.Prelude.{ℕ, ◌≡◌, some, arith}
use neo_sycl.Outcome.{done}
use neo_sycl.Builtin.{mul_sat, popcount, clz}
use neo_sycl.Builtin.Saturation.{mul_sat_lem}
use neo_sycl.Builtin.Bits.{popcount_lem, clz_lem, LeadingZeros}

-- 2 * 127 fits eight bits, and yet 255 is returned.
mul_sat_lem_example : mul_sat 8 2 127 ≡ done 255
mul_sat_lem_example = mul_sat_lem 8 2 127 (omega arith)

popcount_lem_example : popcount 8 13 ≡ some 3
popcount_lem_example = popcount_lem 8 13 (omega arith)

clz_lem_example : (k : ℕ) × (clz 8 13 ≡ some k) × LeadingZeros 8 13 k
clz_lem_example = clz_lem 8 13 (omega arith) (omega arith)

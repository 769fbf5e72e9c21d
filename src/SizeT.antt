-- ===== src/SizeT.antt =====
-- `size_t` of a 64-bit target, and the built-in operators that the operator macros of
-- detail/container/array_nd.hpp and op_def.hpp are instantiated with.
use neo_sycl.Prelude.{
  ℕ, ◌+◌, ◌-◌, ◌*◌, ◌/◌, ◌%◌, ◌^◌, ◌<◌, bit_and, bit_or, bit_xor, Bool, true, false, not, ◌&&◌,
  ◌||◌, Option, none, some, ltb, leb, ◌==◌, if◌then◌else◌,
}

abbrev pub size_t_mod : ℕ
size_t_mod = 2 ^ 64

abbrev pub wrap : ℕ → ℕ
wrap n = n % size_t_mod

abbrev pub IsSizeT : ℕ → Type 0
IsSizeT n = n < size_t_mod

-- The macro argument `op`.
pub data BinaryOp : Type 0 where
  plus minus times divide modulo : BinaryOp
  shift_left shift_right : BinaryOp
  both either xor_bits : BinaryOp
  logical_and logical_or : BinaryOp
  less greater less_equal greater_equal : BinaryOp

abbrev pub of_bool : Bool → ℕ
of_bool true = 1
of_bool false = 0

-- `(size_t)(a op b)`; `none` is undefined behaviour: a zero divisor, or a shift by the width.
unfoldable pub apply : BinaryOp → ℕ → ℕ → Option ℕ
apply BinaryOp.plus a b = some (wrap (a + b))
apply BinaryOp.minus a b = some (wrap (a + size_t_mod - b))
apply BinaryOp.times a b = some (wrap (a * b))
apply BinaryOp.divide a b = if b == 0 then none else some (a / b)
apply BinaryOp.modulo a b = if b == 0 then none else some (a % b)
apply BinaryOp.shift_left a b = if ltb b 64 then some (wrap (a * 2 ^ b)) else none
apply BinaryOp.shift_right a b = if ltb b 64 then some (a / 2 ^ b) else none
apply BinaryOp.both a b = some (bit_and a b)
apply BinaryOp.either a b = some (bit_or a b)
apply BinaryOp.xor_bits a b = some (bit_xor a b)
apply BinaryOp.logical_and a b = some (of_bool (not (a == 0) && not (b == 0)))
apply BinaryOp.logical_or a b = some (of_bool (not (a == 0) || not (b == 0)))
apply BinaryOp.less a b = some (of_bool (ltb a b))
apply BinaryOp.greater a b = some (of_bool (ltb b a))
apply BinaryOp.less_equal a b = some (of_bool (leb a b))
apply BinaryOp.greater_equal a b = some (of_bool (leb b a))

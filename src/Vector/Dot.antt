-- ===== src/Vector/Dot.antt =====
-- `dot` and `cross` of detail/builtin/geometric.hpp, for an unsigned type of `w` bits that is not
-- promoted to `int`.
use native.Mathlib.Nat.{mod-eq_of_lt, mod-lt, mod_self, mod-add-mod, add-mod-mod, mul_comm}
use neo_sycl.Prelude.{
  ap₂, sym, ℕ, zero, suc, ◌+◌, ◌*◌, ◌%◌, ◌^◌, ◌<◌, ◌≡◌, refl, ap, ◌∙◌, Option, some, ◌>>=◌,
  >>=_congr, Vec, nil, cons, get?, fill, arith,
}
use neo_sycl.Builtin.{wrap_to, minus}
use neo_sycl.Builtin.Saturation.{pow_positive}
use neo_sycl.Vector.{vec_3, vec_4}

module _ (w : ℕ) where
  -- `r += p0[i] * p1[i]`; `none` is a read out of bounds.
  unfoldable pub dot_loop : {n : ℕ} → Vec ℕ n → Vec ℕ n → ℕ → ℕ → ℕ → Option ℕ
  dot_loop p0 p1 zero i r = some r
  dot_loop p0 p1 (suc left) i r = do
    a ← get? p0 i
    b ← get? p1 i
    dot_loop p0 p1 left (suc i) (wrap_to w (r + wrap_to w (a * b)))

  unfoldable pub dot : {n : ℕ} → Vec ℕ n → Vec ℕ n → Option ℕ
  unfolding dot_loop
  dot {n} p0 p1 = dot_loop p0 p1 n 0 0

  -- `p0[i] * p1[j] - p0[j] * p1[i]`.
  abbrev pub minor : {n : ℕ} → Vec ℕ n → Vec ℕ n → ℕ → ℕ → Option ℕ
  minor p0 p1 i j = do
    a ← get? p0 i
    b ← get? p1 j
    c ← get? p0 j
    d ← get? p1 i
    some (minus w (wrap_to w (a * b)) (wrap_to w (c * d)))

  unfoldable pub cross_3 : Vec ℕ 3 → Vec ℕ 3 → Vec ℕ 3 → Option (Vec ℕ 3)
  unfolding vec_3
  cross_3 p0 p1 r = do
    x ← minor p0 p1 1 2
    y ← minor p0 p1 2 0
    z ← minor p0 p1 0 1
    some (vec_3 x y z r)

  unfoldable pub cross_4 : Vec ℕ 4 → Vec ℕ 4 → Vec ℕ 4 → Option (Vec ℕ 4)
  unfolding vec_4
  cross_4 p0 p1 r = do
    x ← minor p0 p1 1 2
    y ← minor p0 p1 2 0
    z ← minor p0 p1 0 1
    some (vec_4 x y z 0 r)

-- The sum of the products.
abbrev pub inner : {n : ℕ} → Vec ℕ n → Vec ℕ n → ℕ
inner nil nil = 0
inner (cons a v) (cons b u) = a * b + inner v u

module _ (w : ℕ) where
  dot_loop-cons :
      {n : ℕ} (a b : ℕ) (p0 p1 : Vec ℕ n) (left i r : ℕ)
      → dot_loop w (cons a p0) (cons b p1) left (suc i) r ≡ dot_loop w p0 p1 left i r
  unfolding dot_loop
  dot_loop-cons a b p0 p1 zero i r = refl
  dot_loop-cons a b p0 p1 (suc left) i r = >>=_congr (get? p0 i) _ _ λ a'.
      >>=_congr (get? p1 i) _ _
        λ b'. dot_loop-cons a b p0 p1 left (suc i) (wrap_to w (r + wrap_to w (a' * b')))

  collect : (r x y : ℕ) → (wrap_to w (r + wrap_to w x) + y) % 2 ^ w ≡ (r + (x + y)) % 2 ^ w
  collect r x y =
      mod-add-mod (r + wrap_to w x) (2 ^ w) y
      ∙ ap (λ t. t % 2 ^ w) (omega arith)
      ∙ add-mod-mod (r + y) x (2 ^ w)
      ∙ ap (λ t. t % 2 ^ w) (omega arith)

  dot_loop_sum :
      {n : ℕ} (p0 p1 : Vec ℕ n) (r : ℕ)
      → r < 2 ^ w
      → dot_loop w p0 p1 n 0 r ≡ some ((r + inner p0 p1) % 2 ^ w)
  unfolding dot_loop
  dot_loop_sum nil nil r h = ap some (sym (ap (λ t. t % 2 ^ w) (omega arith) ∙ mod-eq_of_lt h))
  dot_loop_sum (cons a p0) (cons b p1) r h =
      let r' : ℕ = wrap_to w (r + wrap_to w (a * b)) in
      dot_loop-cons a b p0 p1 _ 0 r'
      ∙ dot_loop_sum p0 p1 r' (mod-lt (r + wrap_to w (a * b)) (omega arith))
      ∙ ap some (collect r (a * b) (inner p0 p1))

  inner_comm : {n : ℕ} (p0 p1 : Vec ℕ n) → inner p0 p1 ≡ inner p1 p0
  inner_comm nil nil = refl
  inner_comm (cons a p0) (cons b p1) = ap₂ ◌+◌ (mul_comm a b) (inner_comm p0 p1)

  sums : {n : ℕ} (p0 p1 : Vec ℕ n) → dot w p0 p1 ≡ some (inner p0 p1 % 2 ^ w)
  unfolding dot
  sums p0 p1 = dot_loop_sum p0 p1 0 (pow_positive w) ∙ ap (λ t. some (t % 2 ^ w)) (omega arith)

  -- `dot` is the sum of the products, modulo `2 ^ w`, and the same for the vectors exchanged.
  pub dot_lem :
      {n : ℕ} (p0 p1 : Vec ℕ n)
      → (dot w p0 p1 ≡ some (inner p0 p1 % 2 ^ w)) × (dot w p0 p1 ≡ dot w p1 p0)
  dot_lem p0 p1 =
      (sums p0 p1, sums p0 p1 ∙ ap (λ t. some (t % 2 ^ w)) (inner_comm p0 p1) ∙ sym (sums p1 p0))

  minus_self : (t : ℕ) → t < 2 ^ w → minus w t t ≡ 0
  minus_self t h = ap (λ s. s % 2 ^ w) (omega arith) ∙ mod_self (2 ^ w)

  same_products : (a b : ℕ) → minus w (wrap_to w (a * b)) (wrap_to w (b * a)) ≡ 0
  same_products a b =
      ap (λ t. minus w (wrap_to w (a * b)) (wrap_to w t)) (mul_comm b a)
      ∙ minus_self (wrap_to w (a * b)) (mod-lt (a * b) (pow_positive w))

  -- The cross product of a vector with itself is the zero vector.
  pub cross_self :
      (p r : Vec ℕ 3) (q s : Vec ℕ 4)
      → (cross_3 w p p r ≡ some (fill 3 0)) × (cross_4 w q q s ≡ some (fill 4 0))
  unfolding cross_3 cross_4 vec_3 vec_4
  cross_self (cons a (cons b (cons c nil))) (cons x (cons y (cons z nil)))
        (cons a' (cons b' (cons c' (cons d' nil)))) (cons x' (cons y' (cons z' (cons t' nil)))) =
      (
        rw (same_products b c, same_products c a, same_products a b) refl,
        rw (same_products b' c', same_products c' a', same_products a' b') refl,
      )

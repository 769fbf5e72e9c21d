-- ===== src/ArrayNd/Equality.antt =====
-- `==` and `!=` of `ArrayND`, the mirrored operators, and `get_liner`.
use neo_sycl.Prelude.{
  ℕ, zero, suc, ◌+◌, ◌-◌, ◌*◌, ◌%◌, ◌<◌, ◌≡◌, refl, ◌↔◌, true, not, some, arith, ◌==◌, ==_iff, inl,
  inr, Bool-cases, nil, cons, get?, ap, ap₂, ◌∙◌, ◌>>=◌,
}
use native.Mathlib.Nat.{mod-eq_of_lt}
use neo_sycl.SizeT.{BinaryOp, apply, wrap, IsSizeT, size_t_mod}
use neo_sycl.ArrayNd.{ArrayNd, eq, ne, op_const_size_t_left, get_liner, array_nd_1}

first : {n : ℕ} → ArrayNd (suc n) → ℕ
first (cons x v) = x

rest : {n : ℕ} → ArrayNd (suc n) → ArrayNd n
rest (cons x v) = v

-- `==` holds exactly of equal arrays, and `!=`, a loop of its own, is its negation.
pub eq_iff-ne : {n : ℕ} (a b : ArrayNd n) → ((eq a b ≡ true) ↔ (a ≡ b)) × (ne a b ≡ not (eq a b))
unfolding eq ne first rest
eq_iff-ne nil nil = ((λ e. refl, λ e. refl), refl)
eq_iff-ne (cons x v) (cons y w) =
    let ((to, from), negated) = eq_iff-ne v w in
    elim (Bool-cases (x == y)) [
      | inl e ↦
          rw e
            ((λ h. ap₂ (λ a b. cons a b) ((==_iff x y).0 e) (to h), λ h. from (ap rest h)), negated)
      | inr e ↦ rw e ((λ h. cc, λ h. cc ((==_iff x y).1 (ap first h))), refl)
    ]

-- If the mirrored `k - a` of a one-element array stores `k` less the element, modulo the width,
-- then twice `k` and twice the element are equal modulo the width.
pub left_minus :
    (k x : ℕ)
    → IsSizeT k
    → IsSizeT x
    → (op_const_size_t_left BinaryOp.minus k (array_nd_1 x)
        ≡ some (array_nd_1 (wrap (k + size_t_mod - x))))
    → 2 * k % size_t_mod ≡ 2 * x % size_t_mod
unfolding op_const_size_t_left array_nd_1 apply
left_minus k x hk hx e = let e' = ap (λ o. o >>= λ t. get? t 0) e in ground arith

abbrev pub product : {n : ℕ} → ArrayNd n → ℕ
product nil = 1
product (cons x v) = x * product v

below_product : (p z : ℕ) → p * suc z < size_t_mod → p < size_t_mod
below_product p z h = grind arith

get_liner_three : (x y z : ℕ) → IsSizeT (x * y * z) → wrap (wrap (x * y) * z) ≡ x * y * z
get_liner_three x y zero h = omega arith
get_liner_three x y (suc z) h =
    let fits : x * y < size_t_mod = below_product (x * y) z h in
    rw (mod-eq_of_lt fits) (mod-eq_of_lt h)

-- In one to three dimensions: `get_liner` is the product of the elements, if that fits `size_t`.
pub get_liner-product :
    {n : ℕ} (a : ArrayNd n) → 0 < n → n < 4 → IsSizeT (product a) → get_liner a ≡ some (product a)
unfolding get_liner
get_liner-product nil p q h = absurd (omega arith)
get_liner-product (cons x nil) p q h = ground arith
get_liner-product (cons x (cons y nil)) p q h = ground arith
get_liner-product (cons x (cons y (cons z nil))) p q h =
    ap some (get_liner_three x y z (omega arith) ∙ omega arith)
get_liner-product (cons x (cons y (cons z (cons t v)))) p q h = absurd (omega arith)

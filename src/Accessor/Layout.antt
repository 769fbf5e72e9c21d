-- ===== src/Accessor/Layout.antt =====
-- Which element of the container an index of the host accessor names, accessor.hpp.
use neo_sycl.Prelude.{ℕ, zero, suc, ◌+◌, ◌*◌, ◌≤◌, ◌<◌, ◌≡◌, ap, ◌∙◌, sym, some, arith, dec_lt}
use native.Mathlib.Nat.{mul_assoc}
use mathlib.Core.Option.{some-injective}
use neo_sycl.SizeT.{wrap, IsSizeT}
use neo_sycl.ArrayNd.{array_nd_2, array_nd_3, at}
use neo_sycl.Range
use neo_sycl.Range.{Range, range_1, range_2, range_3}
use neo_sycl.Id
use neo_sycl.Id.{IdNd, id_1, id_2, id_3}
use neo_sycl.Accessor.{id2index}

-- Two digits to the base `x`.
digits_bound : (i j x y : ℕ) → i < x → j < y → i + x * j < x * y
digits_bound i j x y p q = grind arith

digits_le : (i j x : ℕ) → i < x → x * j ≤ i + x * j
digits_le i j x p = omega arith

pub wrap_digits :
    (i j x y : ℕ) → i < x → j < y → IsSizeT (x * y) → wrap (i + wrap (x * j)) ≡ i + x * j
wrap_digits i j x y p q h = omega (arith, digits_bound i j x y p q)

digits_unique : (i j i' j' x : ℕ) → i < x → i' < x → i + x * j ≡ i' + x * j' → (i ≡ i') × (j ≡ j')
digits_unique i j i' j' x p q e = elim (dec_lt j j') [
  | yes less ↦ absurd (omega (arith, below i j i' j' less p))
  | no notless ↦ elim (dec_lt j' j) [
    | yes more ↦ absurd (omega (arith, below i' j' i j more q))
    | no notmore ↦
        let same : j ≡ j' = omega arith in (omega (arith, ap (λ (t : ℕ). x * t) same), same)
  ]
]
  where
    below : (i j i' j' : ℕ) → j < j' → i < x → i + x * j < i' + x * j'
    below i j i' j' lt p = grind arith

-- On the host, an index `(i, j)` below a two-dimensional access range `(x, y)` whose number of
-- elements fits `size_t` names the element `i + x * j`, which is below `x * y`; two such indices
-- that name the same element are equal.
pub id2index_2 :
    (stray x y i j i' j' : ℕ)
    → IsSizeT (x * y)
    → i < x
    → j < y
    → i' < x
    → j' < y
    → (id2index stray (range_2 x y) (id_2 i j) ≡ some (i + x * j))
      × (i + x * j < x * y)
      × (id2index stray (range_2 x y) (id_2 i j) ≡ id2index stray (range_2 x y) (id_2 i' j')
          → (i ≡ i') × (j ≡ j'))
unfolding id2index Range.get Id.get range_2 id_2 array_nd_2 at
id2index_2 stray x y i j i' j' h p q p' q' = (
  ap some (wrap_digits i j x y p q h),
  digits_bound i j x y p q,
  λ e.
      digits_unique i j i' j' x p p'
        (sym (wrap_digits i j x y p q h) ∙ some-injective _ _ e ∙ wrap_digits i' j' x y p' q' h),
)

factor_fits : (x p : ℕ) → 0 < x → IsSizeT (x * p) → IsSizeT p
factor_fits zero p h fits = elim h [ ]
factor_fits (suc x) p h fits = grind arith

digits_3 :
    (x y z i j k : ℕ)
    → IsSizeT (x * y * z)
    → i < x
    → j < y
    → k < z
    → (wrap (i + wrap (x * wrap (j + wrap (y * k)))) ≡ i + x * (j + y * k))
      × (i + x * (j + y * k) < x * y * z)
digits_3 x y z i j k h p q r =
    let inner : j + y * k < y * z = digits_bound j k y z q r in
    let whole : x * (y * z) ≡ x * y * z = sym (mul_assoc x y z) in
    let outer : IsSizeT (x * (y * z)) = rw whole h in
    let part : IsSizeT (y * z) = factor_fits x (y * z) (omega arith) outer in
    (
      rw (wrap_digits j k y z q r part) (wrap_digits i _ x (y * z) p inner outer),
      rw (← whole) (digits_bound i _ x (y * z) p inner),
    )

-- On the host, an index `(i, j, k)` below a three-dimensional access range `(x, y, z)` whose
-- number of elements fits `size_t` names the element `i + x * (j + y * k)`, which is below `x * y
-- * z`; two such indices that name the same element are equal.
pub id2index_3 :
    (stray x y z i j k i' j' k' : ℕ)
    → IsSizeT (x * y * z)
    → i < x
    → j < y
    → k < z
    → i' < x
    → j' < y
    → k' < z
    → (id2index stray (range_3 x y z) (id_3 i j k) ≡ some (i + x * (j + y * k)))
      × (i + x * (j + y * k) < x * y * z)
      × (id2index stray (range_3 x y z) (id_3 i j k)
            ≡ id2index stray (range_3 x y z) (id_3 i' j' k')
          → (i ≡ i') × (j ≡ j') × (k ≡ k'))
unfolding id2index Range.get Id.get range_3 id_3 array_nd_3 at
id2index_3 stray x y z i j k i' j' k' h p q r p' q' r' =
    let (exact, bound) = digits_3 x y z i j k h p q r in
    let (exact', _) = digits_3 x y z i' j' k' h p' q' r' in
    (
      ap some exact,
      bound,
      λ e.
          let (first, tail) =
            digits_unique i (j + y * k) i' (j' + y * k') x p p'
              (sym exact ∙ some-injective _ _ e ∙ exact') in
          let (second, third) = digits_unique j k j' k' y q q' tail in (first, second, third),
    )

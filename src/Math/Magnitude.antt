-- ===== src/Math/Magnitude.antt =====
-- `maxmag`, `minmag` and `exp10` of detail/builtin/math.hpp.
use neo_sycl.Prelude.{◌≡◌, refl, ◌⊎◌, inl, inr, true, false, Bool-cases}
use neo_sycl.Math.{FloatOps, maxmag, minmag}

module _ {T : Type 0} (fl : FloatOps T) where
  -- `m` is one of the two.
  abbrev pub OneOf : T → T → T → Type 0
  OneOf i j m = (m ≡ i) ⊎ (m ≡ j)

  abbrev pub IsBelow : T → T → Type 0
  IsBelow a b = fl.less (fl.fabs b) (fl.fabs a) ≡ false

  -- One of the two, whose magnitude is not below, or not above, either of theirs.
  abbrev pub IsGreatest : T → T → T → Type 0
  IsGreatest i j m = OneOf i j m × IsBelow i m × IsBelow j m

  abbrev pub IsLeast : T → T → T → Type 0
  IsLeast i j m = OneOf i j m × IsBelow m i × IsBelow m j

  module _ (irreflexive : (x : T) → fl.less x x ≡ false)
      (asymmetric : (x y : T) → fl.less x y ≡ true → fl.less y x ≡ false) where
    maxmag-IsGreatest : (i j : T) → OneOf i j (fl.fmax i j) → IsGreatest i j (maxmag fl i j)
    unfolding maxmag
    maxmag-IsGreatest i j from = elim (Bool-cases (fl.less (fl.fabs j) (fl.fabs i))) [
      | inl gt ↦ rw (gt) (inl refl, irreflexive (fl.fabs i), asymmetric (fl.fabs j) (fl.fabs i) gt)
      | inr le ↦ elim (Bool-cases (fl.less (fl.fabs i) (fl.fabs j))) [
        | inl lt ↦
            rw (le, lt) (inr refl, asymmetric (fl.fabs i) (fl.fabs j) lt, irreflexive (fl.fabs j))
        | inr ge ↦ elim from [
          | inl e ↦ rw (le, ge, e) (inl refl, irreflexive (fl.fabs i), ge)
          | inr e ↦ rw (le, ge, e) (inr refl, le, irreflexive (fl.fabs j))
        ]
      ]
    ]

    minmag-IsLeast : (i j : T) → OneOf i j (fl.fmin i j) → IsLeast i j (minmag fl i j)
    unfolding minmag
    minmag-IsLeast i j from = elim (Bool-cases (fl.less (fl.fabs i) (fl.fabs j))) [
      | inl lt ↦ rw (lt) (inl refl, irreflexive (fl.fabs i), asymmetric (fl.fabs i) (fl.fabs j) lt)
      | inr ge ↦ elim (Bool-cases (fl.less (fl.fabs j) (fl.fabs i))) [
        | inl gt ↦
            rw (ge, gt) (inr refl, asymmetric (fl.fabs j) (fl.fabs i) gt, irreflexive (fl.fabs j))
        | inr le ↦ elim from [
          | inl e ↦ rw (ge, le, e) (inl refl, irreflexive (fl.fabs i), le)
          | inr e ↦ rw (ge, le, e) (inr refl, ge, irreflexive (fl.fabs j))
        ]
      ]
    ]

  -- Where the order of the numbers is irreflexive and asymmetric, as that of floating-point
  -- numbers with a NaN among them is, and `fmax` and `fmin` return one of their arguments:
  -- `maxmag` returns one of its two arguments, and neither has a greater magnitude; `minmag`
  -- returns one of the two, and neither has a smaller magnitude.
  pub maxmag-minmag :
      ((x : T) → fl.less x x ≡ false)
      → ((x y : T) → fl.less x y ≡ true → fl.less y x ≡ false)
      → ((x y : T) → OneOf x y (fl.fmax x y))
      → ((x y : T) → OneOf x y (fl.fmin x y))
      → (i j : T) → IsGreatest i j (maxmag fl i j) × IsLeast i j (minmag fl i j)
  maxmag-minmag irreflexive asymmetric max_of min_of i j = (
    maxmag-IsGreatest irreflexive asymmetric i j (max_of i j),
    minmag-IsLeast irreflexive asymmetric i j (min_of i j),
  )

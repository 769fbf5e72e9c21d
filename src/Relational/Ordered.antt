-- ===== src/Relational/Ordered.antt =====
-- `isordered` and `isunordered` of detail/builtin/relational.hpp.
use neo_sycl.Prelude.{◌+◌, ◌≡◌, refl, Bool, true, false, not, ◌&&◌, ◌||◌, ltb}
use neo_sycl.SizeT.{of_bool}
use neo_sycl.Math.{FloatOps}
use neo_sycl.Relational.{isordered, isunordered, isequal, isnoequal, isnan}

complement :
    (a b : Bool)
    → of_bool (ltb 0 (of_bool a) && ltb 0 (of_bool b))
        + of_bool (ltb 0 (of_bool (not a)) || ltb 0 (of_bool (not b)))
      ≡ 1
complement true true = refl
complement true false = refl
complement false true = refl
complement false false = refl

one_of : (a : Bool) → of_bool a + of_bool (not a) ≡ 1
one_of true = refl
one_of false = refl

-- Where a number is no number exactly if it differs from itself: one of the two is 1, as is one of
-- `isequal` and `isnoequal`, and the other is 0.
pub isordered-isunordered :
    {T : Type 0} (fl : FloatOps T) (p0 p1 : T)
    → ((x : T) → fl.is_nan x ≡ not (fl.same x x))
    → (isordered fl p0 p1 + isunordered fl p0 p1 ≡ 1) × (isequal fl p0 p1 + isnoequal fl p0 p1 ≡ 1)
unfolding isordered isunordered isequal isnoequal isnan
isordered-isunordered fl p0 p1 nan =
    rw (nan p0, nan p1) (complement (fl.same p0 p0) (fl.same p1 p1), one_of (fl.same p0 p1))

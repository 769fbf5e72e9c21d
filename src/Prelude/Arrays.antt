-- ===== src/Prelude/Arrays.antt =====
-- C arrays whose length is a template argument: `data[dimensions]`, `data_[NumElems]`.
use Prim.Native.Nat.{ℕ, zero, suc, ◌<◌}
use mathlib.Core.Path.{◌≡◌, refl}
use mathlib.Core.Option.{Option, none, some}
use native.Mathlib.Omega.{arith}
use neo_sycl.Prelude.Tests.{◌>>=◌}

pub data Vec {ℓ} (A : Type ℓ) : ℕ → Type ℓ where
  nil : Vec A zero
  cons : {n : ℕ} → A → Vec A n → Vec A (suc n)

module _ {ℓ} {A : Type ℓ} where
  -- `none` is a read out of bounds, which C leaves undefined.
  abbrev pub get? : {n : ℕ} → Vec A n → ℕ → Option A
  get? nil i = none
  get? (cons x v) zero = some x
  get? (cons x v) (suc i) = get? v i

  abbrev pub put : {n : ℕ} → Vec A n → ℕ → A → Vec A n
  put nil i a = nil
  put (cons x v) zero a = cons a v
  put (cons x v) (suc i) a = cons x (put v i a)

  abbrev pub fill : (n : ℕ) → A → Vec A n
  fill zero a = nil
  fill (suc n) a = cons a (fill n a)

  pub get?-fill : (n : ℕ) (a : A) (i : ℕ) → i < n → get? (fill n a) i ≡ some a
  get?-fill zero a i h = absurd (omega arith)
  get?-fill (suc n) a zero h = refl
  get?-fill (suc n) a (suc i) h = get?-fill n a i (omega arith)

  -- Within the bounds there is an element.
  pub get?-total : {n : ℕ} (v : Vec A n) (i : ℕ) → i < n → (x : A) × (get? v i ≡ some x)
  get?-total nil i h = absurd (omega arith)
  get?-total (cons x v) zero h = (x, refl)
  get?-total (cons x v) (suc i) h = get?-total v i (omega arith)

-- `for (int i = 0; i < n; ++i) ret[i] = f(lhs[i], rhs[i])`; the first undefined element ends it.
module _ {ℓ κ μ} {A : Type ℓ} {B : Type κ} {C : Type μ} where
  abbrev pub zip_with? : {n : ℕ} → (A → B → Option C) → Vec A n → Vec B n → Option (Vec C n)
  zip_with? f nil w = some nil
  zip_with? f (cons x v) (cons y w) = do z ← f x y; u ← zip_with? f v w; some (cons z u)

-- `for (int i = 0; i < n; ++i) ret[i] = f(lhs[i])`.
module _ {ℓ κ} {A : Type ℓ} {B : Type κ} where
  abbrev pub map? : {n : ℕ} → (A → Option B) → Vec A n → Option (Vec B n)
  map? f nil = some nil
  map? f (cons x v) = do z ← f x; u ← map? f v; some (cons z u)

-- ===== src/Vector/Geometry.antt =====
-- `distance` and `length` of detail/builtin/geometric.hpp, with their fast variants, over the
-- operations on floating-point numbers.
use neo_sycl.Prelude.{
  ℕ, zero, suc, ◌≡◌, refl, ap, ◌∙◌, sym, Option, none, some, ◌>>=◌, Vec, nil, cons, get?, zip_with?,
}
use neo_sycl.Math.{FloatOps}
use neo_sycl.Vector.{binary}
use neo_sycl.Vector.Elementwise.{binary-zip_with?}

bind_both :
    {A B C D : Type 0} (g : A → B → C) (f : A → B → Option D) (k : C → Option D)
    → ((a : A) (b : B) → f a b ≡ k (g a b))
    → (o : Option A) (q : Option B)
    → (o >>= λ a. q >>= λ b. f a b) ≡ ((o >>= λ a. q >>= λ b. some (g a b)) >>= k)
bind_both g f k h none q = refl
bind_both g f k h (some a) none = refl
bind_both g f k h (some a) (some b) = h a b

bind_swap :
    {A B D : Type 0} (f : A → B → Option D) (k : B → A → Option D)
    → ((a : A) (b : B) → f a b ≡ k b a)
    → (o : Option A) (q : Option B) → (o >>= λ a. q >>= λ b. f a b) ≡ (q >>= λ b. o >>= λ a. k b a)
bind_swap f k h none none = refl
bind_swap f k h none (some b) = refl
bind_swap f k h (some a) none = refl
bind_swap f k h (some a) (some b) = h a b

module _ {T : Type 0} (fl : FloatOps T) where
  -- `T diff = p0[i] - p1[i]; r += diff * diff`.
  unfoldable pub distance_loop : {n : ℕ} → Vec T n → Vec T n → ℕ → ℕ → T → Option T
  distance_loop p0 p1 zero i r = some r
  distance_loop p0 p1 (suc left) i r = do
    a ← get? p0 i
    b ← get? p1 i
    let diff = fl.minus a b
    distance_loop p0 p1 left (suc i) (fl.plus r (fl.times diff diff))

  unfoldable pub distance : {n : ℕ} → Vec T n → Vec T n → Option T
  unfolding distance_loop
  distance {n} p0 p1 = do r ← distance_loop p0 p1 n 0 (fl.of_nat 0); some (fl.sqrt r)

  -- `r += p[i] * p[i]`.
  unfoldable pub length_loop : {n : ℕ} → Vec T n → ℕ → ℕ → T → Option T
  length_loop p zero i r = some r
  length_loop p (suc left) i r = do
    a ← get? p i
    length_loop p left (suc i) (fl.plus r (fl.times a a))

  unfoldable pub length : {n : ℕ} → Vec T n → Option T
  unfolding length_loop
  length {n} p = do r ← length_loop p n 0 (fl.of_nat 0); some (fl.sqrt r)

  unfoldable pub fast_distance : {n : ℕ} → Vec T n → Vec T n → Option T
  unfolding distance_loop
  fast_distance {n} p0 p1 = do r ← distance_loop p0 p1 n 0 (fl.of_nat 0); some (fl.sqrt r)

  unfoldable pub fast_length : {n : ℕ} → Vec T n → Option T
  unfolding length_loop
  fast_length {n} p = do r ← length_loop p n 0 (fl.of_nat 0); some (fl.sqrt r)

  zip_vec : {n : ℕ} → Vec T n → Vec T n → Vec T n
  zip_vec nil nil = nil
  zip_vec (cons a v) (cons b w) = cons (fl.minus a b) (zip_vec v w)

  zip_with?-zip_vec :
      {n : ℕ} (v w : Vec T n) → zip_with? (λ a b. some (fl.minus a b)) v w ≡ some (zip_vec v w)
  unfolding zip_vec
  zip_with?-zip_vec nil nil = refl
  zip_with?-zip_vec (cons a v) (cons b w) = rw (zip_with?-zip_vec v w) refl

  get?-zip_vec :
      {n : ℕ} (v w : Vec T n) (i : ℕ)
      → get? (zip_vec v w) i ≡ (get? v i >>= λ a. get? w i >>= λ b. some (fl.minus a b))
  unfolding zip_vec
  get?-zip_vec nil nil i = refl
  get?-zip_vec (cons a v) (cons b w) zero = refl
  get?-zip_vec (cons a v) (cons b w) (suc i) = get?-zip_vec v w i

  distance_loop-length_loop :
      {n : ℕ} (p0 p1 : Vec T n) (left i : ℕ) (r : T)
      → distance_loop p0 p1 left i r ≡ length_loop (zip_vec p0 p1) left i r
  unfolding distance_loop length_loop
  distance_loop-length_loop p0 p1 zero i r = refl
  distance_loop-length_loop p0 p1 (suc left) i r = rw (get?-zip_vec p0 p1 i) (
      bind_both fl.minus _ _
        (λ a b.
          distance_loop-length_loop p0 p1 left (suc i)
            (fl.plus r (fl.times (fl.minus a b) (fl.minus a b))))
        (get? p0 i) (get? p1 i))

  distance_loop_swap :
      {n : ℕ} (p0 p1 : Vec T n) (left i : ℕ) (r : T)
      → ((a b : T)
          → fl.times (fl.minus a b) (fl.minus a b) ≡ fl.times (fl.minus b a) (fl.minus b a))
      → distance_loop p0 p1 left i r ≡ distance_loop p1 p0 left i r
  unfolding distance_loop
  distance_loop_swap p0 p1 zero i r even = refl
  distance_loop_swap p0 p1 (suc left) i r even =
      bind_swap _ _
        (λ a b.
          ap (λ t. distance_loop p0 p1 left (suc i) (fl.plus r t)) (even a b)
          ∙ distance_loop_swap p0 p1 left (suc i)
              (fl.plus r (fl.times (fl.minus b a) (fl.minus b a))) even)
        (get? p0 i) (get? p1 i)

  -- Where the square of a difference does not depend on the order: `distance` is the `length`
  -- of the vector that the operator `-` makes of the two, and does not depend on their order;
  -- `fast_distance` and `fast_length` are `distance` and `length`.
  pub distance-length :
      {n : ℕ} (p0 p1 r : Vec T n)
      → ((a b : T)
          → fl.times (fl.minus a b) (fl.minus a b) ≡ fl.times (fl.minus b a) (fl.minus b a))
      → (distance p0 p1 ≡ (binary (λ a b. some (fl.minus a b)) p0 p1 r >>= length))
        × (distance p0 p1 ≡ distance p1 p0)
        × (fast_distance p0 p1 ≡ distance p0 p1)
        × (fast_length r ≡ length r)
  unfolding distance length fast_distance fast_length
  distance-length {n} p0 p1 r even =
      let zipped : binary (λ a b. some (fl.minus a b)) p0 p1 r ≡ some (zip_vec p0 p1) =
        (binary-zip_with? (λ a b. some (fl.minus a b)) p0 p1 r (fl.of_nat 0)).0
        ∙ zip_with?-zip_vec p0 p1 in
      (
        ap (λ o. o >>= λ q. some (fl.sqrt q)) (distance_loop-length_loop p0 p1 n 0 (fl.of_nat 0))
            ∙ sym (ap (λ o. o >>= length) zipped),
        ap (λ o. o >>= λ q. some (fl.sqrt q)) (distance_loop_swap p0 p1 n 0 (fl.of_nat 0) even),
        refl,
        refl,
      )

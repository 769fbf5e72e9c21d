-- ===== src/Math/Outputs.antt =====
-- The loops of detail/builtin/math.hpp that have two results for each element.
use neo_sycl.Prelude.{
  ℕ, zero, suc, ◌≡◌, refl, ap, ◌∙◌, sym, some, ◌>>=◌, >>=_assoc, >>=_congr, Vec, nil, cons, get?,
  put,
}
use neo_sycl.Math.{FloatOps, fract, sincos, out_loop, fract_vec, sincos_vec}

abbrev pub map_vec : {A B : Type 0} {n : ℕ} → (A → B) → Vec A n → Vec B n
map_vec f nil = nil
map_vec f (cons a v) = cons (f a) (map_vec f v)

module _ {A B C : Type 0} (f : A → B × C) where
  out_loop-cons :
      {n : ℕ} (a : A) (x : Vec A n) (b : B) (c : C) (left i : ℕ) (r : Vec B n) (p : Vec C n)
      → out_loop (λ i. get? (cons a x) i >>= λ a. some (f a)) left (suc i) (cons b r, cons c p) ≡ (
          out_loop (λ i. get? x i >>= λ a. some (f a)) left i (r, p) >>= λ (u, v).
          some (cons b u, cons c v))
  unfolding out_loop
  out_loop-cons a x b c zero i r p = refl
  out_loop-cons a x b c (suc left) i r p =
      >>=_congr (get? x i >>= λ a. some (f a)) _ _
        (λ (b', c'). out_loop-cons a x b c left (suc i) (put r i b') (put p i c'))
      ∙ sym (>>=_assoc (get? x i >>= λ a. some (f a)) _ _)

  pub out_loop-map_vec :
      {n : ℕ} (x : Vec A n) (r : Vec B n) (p : Vec C n)
      → out_loop (λ i. get? x i >>= λ a. some (f a)) n 0 (r, p)
        ≡ some (map_vec (λ a. (f a).0) x, map_vec (λ a. (f a).1) x)
  unfolding out_loop
  out_loop-map_vec nil nil nil = refl
  out_loop-map_vec (cons a x) (cons b r) (cons c p) =
      out_loop-cons a x (f a).0 (f a).1 _ 0 r p
      ∙ ap (λ o. o >>= λ (u, v). some (cons (f a).0 u, cons (f a).1 v)) (out_loop-map_vec x r p)

-- The first results fill the vector that is returned, the second ones the array behind the pointer.
pub fract_vec-sincos_vec :
    {T : Type 0} {n : ℕ} (fl : FloatOps T) (x r p : Vec T n)
    → (fract_vec fl x (r, p) ≡ some (map_vec (λ a. fl.minus a (fl.floor a)) x, map_vec fl.floor x))
      × (sincos_vec fl x (r, p) ≡ some (map_vec fl.sin x, map_vec fl.cos x))
unfolding fract_vec sincos_vec fract sincos
fract_vec-sincos_vec fl x r p =
    (out_loop-map_vec (fract fl) x r p, out_loop-map_vec (sincos fl) x r p)

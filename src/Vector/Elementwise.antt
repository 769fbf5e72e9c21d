-- ===== src/Vector/Elementwise.antt =====
-- The loops of detail/builtin/op_defs.hpp, element by element.
use neo_sycl.Prelude.{
  ℕ, zero, suc, ◌≡◌, refl, ap, ◌∙◌, sym, >>=_assoc, put, Bool, Option, some, ◌>>=◌, >>=_congr, Vec,
  nil, cons, get?, zip_with?, map?,
}
use neo_sycl.Vector.{
  assign_loop, binary, binary_value, value_binary, assign, assign_self, assign_value, gen_func,
  gen_func2, boolean, boolean_value, value_boolean, outside, element, read,
}

-- Each element anew, from its index and what it was.
abbrev each : {A : Type 0} {n : ℕ} → (ℕ → Option A → Option A) → Vec A n → Option (Vec A n)
each g nil = some nil
each g (cons x v) = do z ← g 0 (some x); u ← each (λ i. g (suc i)) v; some (cons z u)

module _ {A : Type 0} where
  assign_loop-cons :
      {n : ℕ} (g : ℕ → Option A → Option A) (x : A) (left i : ℕ) (v : Vec A n)
      → assign_loop (λ i u. g i (get? u i)) left (suc i) (cons x v)
        ≡ (assign_loop (λ i u. g (suc i) (get? u i)) left i v >>= λ u. some (cons x u))
  unfolding assign_loop
  assign_loop-cons g x zero i v = refl
  assign_loop-cons g x (suc left) i v =
      >>=_congr (g (suc i) (get? v i)) _ _ (λ a. assign_loop-cons g x left (suc i) (put v i a))
      ∙ sym (>>=_assoc (g (suc i) (get? v i)) _ _)

  assign_loop-each :
      {n : ℕ} (g : ℕ → Option A → Option A) (v : Vec A n)
      → assign_loop (λ i u. g i (get? u i)) n 0 v ≡ each g v
  unfolding assign_loop
  assign_loop-each g nil = refl
  assign_loop-each {n} g (cons x v) = >>=_congr (g 0 (some x)) _ _ λ z.
      assign_loop-cons g z _ 0 v
      ∙ ap (λ o. o >>= λ u. some (cons z u)) (assign_loop-each (λ i. g (suc i)) v)

  each-zip :
      {B C : Type 0} {n : ℕ} (f : B → C → Option A) (v : Vec B n) (w : Vec C n) (r : Vec A n)
      → each (λ i o. get? v i >>= λ a. get? w i >>= λ b. f a b) r ≡ zip_with? f v w
  each-zip f nil nil nil = refl
  each-zip f (cons a v) (cons b w) (cons x r) =
      >>=_congr (f a b) _ _ λ z. ap (λ o. o >>= λ u. some (cons z u)) (each-zip f v w r)

  each-map :
      {B : Type 0} {n : ℕ} (f : B → Option A) (v : Vec B n) (r : Vec A n)
      → each (λ i o. get? v i >>= f) r ≡ map? f v
  each-map f nil nil = refl
  each-map f (cons a v) (cons x r) =
      >>=_congr (f a) _ _ λ z. ap (λ o. o >>= λ u. some (cons z u)) (each-map f v r)

  each-own : {n : ℕ} (f : A → Option A) (v : Vec A n) → each (λ i o. o >>= f) v ≡ map? f v
  each-own f nil = refl
  each-own f (cons a v) =
      >>=_congr (f a) _ _ λ z. ap (λ o. o >>= λ u. some (cons z u)) (each-own f v)

  each-own_self :
      {n : ℕ} (f : A → A → Option A) (v : Vec A n)
      → each (λ i o. o >>= λ a. o >>= λ b. f a b) v ≡ zip_with? f v v
  each-own_self f nil = refl
  each-own_self f (cons a v) =
      >>=_congr (f a a) _ _ λ z. ap (λ o. o >>= λ u. some (cons z u)) (each-own_self f v)

  each-own_zip :
      {B : Type 0} {n : ℕ} (f : A → B → Option A) (v : Vec A n) (w : Vec B n)
      → each (λ i o. o >>= λ a. get? w i >>= λ b. f a b) v ≡ zip_with? f v w
  each-own_zip f nil nil = refl
  each-own_zip f (cons a v) (cons b w) =
      >>=_congr (f a b) _ _ λ z. ap (λ o. o >>= λ u. some (cons z u)) (each-own_zip f v w)

-- Where the value is the first element itself, the others are combined with the new one.
module _ {A : Type 0} (op : A → A → Option A) where
  assign_loop-rest :
      {n : ℕ} (z : A) (left i : ℕ) (v : Vec A n)
      → assign_loop (λ i u. get? u i >>= λ a. get? u 0 >>= λ b. op a b) left (suc i) (cons z v)
        ≡ (assign_loop (λ i u. get? u i >>= λ a. op a z) left i v >>= λ u. some (cons z u))
  unfolding assign_loop
  assign_loop-rest z zero i v = refl
  assign_loop-rest z (suc left) i v =
      >>=_congr (get? v i >>= λ a. op a z) _ _ (λ a. assign_loop-rest z left (suc i) (put v i a))
      ∙ sym (>>=_assoc (get? v i >>= λ a. op a z) _ _)

  assign_loop-first :
      {n : ℕ} (k : A) (v : Vec A n)
      → assign_loop (λ i u. get? u i >>= λ a. get? u 0 >>= λ b. op a b) (suc n) 0 (cons k v)
        ≡ (do z ← op k k; u ← map? (λ a. op a z) v; some (cons z u))
  unfolding assign_loop
  assign_loop-first k v = >>=_congr (op k k) _ _ λ z.
      assign_loop-rest z _ 0 v
      ∙ ap (λ o. o >>= λ u. some (cons z u))
          (assign_loop-each (λ i o. o >>= λ a. op a z) v ∙ each-own (λ a. op a z) v)

-- For any element operator: the operator between vectors and the compound assignment with another
-- vector apply it to the elements at each index, left to right, and the compound assignment of a
-- vector to itself does so with its old elements twice; with a value on the right that is no
-- element of the vector, both apply it to each element and the value; the compound assignment of
-- a vector with its own first element on the right combines that element with itself, and then
-- each other element with the new first one; with a value on the left the operator, too, has the
-- element on the left and the value on the right.
pub binary-zip_with? :
    {A : Type 0} {n : ℕ} (op : A → A → Option A) (lhs rhs r : Vec A n) (k : A)
    → (binary op lhs rhs r ≡ zip_with? op lhs rhs)
      × (assign op lhs rhs ≡ zip_with? op lhs rhs)
      × (assign_self op lhs ≡ zip_with? op lhs lhs)
      × (binary_value op lhs k r ≡ map? (λ a. op a k) lhs)
      × (assign_value op lhs (outside k) ≡ map? (λ a. op a k) lhs)
      × (assign_value op (cons k lhs) (element 0)
          ≡ (do z ← op k k; u ← map? (λ a. op a z) lhs; some (cons z u)))
      × (value_binary op k rhs r ≡ map? (λ b. op b k) rhs)
unfolding binary assign assign_self binary_value assign_value value_binary read
binary-zip_with? op lhs rhs r k = (
  assign_loop-each (λ i o. get? lhs i >>= λ a. get? rhs i >>= λ b. op a b) r
      ∙ each-zip op lhs rhs r,
  assign_loop-each (λ i o. o >>= λ a. get? rhs i >>= λ b. op a b) lhs ∙ each-own_zip op lhs rhs,
  assign_loop-each (λ i o. o >>= λ a. o >>= λ b. op a b) lhs ∙ each-own_self op lhs,
  assign_loop-each (λ i o. get? lhs i >>= λ a. op a k) r ∙ each-map (λ a. op a k) lhs r,
  assign_loop-each (λ i o. o >>= λ a. op a k) lhs ∙ each-own (λ a. op a k) lhs,
  assign_loop-first op k lhs,
  assign_loop-each (λ i o. get? rhs i >>= λ b. op b k) r ∙ each-map (λ b. op b k) rhs r,
)

-- The comparisons between vectors, with a value on the right, and with a value on the left.
pub boolean-zip_with? :
    {A B : Type 0} {n : ℕ} (op : A → A → Bool) (ret : Bool → B) (lhs rhs : Vec A n) (r : Vec B n)
    (k : A)
    → (boolean op ret lhs rhs r ≡ zip_with? (λ a b. some (ret (op a b))) lhs rhs)
      × (boolean_value op ret lhs k r ≡ map? (λ a. some (ret (op a k))) lhs)
      × (value_boolean op ret k rhs r ≡ map? (λ b. some (ret (op k b))) rhs)
unfolding boolean boolean_value value_boolean
boolean-zip_with? op ret lhs rhs r k = (
  assign_loop-each (λ i o. get? lhs i >>= λ a. get? rhs i >>= λ b. some (ret (op a b))) r
      ∙ each-zip (λ a b. some (ret (op a b))) lhs rhs r,
  assign_loop-each (λ i o. get? lhs i >>= λ a. some (ret (op a k))) r
      ∙ each-map (λ a. some (ret (op a k))) lhs r,
  assign_loop-each (λ i o. get? rhs i >>= λ b. some (ret (op k b))) r
      ∙ each-map (λ b. some (ret (op k b))) rhs r,
)

pub gen_func-map? :
    {A B : Type 0} {n : ℕ} (f : A → Option B) (x : Vec A n) (r : Vec B n)
    → gen_func f x r ≡ map? f x
unfolding gen_func
gen_func-map? f x r = assign_loop-each (λ i o. get? x i >>= f) r ∙ each-map f x r

pub gen_func2-zip_with? :
    {A B : Type 0} {n : ℕ} (f : A → A → Option B) (x y : Vec A n) (r : Vec B n)
    → gen_func2 f x y r ≡ zip_with? f x y
unfolding gen_func2
gen_func2-zip_with? f x y r =
    assign_loop-each (λ i o. get? x i >>= λ a. get? y i >>= λ b. f a b) r ∙ each-zip f x y r

-- ===== src/ParallelFor/Box.antt =====
-- The nested loops of `parallel_for` as one walk over a list of indices.
use neo_sycl.Prelude.{
  ℕ, zero, suc, ◌+◌, ◌-◌, ◌≡◌, refl, ap, ◌∙◌, sym, Option, none, some, List, [], ◌∷◌, ◌++◌, map,
  ◌>>=◌, >>=_assoc, >>=_congr, nil, cons,
}
use neo_sycl.ArrayNd.{ArrayNd, array_nd_1, array_nd_2, array_nd_3, at}
use neo_sycl.Range.{Range}
use neo_sycl.Range
use neo_sycl.Id
use neo_sycl.Id.{IdNd, id_1, id_2, id_3}
use neo_sycl.Item.{Item, item}
use neo_sycl.ParallelFor.{
  for_loop, parallel_for_id_1, parallel_for_id_2, parallel_for_id_3, parallel_for_item_1,
  parallel_for_item_2, parallel_for_item_3,
}

-- One call of `f` after another, until one throws.
abbrev pub run_all : {A S : Type 0} → (A → S → Option S) → List A → S → Option S
run_all f [] s = some s
run_all f (x ∷ xs) s = f x s >>= run_all f xs

abbrev pub gather : {A : Type 0} → (ℕ → List A) → ℕ → ℕ → List A
gather f zero x = []
gather f (suc left) x = f x ++ gather f left (x + 1)

-- The indices from `lo` to below `hi`, the first dimension outermost.
abbrev pub box : {n : ℕ} → ArrayNd n → ArrayNd n → List (ArrayNd n)
box nil nil = nil ∷ []
box (cons lo l) (cons hi h) = gather (λ x. map (λ v. cons x v) (box l h)) (hi - lo) lo

module _ {A S : Type 0} (f : A → S → Option S) where
  run_all-append :
      (xs ys : List A) (s : S) → run_all f (xs ++ ys) s ≡ (run_all f xs s >>= run_all f ys)
  run_all-append [] ys s = refl
  run_all-append (x ∷ xs) ys s =
      >>=_congr (f x s) _ _ (run_all-append xs ys) ∙ sym (>>=_assoc (f x s) _ _)

  for_loop-gather :
      (body : ℕ → S → Option S) (points : ℕ → List A)
      → ((x : ℕ) (s : S) → body x s ≡ run_all f (points x) s)
      → (left x : ℕ) (s : S) → for_loop left x body s ≡ run_all f (gather points left x) s
  unfolding for_loop
  for_loop-gather body points same zero x s = refl
  for_loop-gather body points same (suc left) x s =
      >>=_congr (body x s) _ _ (for_loop-gather body points same left (x + 1))
      ∙ ap (λ o. o >>= run_all f (gather points left (x + 1))) (same x s)
      ∙ sym (run_all-append (points x) _ s)

module _ {A B S : Type 0} (f : B → S → Option S) (g : A → B) where
  run_all-map : (xs : List A) (s : S) → run_all f (map g xs) s ≡ run_all (λ a. f (g a)) xs s
  run_all-map [] s = refl
  run_all-map (x ∷ xs) s = >>=_congr (f (g x) s) _ _ (run_all-map xs)

module _ {S : Type 0} where
  -- One loop more: the walk over the inner box, at each index of the outer dimension.
  for_loop-box :
      {n : ℕ} (f : ArrayNd (suc n) → S → Option S) (lo hi : ℕ) (l h : ArrayNd n)
      (body : ℕ → S → Option S)
      → ((x : ℕ) (s : S) → body x s ≡ run_all (λ v. f (cons x v)) (box l h) s)
      → (s : S) → for_loop (hi - lo) lo body s ≡ run_all f (box (cons lo l) (cons hi h)) s
  for_loop-box f lo hi l h body inner s =
      for_loop-gather f body _ (λ x t. inner x t ∙ sym (run_all-map f (λ v. cons x v) (box l h) t))
        (hi - lo) lo s

  one_point :
      {n : ℕ} (f : ArrayNd n → S → Option S) (v : ArrayNd n) (s : S) → f v s ≡ run_all f (v ∷ []) s
  one_point f v s = go (f v s)
    where
      go : (o : Option S) → o ≡ (o >>= λ t. some t)
      go none = refl
      go (some t) = refl

  -- The three loops, over any function of the index.
  loop_1 :
      (f : ArrayNd 1 → S → Option S) (o r : ℕ) (s : S)
      → for_loop (r - o) o (λ x. f (cons x nil)) s ≡ run_all f (box (cons o nil) (cons r nil)) s
  loop_1 f o r = for_loop-box f o r nil nil _ λ x t. one_point (λ v. f (cons x v)) nil t

  loop_2 :
      (f : ArrayNd 2 → S → Option S) (o p r q : ℕ) (s : S)
      → for_loop (r - o) o (λ x. for_loop (q - p) p λ y. f (cons x (cons y nil))) s
        ≡ run_all f (box (cons o (cons p nil)) (cons r (cons q nil))) s
  loop_2 f o p r q =
      for_loop-box f o r (cons p nil) (cons q nil) _ λ x. loop_1 (λ v. f (cons x v)) p q

  loop_3 :
      (f : ArrayNd 3 → S → Option S) (o p k r q l : ℕ) (s : S)
      → for_loop
          (r - o)
          o
          (λ x. for_loop (q - p) p λ y. for_loop (l - k) k λ z. f (cons x (cons y (cons z nil))))
          s
        ≡ run_all f (box (cons o (cons p (cons k nil))) (cons r (cons q (cons l nil)))) s
  loop_3 f o p k r q l =
      for_loop-box f o r (cons p (cons k nil)) (cons q (cons l nil)) _
        λ x. loop_2 (λ v. f (cons x v)) p k q l

  id_loops_1 :
      (r o : ArrayNd 1) (func : IdNd 1 → S → Option S) (s : S)
      → parallel_for_id_1 (record { dims = r }) func (record { dims = o }) s
        ≡ run_all (λ v. func (record { dims = v })) (box o r) s
  unfolding parallel_for_id_1 Id.get Range.get at id_1 array_nd_1
  id_loops_1 (cons r nil) (cons o nil) func s = loop_1 (λ v. func (record { dims = v })) o r s

  id_loops_2 :
      (r o : ArrayNd 2) (func : IdNd 2 → S → Option S) (s : S)
      → parallel_for_id_2 (record { dims = r }) func (record { dims = o }) s
        ≡ run_all (λ v. func (record { dims = v })) (box o r) s
  unfolding parallel_for_id_2 Id.get Range.get at id_2 array_nd_2
  id_loops_2 (cons r (cons q nil)) (cons o (cons p nil)) func s =
      loop_2 (λ v. func (record { dims = v })) o p r q s

  id_loops_3 :
      (r o : ArrayNd 3) (func : IdNd 3 → S → Option S) (s : S)
      → parallel_for_id_3 (record { dims = r }) func (record { dims = o }) s
        ≡ run_all (λ v. func (record { dims = v })) (box o r) s
  unfolding parallel_for_id_3 Id.get Range.get at id_3 array_nd_3
  id_loops_3 (cons r (cons q (cons l nil))) (cons o (cons p (cons k nil))) func s =
      loop_3 (λ v. func (record { dims = v })) o p k r q l s

  item_loops_1 :
      (r o : ArrayNd 1) (func : Item 1 → S → Option S) (s : S)
      → parallel_for_item_1 (record { dims = r }) func (record { dims = o }) s
        ≡ run_all (λ v. func (item (record { dims = r }) v o)) (box o r) s
  unfolding parallel_for_item_1 Id.get Range.get at array_nd_1
  item_loops_1 (cons r nil) (cons o nil) func s = loop_1 (λ v. func (item _ v _)) o r s

  item_loops_2 :
      (r o : ArrayNd 2) (func : Item 2 → S → Option S) (s : S)
      → parallel_for_item_2 (record { dims = r }) func (record { dims = o }) s
        ≡ run_all (λ v. func (item (record { dims = r }) v o)) (box o r) s
  unfolding parallel_for_item_2 Id.get Range.get at array_nd_2
  item_loops_2 (cons r (cons q nil)) (cons o (cons p nil)) func s =
      loop_2 (λ v. func (item _ v _)) o p r q s

  item_loops_3 :
      (r o : ArrayNd 3) (func : Item 3 → S → Option S) (s : S)
      → parallel_for_item_3 (record { dims = r }) func (record { dims = o }) s
        ≡ run_all (λ v. func (item (record { dims = r }) v o)) (box o r) s
  unfolding parallel_for_item_3 Id.get Range.get at array_nd_3
  item_loops_3 (cons r (cons q (cons l nil))) (cons o (cons p (cons k nil))) func s =
      loop_3 (λ v. func (item _ v _)) o p k r q l s

  -- The `id` overloads, in one, two and three dimensions, do what one walk over the list of the
  -- indices from `offset` to below the range does, the first dimension outermost, which calls
  -- the kernel at each and stops at the first exception.
  pub parallel_for_id-run_all :
      ((r : Range 1) (o : IdNd 1) (func : IdNd 1 → S → Option S) (s : S)
        → parallel_for_id_1 r func o s
          ≡ run_all (λ v. func (record { dims = v })) (box o.dims r.dims) s)
      × ((r : Range 2) (o : IdNd 2) (func : IdNd 2 → S → Option S) (s : S)
          → parallel_for_id_2 r func o s
            ≡ run_all (λ v. func (record { dims = v })) (box o.dims r.dims) s)
      × ((r : Range 3) (o : IdNd 3) (func : IdNd 3 → S → Option S) (s : S)
          → parallel_for_id_3 r func o s
            ≡ run_all (λ v. func (record { dims = v })) (box o.dims r.dims) s)
  parallel_for_id-run_all = (
    λ r o. id_loops_1 r.dims o.dims,
    λ r o. id_loops_2 r.dims o.dims,
    λ r o. id_loops_3 r.dims o.dims,
  )

  -- The `item` overloads, in one, two and three dimensions, do what one walk over the list of
  -- the indices from `offset` to below the range does, which hands the kernel the item of the
  -- range, the index and the offset, and stops at the first exception.
  pub parallel_for_item-run_all :
      ((r : Range 1) (o : IdNd 1) (func : Item 1 → S → Option S) (s : S)
        → parallel_for_item_1 r func o s
          ≡ run_all (λ v. func (item r v o.dims)) (box o.dims r.dims) s)
      × ((r : Range 2) (o : IdNd 2) (func : Item 2 → S → Option S) (s : S)
          → parallel_for_item_2 r func o s
            ≡ run_all (λ v. func (item r v o.dims)) (box o.dims r.dims) s)
      × ((r : Range 3) (o : IdNd 3) (func : Item 3 → S → Option S) (s : S)
          → parallel_for_item_3 r func o s
            ≡ run_all (λ v. func (item r v o.dims)) (box o.dims r.dims) s)
  parallel_for_item-run_all = (
    λ r o. item_loops_1 r.dims o.dims,
    λ r o. item_loops_2 r.dims o.dims,
    λ r o. item_loops_3 r.dims o.dims,
  )

-- ===== src/ParallelFor/Visits.antt =====
-- Which indices the kernels of detail/handler.hpp see.
use neo_sycl.Prelude.{
  ℕ, zero, suc, ◌+◌, ◌-◌, ◌*◌, ◌≡◌, refl, ap, ◌∙◌, Bool, true, ◌&&◌, Option, some, arith, List, [],
  ◌∷◌, ◌++◌, map, nil, cons, length, length-append, leb, ltb, if◌then◌else◌, ◌==◌,
}
use neo_sycl.ArrayNd.{ArrayNd}
use neo_sycl.ArrayNd
use neo_sycl.Range.{Range}
use neo_sycl.Id.{IdNd}
use neo_sycl.Id
use neo_sycl.ParallelFor.{parallel_for_id_1, parallel_for_id_2, parallel_for_id_3}
use neo_sycl.ParallelFor.Box.{run_all, gather, box, parallel_for_id-run_all}

-- `lo[i] <= v[i] && v[i] < hi[i]` in every dimension.
abbrev pub inside : {n : ℕ} → ArrayNd n → ArrayNd n → ArrayNd n → Bool
inside nil nil nil = true
inside (cons lo l) (cons hi h) (cons x v) = (leb lo x && ltb x hi) && inside l h v

-- The number of work items.
abbrev pub volume : {n : ℕ} → ArrayNd n → ArrayNd n → ℕ
volume nil nil = 1
volume (cons lo l) (cons hi h) = (hi - lo) * volume l h

-- How often `v` stands in a list.
abbrev pub occurs : {n : ℕ} → ArrayNd n → List (ArrayNd n) → ℕ
occurs v [] = 0
occurs v (w ∷ ws) = (if ArrayNd.eq v w then 1 else 0) + occurs v ws

occurs-append :
    {n : ℕ} (v : ArrayNd n) (xs ys : List (ArrayNd n))
    → occurs v (xs ++ ys) ≡ occurs v xs + occurs v ys
occurs-append v [] ys = omega arith
occurs-append v (x ∷ xs) ys = omega (arith, occurs-append v xs ys)

occurs-map_cons :
    {n : ℕ} (x y : ℕ) (v : ArrayNd n) (ws : List (ArrayNd n))
    → occurs (cons x v) (map (λ w. cons y w) ws) ≡ (if x == y then occurs v ws else 0)
unfolding ArrayNd.eq
occurs-map_cons x y v [] = ground arith
occurs-map_cons x y v (w ∷ ws) = ground (arith, occurs-map_cons x y v ws)

occurs-gather :
    {n : ℕ} (x : ℕ) (v : ArrayNd n) (ws : List (ArrayNd n)) (left y : ℕ)
    → occurs (cons x v) (gather (λ z. map (λ w. cons z w) ws) left y)
      ≡ (if leb y x && ltb x (y + left) then occurs v ws else 0)
occurs-gather x v ws zero y = ground arith
occurs-gather x v ws (suc left) y = ground (
  arith,
  occurs-append (cons x v) (map (λ w. cons y w) ws)
      (gather (λ z. map (λ w. cons z w) ws) left (y + 1)),
  occurs-map_cons x y v ws,
  occurs-gather x v ws left (y + 1),
)

pub occurs-box :
    {n : ℕ} (lo hi v : ArrayNd n) → occurs v (box lo hi) ≡ (if inside lo hi v then 1 else 0)
unfolding ArrayNd.eq
occurs-box nil nil nil = refl
occurs-box (cons lo l) (cons hi h) (cons x v) =
    ground (arith, occurs-gather x v (box l h) (hi - lo) lo, occurs-box l h v)

length-map : {n : ℕ} (y : ℕ) (ws : List (ArrayNd n)) → length (map (λ w. cons y w) ws) ≡ length ws
length-map y [] = refl
length-map y (w ∷ ws) = ap suc (length-map y ws)

length-gather :
    {n : ℕ} (ws : List (ArrayNd n)) (left y : ℕ)
    → length (gather (λ z. map (λ w. cons z w) ws) left y) ≡ left * length ws
length-gather ws zero y = omega arith
length-gather ws (suc left) y = grind (
  arith,
  length-append (map (λ w. cons y w) ws) (gather (λ z. map (λ w. cons z w) ws) left (y + 1)),
  length-map y ws,
  length-gather ws left (y + 1),
)

pub length-box : {n : ℕ} (lo hi : ArrayNd n) → length (box lo hi) ≡ volume lo hi
length-box nil nil = refl
length-box (cons lo l) (cons hi h) =
    length-gather (box l h) (hi - lo) lo ∙ ap (λ t. (hi - lo) * t) (length-box l h)

-- Two kernels: one counts the calls at the index `p`, one counts all calls.
abbrev pub at_index : {n : ℕ} → IdNd n → IdNd n → ℕ → Option ℕ
at_index p q c = some ((if Id.eq p q then 1 else 0) + c)

abbrev pub every_call : {n : ℕ} → IdNd n → ℕ → Option ℕ
every_call q c = some (suc c)

run_all-at_index :
    {n : ℕ} (p : IdNd n) (vs : List (ArrayNd n)) (c : ℕ)
    → run_all (λ v. at_index p (record { dims = v })) vs c ≡ some (occurs p.dims vs + c)
unfolding Id.eq
run_all-at_index p [] c = ground arith
run_all-at_index p (v ∷ vs) c = run_all-at_index p vs _ ∙ ap some (omega arith)

run_all-every_call :
    {n : ℕ} (vs : List (ArrayNd n)) (c : ℕ)
    → run_all (λ v. every_call {n = n} (record { dims = v })) vs c ≡ some (length vs + c)
run_all-every_call [] c = ground arith
run_all-every_call (v ∷ vs) c = run_all-every_call vs (suc c) ∙ ap some (omega arith)

counts_box :
    {n : ℕ} (o r : ArrayNd n) (p : IdNd n)
    → (run_all (λ v. at_index p (record { dims = v })) (box o r) 0
        ≡ some (if inside o r p.dims then 1 else 0))
      × (run_all (λ v. every_call {n = n} (record { dims = v })) (box o r) 0 ≡ some (volume o r))
counts_box o r p = (
  run_all-at_index p (box o r) 0 ∙ ap some (omega (arith, occurs-box o r p.dims)),
  run_all-every_call (box o r) 0 ∙ ap some (omega (arith, length-box o r)),
)

-- In one, two and three dimensions, from a count of 0: a kernel that counts its calls at an index
-- `p` counts one if `p` lies at or after `offset` and before the range in every dimension, and
-- else none; a kernel that counts all its calls counts the product, over the dimensions, of the
-- range less the offset, stopped at 0.
pub parallel_for_visits :
    ((r : Range 1) (o p : IdNd 1)
      → (parallel_for_id_1 r (at_index p) o 0 ≡ some (if inside o.dims r.dims p.dims then 1 else 0))
        × (parallel_for_id_1 r every_call o 0 ≡ some (volume o.dims r.dims)))
    × ((r : Range 2) (o p : IdNd 2)
        → (parallel_for_id_2 r (at_index p) o 0
            ≡ some (if inside o.dims r.dims p.dims then 1 else 0))
          × (parallel_for_id_2 r every_call o 0 ≡ some (volume o.dims r.dims)))
    × ((r : Range 3) (o p : IdNd 3)
        → (parallel_for_id_3 r (at_index p) o 0
            ≡ some (if inside o.dims r.dims p.dims then 1 else 0))
          × (parallel_for_id_3 r every_call o 0 ≡ some (volume o.dims r.dims)))
parallel_for_visits =
    let (one, two, three) = parallel_for_id-run_all in
    (
      λ r o p.
          let (at_p, all) = counts_box o.dims r.dims p in
          (one r o (at_index p) 0 ∙ at_p, one r o every_call 0 ∙ all),
      λ r o p.
          let (at_p, all) = counts_box o.dims r.dims p in
          (two r o (at_index p) 0 ∙ at_p, two r o every_call 0 ∙ all),
      λ r o p.
          let (at_p, all) = counts_box o.dims r.dims p in
          (three r o (at_index p) 0 ∙ at_p, three r o every_call 0 ∙ all),
    )

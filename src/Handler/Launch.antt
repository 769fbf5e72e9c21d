-- ===== src/Handler/Launch.antt =====
-- How a command group is started: `single_task`, `parallel_for` and `run` of handler.hpp, and the two
-- `set_range` templates of detail/program.hpp, which hand the index space to the device.
use mathlib.Core.Option.{get_or}
use neo_sycl.Prelude.{
  ℕ, zero, suc, ◌+◌, ◌≤◌, ◌≡◌, refl, ap, ◌∙◌, Bool, not, Option, none, some, List, [], ◌∷◌, set,
  if◌then◌else◌, arith, Vec, nil, cons, get?,
}
use neo_sycl.Outcome.{Outcome, throws, unimplemented}
use neo_sycl.Range
use neo_sycl.Range.{Range}
use neo_sycl.Id
use neo_sycl.Id.{IdNd}
use neo_sycl.ArrayNd.{at}
use neo_sycl.ParallelFor.{single_task, parallel_for_id_1, parallel_for_id_2, parallel_for_id_3}

-- `for (size_t idx(first); idx != first + left; idx++) sz[idx] = f[idx]`.
abbrev copy_from : (ℕ → ℕ) → ℕ → ℕ → List ℕ → List ℕ
copy_from f idx zero sz = sz
copy_from f idx (suc left) sz = copy_from f (idx + 1) left (set sz idx (f idx))

abbrev initial : List ℕ
initial = 1 ∷ 1 ∷ 1 ∷ 0 ∷ 0 ∷ 0 ∷ []

-- `set_range(kernel, range)`: the six numbers. `stray` gives what is found past the end of the
-- elements of an array.
unfoldable pub set_range : {n : ℕ} → (ℕ → ℕ) → Range n → List ℕ
unfolding Range.get
set_range {n} stray r = copy_from (λ idx. get_or (Range.get r idx) (stray idx)) 0 n initial

-- `set_range(kernel, range, id)`, whose second loop reads `i[idx]` with `idx` from 3.
unfoldable pub set_range_offset : {n : ℕ} → (ℕ → ℕ) → Range n → IdNd n → List ℕ
unfolding set_range Id.get
set_range_offset {n} stray r i =
    copy_from (λ idx. get_or (Id.get i idx) (stray idx)) 3 n (set_range stray r)

module _ {S : Type 0} (device_is_host : Bool) where
  -- Off the host, `single_task` and `parallel_for` return at once.
  abbrev on_host : (S → Option S) → S → Option S
  on_host body s = if not device_is_host then some s else body s

  unfoldable pub handler_single_task : (S → Option S) → S → Option S
  unfolding single_task
  handler_single_task func = on_host (single_task func)

  unfoldable pub handler_parallel_for_1 : Range 1 → IdNd 1 → (IdNd 1 → S → Option S) → S → Option S
  handler_parallel_for_1 r offset func = on_host (parallel_for_id_1 r func offset)

  unfoldable pub handler_parallel_for_2 : Range 2 → IdNd 2 → (IdNd 2 → S → Option S) → S → Option S
  handler_parallel_for_2 r offset func = on_host (parallel_for_id_2 r func offset)

  unfoldable pub handler_parallel_for_3 : Range 3 → IdNd 3 → (IdNd 3 → S → Option S) → S → Option S
  handler_parallel_for_3 r offset func = on_host (parallel_for_id_3 r func offset)

-- `parallel_for(nd_range, ...)` and the two `parallel_for_work_group`.
unfoldable pub not_implemented : {S : Type 0} → S → Outcome S
not_implemented s = throws unimplemented

beyond : {A : Type 0} {n : ℕ} (v : Vec A n) (i : ℕ) → n ≤ i → get? v i ≡ none
beyond nil i h = refl
beyond (cons x v) zero h = absurd (omega arith)
beyond (cons x v) (suc i) h = beyond v i (omega arith)

copy_from-same :
    (f g : ℕ → ℕ) (first left : ℕ) (sz : List ℕ)
    → ((i : ℕ) → first ≤ i → f i ≡ g i)
    → copy_from f first left sz ≡ copy_from g first left sz
copy_from-same f g first zero sz h = refl
copy_from-same f g first (suc left) sz h =
    copy_from-same f g (first + 1) left (set sz first (f first)) (λ i le. h i (omega arith))
    ∙ ap (λ v. copy_from g (first + 1) left (set sz first v)) (h first (omega arith))

-- In up to three dimensions: the last three of the six numbers that `set_range` with an offset
-- makes are, as far as it writes them, what memory holds past the offset's elements; they do not
-- depend on the offset.
pub set_range_ignores_offset :
    {n : ℕ} (stray : ℕ → ℕ) (r : Range n) (i : IdNd n)
    → n ≤ 3
    → set_range_offset stray r i ≡ copy_from stray 3 n (set_range stray r)
unfolding set_range_offset Id.get at
set_range_ignores_offset {n} stray r i h =
    copy_from-same _ stray 3 n (set_range stray r)
      (λ idx le. ap (λ o. get_or o (stray idx)) (beyond i.dims idx (omega arith)))

-- ===== src/SyclBuffer/Ranged.antt =====
-- Accessors to a part of a buffer, and buffers over iterators.
use neo_sycl.Prelude.{
  ℕ, zero, suc, ◌+◌, ◌*◌, ◌/◌, ◌≤◌, ◌<◌, ◌≡◌, ◌↔◌, ◌⊎◌, inl, inr, refl, sym, ap, ◌∙◌, subst,
  Option-cases, false, some, arith,
}
use mathlib.Core.Option.{some-injective}
use native.Mathlib.Nat.{eq_of_mul-eq-mul_right, mul-le-mul, zero-div, div-one, div-lt_self}
use neo_sycl.ArrayNd
use neo_sycl.SizeT.{IsSizeT}
use neo_sycl.Outcome.{done, >>=-eq-done, done-injective}
use neo_sycl.Access.{Mode}
use neo_sycl.Backend.{Backend}
use neo_sycl.Range.{Range, range_1, range_2}
use neo_sycl.Id.{IdNd, id_2}
use neo_sycl.Buffer.{buffer_container, DevicePtr, find}
use neo_sycl.Handler.{World, State, Acc, alloc_mem_, with_container}
use neo_sycl.Handler.Mapping.{Covers, mapped_buffer_locked}
use neo_sycl.Handler.Pointers.{alloc_mem_ptr}
use neo_sycl.Accessor.{id2index}
use neo_sycl.Accessor.Layout.{id2index_2}
use neo_sycl.SyclBuffer.{
  BufferNd, Accessor, accessor, accessor_range, accessor_at, as_acc, alloc_, accessor_handler_range,
  get_access_range, buffer_of_iterators, get_count,
}

module _ (b : Backend) (hndl : ℕ) where
  -- What `alloc_` does, when it completes: one request, for the accessor's container.
  alloc_inv :
      {n : ℕ} (a a' : Accessor n) (m : Mode) (st st' : State)
      → alloc_ b hndl a m st ≡ done (a', st')
      → (p : ℕ) × (c : Acc) × (alloc_mem_ b hndl (as_acc a) m st ≡ done (p, c, st'))
        × (a'.container ≡ a.container)
  unfolding alloc_
  alloc_inv a a' m st st' h =
      let ((p, c, st2), asked, built) = >>=-eq-done (alloc_mem_ b hndl (as_acc a) m st) _ h in
      let same = done-injective built in
      (
        p,
        c,
        asked ∙ ap (λ s. done (p, c, s)) (ap (λ r. r.1) same),
        ap (λ r. r.0.container) (sym same),
      )

  -- After a request off the host the map has an entry.
  entry :
      (a a' : Acc) (m : Mode) (st st' : State) (p : ℕ)
      → b.is_host ≡ false
      → alloc_mem_ b hndl a m st ≡ done (p, a', st')
      → (d : DevicePtr) × (find hndl (st'.world.containers a.container).devices ≡ some d)
  entry a a' m st st' p device called =
      elim (Option-cases (find hndl (st'.world.containers a.container).devices)) [
        | inl e ↦ cc (e, (alloc_mem_ptr b hndl a a' m st st' p device called).1)
        | inr found ↦ found
      ]

  -- Off the host: `get_access` with a handler and a range, when it completes, leaves in the
  -- handler's `acc_` an entry for the buffer's container, and one that is no `read` entry if
  -- the request's mode is not `read`, whether or not the buffer had a device copy before.
  pub get_access_range-Covers :
      {n : ℕ} (buf : BufferNd n) (r : Range n) (o : IdNd n) (m : Mode) (st st' : State)
      (a : Accessor n)
      → b.is_host ≡ false
      → get_access_range b hndl buf r o m st ≡ done (a, st')
      → Covers b hndl buf.container m st'.acc
  unfolding get_access_range accessor_handler_range accessor_range
  get_access_range-Covers buf r o m st st' a device h =
      let ((a1, st1), first, second) =
        >>=-eq-done (accessor_handler_range b hndl buf r o m st) _ h in
      let (p, c, asked, kept) = alloc_inv (accessor_range buf r o) a1 m st st1 first in
      let (q, e, again, _) = alloc_inv a1 a m st1 st' second in
      let (d, found) = entry (as_acc (accessor_range buf r o)) c m st st1 p device asked in
      subst (λ x. Covers b hndl x m st'.acc) kept
        (mapped_buffer_locked b hndl (as_acc a1) e m st1 st' d q device
          (subst (λ x. find hndl (st1.world.containers x).devices ≡ some d) (sym kept) found) again)

same_stride : (i j x X : ℕ) → (i + x * j ≡ i + X * j) ↔ ((j ≡ 0) ⊎ (x ≡ X))
same_stride i zero x X = (λ e. inl refl, λ e. omega arith)
same_stride i (suc j) x X = (
  λ e. inr (eq_of_mul-eq-mul_right (suc j) (omega arith) x X (omega arith)),
  λ e. elim e [ inl z ↦ absurd (omega arith) | inr z ↦ ap (λ t. i + t * suc j) z ],
)

-- For a two-dimensional buffer whose number of elements fits `size_t`, and a range within that of
-- the buffer: on the host, an accessor to the range and one to the whole buffer name the same
-- element at an index `(i, j)` below the range exactly where `j` is 0 or the range has the
-- buffer's first extent.
pub ranged_stride :
    (stray X Y x y i j : ℕ) (buf : BufferNd 2) (o : IdNd 2)
    → buf.buffer_range ≡ range_2 X Y
    → IsSizeT (X * Y)
    → x ≤ X
    → y ≤ Y
    → i < x
    → j < y
    → (accessor_at stray (accessor_range buf (range_2 x y) o) (id_2 i j)
        ≡ accessor_at stray (accessor buf) (id_2 i j))
      ↔ ((j ≡ 0) ⊎ (x ≡ X))
unfolding accessor_at accessor_range accessor
ranged_stride stray X Y x y i j buf o whole fits wide high p q =
    let smaller : x * y ≤ X * Y = mul-le-mul wide high in
    let part = (id2index_2 stray x y i j i j (omega arith) p q p q).0 in
    let full =
      ap (λ r. id2index stray r (id_2 i j)) whole
      ∙ (id2index_2 stray X Y i j i j fits (omega arith) (omega arith) (omega arith)
          (omega arith)).0 in
    let (to, from) = same_stride i j x X in
    (λ e. to (some-injective _ _ (sym part ∙ e ∙ full)), λ e. part ∙ ap some (from e) ∙ sym full)

quotient_same : (n s : ℕ) → 0 < s → (n / s ≡ n) ↔ ((s ≡ 1) ⊎ (n ≡ 0))
quotient_same zero s h = (λ e. inr refl, λ e. zero-div s)
quotient_same (suc n) zero h = absurd (omega arith)
quotient_same (suc n) (suc zero) h = (λ e. inl refl, λ e. div-one (suc n))
quotient_same (suc n) (suc (suc s)) h =
    let less : suc n / suc (suc s) < suc n = div-lt_self (omega arith) (omega arith) in
    (
      λ e. absurd (omega arith),
      λ e. elim e [ inl z ↦ absurd (omega arith) | inr z ↦ absurd (omega arith) ],
    )

-- A buffer over two iterators that are `n` elements apart, of elements of `s` bytes, is made, and
-- has `n / s` elements; these are `n` exactly if `s` is 1 or `n` is 0.
pub buffer_of_iterators_count :
    (first n s c : ℕ) (w : World)
    → 0 < s
    → (b : BufferNd 1) × (w' : World) × (buffer_of_iterators first n s c w ≡ done (b, w'))
      × (get_count b ≡ some (n / s))
      × ((get_count b ≡ some n) ↔ ((s ≡ 1) ⊎ (n ≡ 0)))
unfolding buffer_of_iterators get_count ArrayNd.get_liner ArrayNd.array_nd_1 ArrayNd.at
    buffer_container
buffer_of_iterators_count first n s c w pos =
    let (to, from) = quotient_same n s pos in
    (
      record { buffer_range = range_1 (n / s); element_size = s; container = c },
      with_container c (buffer_container first s (n / s)) w,
      refl,
      refl,
      (λ e. to (some-injective _ _ e), λ e. ap some (from e)),
    )

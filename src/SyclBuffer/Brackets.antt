-- ===== src/SyclBuffer/Brackets.antt =====
-- `operator[]` of accessor.hpp on numbers, which goes to the container and its range; `get_access`
-- of buffer.hpp for the host; `get_pointer`.
use neo_sycl.Prelude.{ℕ, ◌*◌, ◌≡◌, ◌≤◌, ◌<◌, ◌↔◌, ◌⊎◌, sym, ap, ◌∙◌, Option, some, arith}
use neo_sycl.SizeT.{IsSizeT}
use neo_sycl.Buffer
use neo_sycl.Range.{Range, range_2}
use neo_sycl.Id.{IdNd, id_2}
use neo_sycl.Handler.{World}
use neo_sycl.Container.{element_1, element_2, element_3}
use neo_sycl.Accessor.{id2index}
use neo_sycl.Accessor.Agreement.{element_2-id2index}
use neo_sycl.SyclBuffer.{BufferNd, Accessor, accessor, accessor_range, accessor_at}
use neo_sycl.SyclBuffer.Ranged.{ranged_stride}

unfoldable pub get_access_host : {n : ℕ} → BufferNd n → Accessor n
unfolding accessor
get_access_host b = accessor b

unfoldable pub get_access_host_range : {n : ℕ} → BufferNd n → Range n → IdNd n → Accessor n
unfolding accessor_range
get_access_host_range b r o = accessor_range b r o

unfoldable pub get_pointer : {n : ℕ} → Accessor n → World → ℕ
unfolding Buffer.get_raw_ptr
get_pointer a w = Buffer.get_raw_ptr (w.containers a.container)

-- `acc[i]`, `acc[i][j]` and `acc[i][j][k]` of an accessor to the buffer `b`, whose container has the
-- buffer's range.
unfoldable pub accessor_bracket_1 : BufferNd 1 → Accessor 1 → ℕ → Option ℕ
unfolding element_1
accessor_bracket_1 b a i = some (element_1 i)

unfoldable pub accessor_bracket_2 : BufferNd 2 → Accessor 2 → ℕ → ℕ → Option ℕ
unfolding element_2
accessor_bracket_2 b a i j = element_2 b.buffer_range.dims i j

unfoldable pub accessor_bracket_3 : BufferNd 3 → Accessor 3 → ℕ → ℕ → ℕ → Option ℕ
unfolding element_3
accessor_bracket_3 b a i j k = element_3 b.buffer_range.dims i j k

-- For a two-dimensional buffer whose number of elements fits `size_t`, a range within that of the
-- buffer, and `i` and `j` with the index `(j, i)` below the range: on the host, `acc[i][j]` of an
-- accessor to the whole buffer is the element that the accessor names at `(j, i)`; of an accessor
-- to the range it is so exactly where `i` is 0 or the range has the buffer's first extent.
pub accessor_bracket_2-accessor_at :
    (stray X Y x y i j : ℕ) (b : BufferNd 2) (o : IdNd 2)
    → b.buffer_range ≡ range_2 X Y
    → IsSizeT (X * Y)
    → x ≤ X
    → y ≤ Y
    → i < y
    → j < x
    → let part = get_access_host_range b (range_2 x y) o in
      (accessor_bracket_2 b (get_access_host b) i j
        ≡ accessor_at stray (get_access_host b) (id_2 j i))
      × ((accessor_bracket_2 b part i j ≡ accessor_at stray part (id_2 j i)) ↔ ((i ≡ 0) ⊎ (x ≡ X)))
unfolding accessor_bracket_2 get_access_host get_access_host_range accessor_at accessor_range
    accessor
accessor_bracket_2-accessor_at stray X Y x y i j b o whole fits wide high p q =
    let full : element_2 b.buffer_range.dims i j ≡ id2index stray b.buffer_range (id_2 j i) =
      ap (λ r. element_2 r.dims i j) whole
      ∙ element_2-id2index stray X Y i j fits (omega arith) (omega arith)
      ∙ ap (λ r. id2index stray r (id_2 j i)) (sym whole) in
    let (to, from) = ranged_stride stray X Y x y j i b o whole fits wide high q p in
    (full, (λ e. to (sym e ∙ full), λ e. full ∙ sym (from e)))

-- ===== src/Container/Copying.antt =====
-- What a copy of a container of detail/container/data_container_nd.hpp holds.
use neo_sycl.Prelude.{ℕ, ◌*◌, length, ◌^◌, ◌<◌, ◌≡◌, refl, sym, ◌≢◌, some, List, arith}
use neo_sycl.SizeT.{wrap}
use neo_sycl.ArrayNd.{get_liner}
use neo_sycl.Outcome.{done}
use neo_sycl.Memory.{update, malloc}
use neo_sycl.Container.Storage.{begin, DataContainerD, Store, with_uses, container_of_range, copy}
use neo_sycl.Memory.Blocks.{memcpy_whole}

-- The copy of a container whose memory is a block of as many bytes as its elements take, a number
-- that fits `size_t`, completes; the copy has the same range and a block of its own with the same
-- bytes, and no other block is changed.
pub copy-begin :
    {n : ℕ} (junk : ℕ → List ℕ) (element_size count : ℕ) (rhs : DataContainerD n) (st : Store)
    (bytes : List ℕ)
    → ((size : ℕ) → length (junk size) ≡ size)
    → get_liner rhs.range ≡ some count
    → element_size * count < 2 ^ 64
    → st.heap.block rhs.ptr ≡ some bytes
    → length bytes ≡ element_size * count
    → rhs.ptr ≢ st.heap.next
    → (c : DataContainerD n) × (st' : Store) × (copy junk element_size rhs st ≡ done (c, st'))
      × (c.range ≡ rhs.range)
      × (begin c ≢ begin rhs)
      × (st'.heap.block (begin c) ≡ some bytes)
      × ((p : ℕ) → p ≢ begin c → st'.heap.block p ≡ st.heap.block p)
unfolding copy container_of_range malloc begin
copy-begin {n} junk element_size count rhs st bytes sized er small eb lb apart =
    let size = element_size * count in
    let whole : wrap (element_size * count) ≡ size = omega (arith, small) in
    let h1 = (malloc junk size st.heap).1 in
    let c : DataContainerD n = record {
      range = rhs.range;
      ptr = st.heap.next;
      allocate_ptr = st.heap.next;
    } in
    let e_from : h1.block rhs.ptr ≡ some bytes = ground arith in
    let e_to : h1.block st.heap.next ≡ some (junk size) = ground arith in
    let moved =
      memcpy_whole st.heap.next rhs.ptr size h1 bytes (junk size) e_from e_to (λ e. apart (sym e))
        lb (sized size) in
    (
      c,
      record {
        heap = record h1 { block = update h1.block st.heap.next (some bytes) };
        uses = with_uses st.uses st.heap.next 1;
      },
      rw (er, whole, moved) refl,
      refl,
      λ e. apart (sym e),
      ground arith,
      λ p ne. ground arith,
    )

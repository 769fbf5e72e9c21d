-- ===== src/Container/Ownership.antt =====
-- Who owns the memory of the containers of detail/container/data_container_nd.hpp.
use neo_sycl.Prelude.{
  ℕ, ◌*◌, ◌≤◌, ◌<◌, ◌≡◌, refl, sym, ◌∙◌, subst, none, some, List, ◌∷◌, get_elem?, arith,
}
use neo_sycl.SizeT.{wrap}
use neo_sycl.ArrayNd.{ArrayNd, get_liner}
use neo_sycl.Outcome.{done, or_undefined, >>=-eq-done, done-injective}
use neo_sycl.Memory.{Heap, memcpy}
use neo_sycl.Container.Storage.{
  DataContainerD, Store, container_of_host, move, destroy, container_of_range, copy,
}
use neo_sycl.Container.Lifetime.{
  Live, Step, allocates, wraps, copies, moves, destroys, Reach, here, later, holds, owners, IsBlock,
  remove, start,
}
use neo_sycl.Container.Counts.{
  IsOwned, sum_by-remove, memcpy-IsBlock, own-Counts, share-Counts, release-Counts,
  replaced-IsOwned,
}

module _ {n : ℕ} (first : ℕ) where
  container_of_range-IsOwned :
      (junk : ℕ → List ℕ) (element_size : ℕ) (r : ArrayNd n) (s : Live n) (c : DataContainerD n)
      (st : Store)
      → container_of_range junk element_size r s.store ≡ done (c, st)
      → IsOwned first s
      → IsOwned first (record { store = st; objects = c ∷ s.objects })
  unfolding container_of_range
  container_of_range-IsOwned junk element_size r s c st e owned =
      let (count, h1, e1) = >>=-eq-done (or_undefined (get_liner r)) _ e in
      subst (λ x. IsOwned first (record { store = x.1; objects = x.0 ∷ s.objects }))
        (done-injective e1)
        (own-Counts first s.objects s.store junk (element_size * count)
          (record { range = r; ptr = s.store.heap.next; allocate_ptr = s.store.heap.next }) refl
          owned)

  copy-IsOwned :
      (junk : ℕ → List ℕ) (element_size : ℕ) (c d : DataContainerD n) (s : Live n) (st : Store)
      → copy junk element_size c s.store ≡ done (d, st)
      → IsOwned first s
      → IsOwned first (record { store = st; objects = d ∷ s.objects })
  unfolding copy
  copy-IsOwned junk element_size c d s st e owned =
      let ((c', st'), ea, e1) =
        >>=-eq-done (container_of_range junk element_size c.range s.store) _ e in
      let (count, h2, e2) = >>=-eq-done (or_undefined (get_liner c.range)) _ e1 in
      let (h, em, e3) =
        >>=-eq-done (memcpy c'.ptr c.ptr (wrap (element_size * count)) st'.heap) _ e2 in
      let (en, keeps, frees) =
        memcpy-IsBlock c'.ptr c.ptr (wrap (element_size * count)) st'.heap h em in
      subst (λ x. IsOwned first (record { store = x.1; objects = x.0 ∷ s.objects }))
        (done-injective e3)
        (replaced-IsOwned first (c' ∷ s.objects) st' h en keeps frees
          (container_of_range-IsOwned junk element_size c.range s c' st' ea owned))

  Step-IsOwned :
      (junk : ℕ → List ℕ) (element_size : ℕ) {s t : Live n}
      → Step junk element_size s t
      → IsOwned first s
      → IsOwned first t
  unfolding move destroy container_of_host
  Step-IsOwned junk element_size {s} (allocates {c = c} {st} r e) owned =
      container_of_range-IsOwned junk element_size r s c st e owned
  Step-IsOwned junk element_size {s} (wraps host_data r) (positive, counts) = (
    positive,
    λ p pos.
        let (f, u, l, g) = counts p pos in
        (λ fr. ground arith, ground arith, λ ow. l (ground arith), λ from none_own. ground arith),
  )
  Step-IsOwned junk element_size {s} (copies {c = c} {d} {st} i at e) owned =
      copy-IsOwned junk element_size c d s st e owned
  Step-IsOwned junk element_size {s} (moves {c = c} i at) owned =
      share-Counts first s.objects s.store c (move c s.store).0 refl
        (λ p. omega (arith, sum_by-remove (holds p) s.objects i at)) owned
  Step-IsOwned junk element_size {s} (destroys {c = c} {st} i at e) owned =
      let (st', e', owned') =
        release-Counts first s.objects s.store (remove s.objects i) c.allocate_ptr
          (λ p. sum_by-remove (holds p) s.objects i at) owned in
      subst (λ x. IsOwned first (record { store = x; objects = remove s.objects i }))
        (done-injective (sym e' ∙ e)) owned'

start-IsOwned :
    (n : ℕ) (h : Heap)
    → 0 < h.next
    → ((p : ℕ) → h.next ≤ p → h.block p ≡ none)
    → IsOwned h.next (start n h)
start-IsOwned n h positive fresh =
    (positive, λ p pos. (λ fr. refl, refl, λ ow. ground arith, λ from none_own. fresh p from))

Reach-IsOwned :
    {n : ℕ} (first : ℕ) (junk : ℕ → List ℕ) (element_size : ℕ) {s t : Live n}
    → Reach junk element_size s t
    → IsOwned first s
    → IsOwned first t
Reach-IsOwned first junk element_size here owned = owned
Reach-IsOwned first junk element_size (later run step) owned =
    Step-IsOwned first junk element_size step (Reach-IsOwned first junk element_size run owned)

-- From a memory in which no block from the next one on exists: in every state that making,
-- copying, moving and destroying containers reach, a block that is newer than the start exists
-- exactly while some container owns it; so none is freed early, and none is left when its last
-- owner is gone.
pub Reach-IsBlock :
    {n : ℕ} (junk : ℕ → List ℕ) (element_size : ℕ) (h : Heap) (s : Live n)
    → 0 < h.next
    → ((p : ℕ) → h.next ≤ p → h.block p ≡ none)
    → Reach junk element_size (start n h) s
    → (p : ℕ) → h.next ≤ p
    → (0 < owners p s.objects → IsBlock p s.store.heap)
      × (owners p s.objects ≡ 0 → s.store.heap.block p ≡ none)
Reach-IsBlock {n} junk element_size h s positive fresh run p from =
    let (pos, counts) =
      Reach-IsOwned h.next junk element_size run (start-IsOwned n h positive fresh) in
    let (f, u, l, g) = counts p (omega arith) in (l, g from)

-- In every such state, each container can be destroyed: its destructor completes, and in
-- particular frees no block that has been freed before.
pub Reach-destroy :
    {n : ℕ} (junk : ℕ → List ℕ) (element_size : ℕ) (h : Heap) (s : Live n)
    → 0 < h.next
    → ((p : ℕ) → h.next ≤ p → h.block p ≡ none)
    → Reach junk element_size (start n h) s
    → (i : ℕ) (c : DataContainerD n) → get_elem? s.objects i ≡ some c
    → (st : Store) × (destroy c s.store ≡ done st)
unfolding destroy
Reach-destroy {n} junk element_size h s positive fresh run i c at =
    let (st, e, owned) =
      release-Counts h.next s.objects s.store (remove s.objects i) c.allocate_ptr
        (λ p. sum_by-remove (holds p) s.objects i at)
        (Reach-IsOwned h.next junk element_size run (start-IsOwned n h positive fresh)) in
    (st, e)

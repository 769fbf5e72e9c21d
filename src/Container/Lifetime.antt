-- ===== src/Container/Lifetime.antt =====
-- The life of the containers of detail/container/data_container_nd.hpp, as steps.
use neo_sycl.Prelude.{
  ℕ, zero, suc, ◌≡◌, some, List, [], ◌∷◌, get_elem?, sum_by, ◌==◌, if◌then◌else◌,
}
use neo_sycl.ArrayNd.{ArrayNd}
use neo_sycl.Outcome.{done}
use neo_sycl.Memory.{Heap}
use neo_sycl.Container.Storage.{
  DataContainerD, Store, container_of_host, move, destroy, container_of_range, copy,
}

abbrev pub remove {ℓ} : {A : Type ℓ} → List A → ℕ → List A
remove [] i = []
remove (x ∷ xs) zero = xs
remove (x ∷ xs) (suc i) = x ∷ remove xs i

-- The store, and the containers of one type that exist.
pub record Live (n : ℕ) : Type 0 where
  pub store : Store
  pub objects : List (DataContainerD n)

-- A container is made by one of the constructors, or destroyed.
pub data Step {n : ℕ} (junk : ℕ → List ℕ) (element_size : ℕ) (s : Live n) : Live n → Type 0 where
  allocates :
      {c : DataContainerD n} {st : Store} (r : ArrayNd n)
      → container_of_range junk element_size r s.store ≡ done (c, st)
      → Step junk element_size s (record { store = st; objects = c ∷ s.objects })
  wraps :
      (host_data : ℕ) (r : ArrayNd n)
      → Step junk element_size s (record s { objects = container_of_host host_data r ∷ s.objects })
  copies :
      {c d : DataContainerD n} {st : Store} (i : ℕ)
      → get_elem? s.objects i ≡ some c
      → copy junk element_size c s.store ≡ done (d, st)
      → Step junk element_size s (record { store = st; objects = d ∷ s.objects })
  moves :
      {c : DataContainerD n} (i : ℕ)
      → get_elem? s.objects i ≡ some c
      → Step junk element_size s
          (record { store = (move c s.store).1; objects = (move c s.store).0 ∷ s.objects })
  destroys :
      {c : DataContainerD n} {st : Store} (i : ℕ)
      → get_elem? s.objects i ≡ some c
      → destroy c s.store ≡ done st
      → Step junk element_size s (record { store = st; objects = remove s.objects i })

pub data Reach {n : ℕ} (junk : ℕ → List ℕ) (element_size : ℕ) (s : Live n) : Live n → Type 0 where
  here : Reach junk element_size s s
  later :
      {t u : Live n}
      → Reach junk element_size s t
      → Step junk element_size t u
      → Reach junk element_size s u

abbrev pub holds : {n : ℕ} → ℕ → DataContainerD n → ℕ
holds p c = if c.allocate_ptr == p then 1 else 0

abbrev pub owners : {n : ℕ} → ℕ → List (DataContainerD n) → ℕ
owners p objects = sum_by (holds p) objects

abbrev pub IsBlock : ℕ → Heap → Type 0
IsBlock p h = (b : List ℕ) × (h.block p ≡ some b)

abbrev pub start : (n : ℕ) → Heap → Live n
start n h = record { store = record { heap = h; uses = λ p. 0 }; objects = [] }

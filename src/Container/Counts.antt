-- ===== src/Container/Counts.antt =====
-- How the operations of detail/container/data_container_nd.hpp keep the counts of owners.
use neo_sycl.Prelude.{
  ℕ, zero, suc, ◌+◌, ◌-◌, ◌≤◌, ◌<◌, ◌≡◌, refl, ap, sym, ◌∙◌, subst, inl, inr, Bool, true, false,
  Option, none, some, List, [], ◌∷◌, get_elem?, sum_by, ◌==◌, if◌then◌else◌, arith, Bool-cases, not,
  leb, length, ◌++◌, take, drop,
}
use mathlib.Core.Option.{some-injective}
use neo_sycl.Outcome.{Outcome, done, ◌>>◌, or_undefined, guard, >>=-eq-done, done-injective}
use neo_sycl.Memory.{Heap, update, malloc, free, memcpy}
use neo_sycl.Container.Storage.{DataContainerD, Store, with_uses, own, share, release}
use neo_sycl.Container.Lifetime.{Live, holds, owners, IsBlock, remove}

-- A block's count is the number of its owners; what `malloc` has not returned yet has none; what
-- has an owner is a block; and, from `first` on, what has none is no block.
abbrev pub Counts : {n : ℕ} → ℕ → Store → List (DataContainerD n) → ℕ → Type 0
Counts first st objects p =
    (st.heap.next ≤ p → owners p objects ≡ 0)
    × (st.uses p ≡ owners p objects)
    × (0 < owners p objects → IsBlock p st.heap)
    × (first ≤ p → owners p objects ≡ 0 → st.heap.block p ≡ none)

abbrev pub IsOwned : {n : ℕ} → ℕ → Live n → Type 0
IsOwned first s = (0 < s.store.heap.next) × ((p : ℕ) → 0 < p → Counts first s.store s.objects p)

pub sum_by-remove :
    {A : Type 0} (f : A → ℕ) (xs : List A) (i : ℕ) {x : A}
    → get_elem? xs i ≡ some x
    → sum_by f xs ≡ f x + sum_by f (remove xs i)
sum_by-remove f [] i e = cc
sum_by-remove f (x ∷ xs) zero e = ap (λ y. f y + sum_by f xs) (some-injective _ _ e)
sum_by-remove f (x ∷ xs) (suc i) e = omega (arith, sum_by-remove f xs i e)

guard-done : {A : Type 0} (b : Bool) (m : Outcome A) {a : A} → (guard b >> m) ≡ done a → m ≡ done a
guard-done true m e = e
guard-done false m e = cc

no_block : {A B : Type 0} (o : Option A) {a : A} → or_undefined o ≡ done a → o ≡ none → B
no_block none e none_o = cc
no_block (some a) e none_o = cc

-- `memcpy` changes what a block holds, never which blocks there are.
pub memcpy-IsBlock :
    (d s n : ℕ) (h h' : Heap)
    → memcpy d s n h ≡ done h'
    → (h'.next ≡ h.next)
      × ((p : ℕ) → IsBlock p h → IsBlock p h')
      × ((p : ℕ) → h.block p ≡ none → h'.block p ≡ none)
unfolding memcpy
memcpy-IsBlock d s n h h' e =
    let (from, h1, e1) = >>=-eq-done (or_undefined (h.block s)) _ e in
    let (to, h2, e2) = >>=-eq-done (or_undefined (h.block d)) _ e1 in
    let same : record h { block = update h.block d (some (take n from ++ drop n to)) } ≡ h' =
      done-injective (
        guard-done (leb n (length to)) _
          (guard-done (leb n (length from)) _ (guard-done (not (d == s)) _ e2))) in
    (
      sym (ap (λ k. k.next) same),
      λ p (b, at). subst (IsBlock p) same (elim (Bool-cases (d == p)) [
        | inl eq ↦ (take n from ++ drop n to, rw (eq) refl)
        | inr ne ↦ (b, rw (ne) at)
      ]),
      λ p free_p.
          subst (λ k. k.block p ≡ none) same
            (elim (Bool-cases (d == p)) [
              | inl eq ↦
                  let at_p : d ≡ p = ground arith in
                  no_block (h.block d) h2 (ap h.block at_p ∙ free_p)
              | inr ne ↦ rw (ne) free_p
            ]),
    )

module _ {n : ℕ} (first : ℕ) (objects : List (DataContainerD n)) where
  pub own-Counts :
      (st : Store) (junk : ℕ → List ℕ) (size : ℕ) (c : DataContainerD n)
      → c.allocate_ptr ≡ (malloc junk size st.heap).0
      → IsOwned first (record { store = st; objects = objects })
      → IsOwned first (record {
        store =
            own (malloc junk size st.heap).0 (record st { heap = (malloc junk size st.heap).1 });
        objects = c ∷ objects;
      })
  unfolding malloc
  own-Counts st junk size c e (positive, counts) = (
    omega arith,
    λ p pos.
        let (f, u, l, g) = counts p pos in
        (
          λ fr. ground arith,
          ground arith,
          λ ow. elim (Bool-cases (st.heap.next == p)) [
            | inl eq ↦ (junk size, rw (eq) refl)
            | inr ne ↦ let (b, at) = l (ground arith) in (b, rw (ne) at)
          ],
          λ from none_own. ground arith,
        ),
  )

  pub share-Counts :
      (st : Store) (c d : DataContainerD n)
      → d.allocate_ptr ≡ c.allocate_ptr
      → ((p : ℕ) → holds p c ≤ owners p objects)
      → IsOwned first (record { store = st; objects = objects })
      → IsOwned first (record { store = share c.allocate_ptr st; objects = d ∷ objects })
  share-Counts st c d e owned (positive, counts) = elim (Bool-cases (c.allocate_ptr == 0)) [
    | inl null ↦ rw (null) (
      positive,
      λ p pos.
          let (f, u, l, g) = counts p pos in
          (λ fr. ground arith, ground arith, λ ow. l (ground arith), λ from none_own. ground arith),
    )
    | inr some_block ↦ rw (some_block) (
      positive,
      λ p pos.
          let (f, u, l, g) = counts p pos in
          let le = owned p in
          (λ fr. ground arith, ground arith, λ ow. l (ground arith), λ from none_own. ground arith),
    )
  ]

  pub release-Counts :
      (st : Store) (rest : List (DataContainerD n)) (a : ℕ)
      → ((p : ℕ) → owners p objects ≡ (if a == p then 1 else 0) + owners p rest)
      → IsOwned first (record { store = st; objects = objects })
      → (st' : Store) × (release a st ≡ done st')
        × IsOwned first (record { store = st'; objects = rest })
  unfolding release free
  release-Counts st rest a split (positive, counts) = elim (Bool-cases (a == 0)) [
    | inl null ↦ (
      st,
      rw (null) refl,
      (
        positive,
        λ p pos.
            let (f, u, l, g) = counts p pos in
            let sp = split p in
            (
              λ fr. ground arith,
              ground arith,
              λ ow. l (ground arith),
              λ from none_own. ground arith,
            ),
      ),
    )
    | inr some_block ↦
        let (fa, ua, la, ga) = counts a (ground arith) in
        let sa = split a in
        let (b, at) = la (ground arith) in
        elim (Bool-cases ((st.uses a - 1) == 0)) [
          | inl last ↦ (
            record {
              heap = record st.heap { block = update st.heap.block a none };
              uses = with_uses st.uses a (st.uses a - 1);
            },
            rw (some_block, last, at) refl,
            (
              positive,
              λ p pos.
                  let (f, u, l, g) = counts p pos in
                  let sp = split p in
                  (
                    λ fr. ground arith,
                    ground arith,
                    λ ow. let (c, atp) = l (ground arith) in (c, ground arith),
                    λ from none_own. ground arith,
                  ),
            ),
          )
          | inr more ↦ (
            record st { uses = with_uses st.uses a (st.uses a - 1) },
            rw (some_block, more) refl,
            (
              positive,
              λ p pos.
                  let (f, u, l, g) = counts p pos in
                  let sp = split p in
                  (
                    λ fr. ground arith,
                    ground arith,
                    λ ow. l (ground arith),
                    λ from none_own. ground arith,
                  ),
            ),
          )
        ]
  ]

module _ {n : ℕ} (first : ℕ) where
  pub replaced-IsOwned :
      (objects : List (DataContainerD n)) (st : Store) (h : Heap)
      → h.next ≡ st.heap.next
      → ((p : ℕ) → IsBlock p st.heap → IsBlock p h)
      → ((p : ℕ) → st.heap.block p ≡ none → h.block p ≡ none)
      → IsOwned first (record { store = st; objects = objects })
      → IsOwned first (record { store = record st { heap = h }; objects = objects })
  replaced-IsOwned objects st h en keeps frees (positive, counts) = (
    omega arith,
    λ p pos.
        let (f, u, l, g) = counts p pos in
        (
          λ fr. f (omega arith),
          u,
          λ ow. keeps p (l ow),
          λ from none_own. frees p (g from none_own),
        ),
  )

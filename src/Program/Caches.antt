-- ===== src/Program/Caches.antt =====
-- The two caches of kernels of `program_impl`, detail/program.hpp.
use Prim.Native.String.{String}
use neo_sycl.Prelude.{
  ℕ, ◌≡◌, refl, sym, ap, ◌∙◌, subst, ◌⊎◌, inl, inr, Bool, true, none, some, List, [], ◌∷◌, ◌==◌,
  arith, same_name, same_name_refl, Bool-cases, Option-cases, ==_iff,
}
use neo_sycl.Outcome.{done, >>=-eq-done, done-injective}
use neo_sycl.Program.{
  Kernel, ProgramImpl, lookup, insert_new, create_all, has_kernel_name, get_kernel_name, get_kernel,
}

module _ {ℓ κ} {K : Type ℓ} {V : Type κ} (same : K → K → Bool) where
  lookup-insert_new :
      (k : K) (v : V) (m : List (K × V))
      → same k k ≡ true
      → lookup same k m ≡ none
      → lookup same k (insert_new same k v m) ≡ some v
  lookup-insert_new k v [] r e = ground arith
  lookup-insert_new k v ((j, w) ∷ m) r e = elim (Bool-cases (same j k)) [
    | inl t ↦ ground arith
    | inr f ↦ ground (arith, lookup-insert_new k v m r)
  ]

  lookup-insert_kept :
      (j k : K) (v w : V) (m : List (K × V))
      → lookup same j m ≡ some w
      → lookup same j (insert_new same k v m) ≡ some w
  lookup-insert_kept j k v w [] e = cc
  lookup-insert_kept j k v w ((i, u) ∷ m) e = ground (arith, lookup-insert_kept j k v w m)

  lookup-insert_inv :
      (j k : K) (v w : V) (m : List (K × V))
      → lookup same j (insert_new same k v m) ≡ some w
      → (lookup same j m ≡ some w) ⊎ ((same k j ≡ true) × (v ≡ w))
  lookup-insert_inv j k v w [] e = ground arith
  lookup-insert_inv j k v w ((i, u) ∷ m) e = ground (arith, lookup-insert_inv j k v w m)

-- `get_kernel(name)` that completes leaves the kernel in the map, and the other entries alone.
abbrev Keeps : String → ProgramImpl → Kernel → ProgramImpl → Type 0
Keeps n s k s' =
    (lookup same_name n s'.name_map ≡ some k)
    × ((j : String) (l : Kernel)
        → lookup same_name j s.name_map ≡ some l
        → lookup same_name j s'.name_map ≡ some l)
    × (s'.hash_map ≡ s.hash_map)

get_kernel_name-Keeps :
    (n : String) (s : ProgramImpl) (k : Kernel) (s' : ProgramImpl)
    → get_kernel_name n s ≡ done (k, s')
    → Keeps n s k s'
unfolding get_kernel_name
get_kernel_name-Keeps n s k s' e = elim (Option-cases (lookup same_name n s.name_map)) [
  | inl fresh ↦
      let (m, made, rest) =
        >>=-eq-done (create_all n s.programs []) _ (rw (fresh, get_kernel_name) at e) in
      let new : Kernel = record { name = n; map = m } in
      subst (λ r. Keeps n s r.0 r.1) (done-injective rest)
        (
          lookup-insert_new same_name n new s.name_map (same_name_refl n) fresh,
          λ j l h. lookup-insert_kept same_name j n new l s.name_map h,
          refl,
        )
  | inr (old, known) ↦
      let kept : done (old, s) ≡ done (k, s') = rw (known, get_kernel_name) at e in
      subst (λ r. Keeps n s r.0 r.1) (done-injective kept) (known, λ j l h. h, refl)
]

known_name :
    (n : String) (s : ProgramImpl) (k : Kernel)
    → lookup same_name n s.name_map ≡ some k
    → (get_kernel_name n s ≡ done (k, s)) × (has_kernel_name n s ≡ true)
unfolding get_kernel_name has_kernel_name
known_name n s k h = (rw (h, get_kernel_name) refl, rw (h, has_kernel_name) refl)

-- After a `get_kernel(name)` that completes: asked again for the name, the program gives the same
-- kernel and changes nothing, and `has_kernel(name)` is true.
pub get_kernel_name_again :
    (n : String) (s s' : ProgramImpl) (k : Kernel)
    → get_kernel_name n s ≡ done (k, s')
    → (get_kernel_name n s' ≡ done (k, s')) × (has_kernel_name n s' ≡ true)
get_kernel_name_again n s s' k e =
    let (found, _, _) = get_kernel_name-Keeps n s k s' e in known_name n s' k found

module _ {C : Type 0} (hash_code : C → ℕ) (class_name : C → String)
    (hash_Injective : (c d : C) → hash_code c ≡ hash_code d → class_name c ≡ class_name d) where
  -- What the hash map has, the map of names has.
  abbrev pub Agrees : ProgramImpl → Type 0
  Agrees s =
      (c : C) (k : Kernel)
      → lookup (λ a b. a == b) (hash_code c) s.hash_map ≡ some k
      → lookup same_name (class_name c) s.name_map ≡ some k

  -- For classes whose names are equal where their hash codes are, and caches in which every
  -- kernel in the hash map is in the map of names under its class's name: `get_kernel<C>()`
  -- that completes keeps the caches so, and `get_kernel(name)` with the name of the class then
  -- gives the same kernel and changes nothing.
  pub get_kernel-Agrees :
      (c : C) (s s' : ProgramImpl) (k : Kernel)
      → Agrees s
      → get_kernel hash_code class_name c s ≡ done (k, s')
      → Agrees s' × (get_kernel_name (class_name c) s' ≡ done (k, s'))
  unfolding get_kernel
  get_kernel-Agrees c s s' k agrees e =
      elim (Option-cases (lookup (λ a b. a == b) (hash_code c) s.hash_map)) [
        | inl fresh ↦
            let ((l, t), made, rest) =
              >>=-eq-done (get_kernel_name (class_name c) s) _ (rw (fresh, get_kernel) at e) in
            let (found, kept, same_hashes) = get_kernel_name-Keeps (class_name c) s l t made in
            subst (λ r. Agrees r.1 × (get_kernel_name (class_name c) r.1 ≡ done (r.0, r.1)))
              (done-injective rest)
              (
                λ d j h.
                    elim (lookup-insert_inv (λ a b. a == b) (hash_code d) (hash_code c) l j
                      t.hash_map h) [
                        | inl before ↦ kept (class_name d) j (
                            agrees d j (
                              ap (lookup (λ a b. a == b) (hash_code d)) (sym same_hashes) ∙ before))
                        | inr (same, new) ↦
                            subst (λ n. lookup same_name n t.name_map ≡ some j)
                              (hash_Injective c d ((==_iff (hash_code c) (hash_code d)).0 same))
                              (found ∙ ap (λ a. some a) new)
                      ],
                (known_name (class_name c) _ l found).0,
              )
        | inr (old, known) ↦
            let kept : done (old, s) ≡ done (k, s') = rw (known, get_kernel) at e in
            subst (λ r. Agrees r.1 × (get_kernel_name (class_name c) r.1 ≡ done (r.0, r.1)))
              (done-injective kept)
              (agrees, (known_name (class_name c) s old (agrees c old known)).0)
      ]

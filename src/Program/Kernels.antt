-- ===== src/Program/Kernels.antt =====
-- The program that a kernel of kernel.hpp remembers.
use Prim.Native.String.{String}
use neo_sycl.Prelude.{
  ℕ, ◌≡◌, ap, ap₂, ◌∙◌, sym, Bool, Option, none, some, List, [], ◌∷◌, ◌++◌, length, get_elem?,
  get_elem?-append_last,
}
use neo_sycl.Outcome.{done, undefined, ◌>>=◌, or_undefined, >>=-eq-done, done-injective}
use neo_sycl.Platform.{Device}
use neo_sycl.Platform.Objects.{Pointer}
use neo_sycl.Program.{
  ProgramData, ProgramImpl, init_program, context_devices, program_is_host, get_kernel_name,
}
use neo_sycl.Program.Handles.{
  Programs, ProgramObject, KernelHandle, new_program, object_at, is_host, get_context, get_kernel,
  kernel_is_host, kernel_context, get_program,
}

get_kernel-prog :
    (name : String) (i : ℕ) (store after : Programs) (o : ProgramObject) (k : KernelHandle)
    → get_elem? store i ≡ some o
    → get_kernel name (some i) store ≡ done (k, after)
    → k.prog ≡ o.prog
unfolding get_kernel
get_kernel-prog name i store after o k at got =
    let (o', found, e1) = >>=-eq-done (or_undefined (get_elem? store i)) _ got in
    let ((k', impl), made, e2) = >>=-eq-done (get_kernel_name name o'.impl) _ e1 in
    let same : o' ≡ o = done-injective (sym found ∙ ap or_undefined at) in
    sym (ap (λ r. r.0.prog) (done-injective e2)) ∙ ap (λ (x : ProgramObject). x.prog) same

-- A new program, and a kernel that it gives.
pub get_kernel-get_program :
    (opens : Device → Option ProgramData) (ctx : Option (List Device)) (name : String)
    (store made after : Programs) (p : Pointer) (k : KernelHandle)
    → new_program opens ctx store ≡ done (p, made)
    → get_kernel name p made ≡ done (k, after)
    → (get_context p made ≡ done ctx)
      × ((b : Bool) × (is_host p made ≡ done b))
      × (kernel_context k after ≡ undefined)
      × (kernel_is_host k after ≡ undefined)
unfolding new_program get_kernel get_context is_host object_at kernel_is_host kernel_context
    get_program
get_kernel-get_program opens ctx name store made after p k created got =
    let (ds, found, e1) = >>=-eq-done (context_devices ctx) _ created in
    let (opened, started, e2) = >>=-eq-done (init_program opens ds) _ e1 in
    let impl : ProgramImpl = record { programs = opened; hash_map = []; name_map = [] } in
    let o : ProgramObject = record { prog = none; ctx = ctx; impl = impl } in
    let there : get_elem? (store ++ o ∷ []) (length store) ≡ some o =
      get_elem?-append_last store o in
    let (e_p, e_made) : (some (length store) ≡ p) × (store ++ o ∷ [] ≡ made) =
      (ap (λ r. r.0) (done-injective e2), ap (λ r. r.1) (done-injective e2)) in
    let reached : object_at p made ≡ done o =
      sym (ap₂ object_at e_p e_made) ∙ ap or_undefined there in
    let null : k.prog ≡ none =
      get_kernel-prog name (length store) (store ++ o ∷ []) after o k there
        (ap₂ (get_kernel name) e_p e_made ∙ got) in
    (
      ap (λ m. m >>= λ x. done x.ctx) reached,
      (program_is_host opened, ap (λ m. m >>= λ x. done (program_is_host x.impl.programs)) reached),
      ap (λ q. get_context q after) null,
      ap (λ q. is_host q after) null,
    )

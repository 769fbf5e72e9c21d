-- ===== src/Program/Launch.antt =====
-- How a kernel is launched on the CPU device: `cast` of detail/program.hpp, `set_range`,
-- `set_capture` and `run` of detail/cpu/program.hpp, and `run` of handler.hpp, which calls them.
use Prim.Native.String.{String}
use neo_sycl.Prelude.{
  sym, ℕ, ◌≡◌, ◌≢◌, refl, ap, ◌∙◌, false, not, List, [], ◌∷◌, ◌==◌, if◌then◌else◌, arith, join,
  Bool-cases, inl, inr,
}
use neo_sycl.Outcome.{Outcome, done, throws, runtime_error, ◌>>=◌, >>=_congr, >>=_assoc}
use neo_sycl.Platform.{Device, device_impl_cpu, cpu}
use neo_sycl.Program.{
  Kernel, kernel_data_host, kernel_data_cpu, kernel_data_ve, get_kernel_data, ProgramData,
  ProgramImpl, cpu_kernel_data, get_kernel, get_kernel_name,
}

-- The variables of the loaded library: what a kernel finds at the address of its range and of its
-- captured object.
pub record Library : Type 0 where
  pub ranges : ℕ → List ℕ
  pub captures : ℕ → List ℕ

abbrev pub store : (ℕ → List ℕ) → ℕ → List ℕ → ℕ → List ℕ
store f p v q = if p == q then v else f q

-- `cast<kernel_data_cpu>`: the addresses of the function, the captured object and the range.
unfoldable pub cast : Device → Kernel → Outcome (ℕ × ℕ × ℕ)
unfolding get_kernel_data
cast d k = do
  kd ← get_kernel_data d k
  elim kd [
    | kernel_data_host ↦ throws (runtime_error "program_data::cast() failed")
    | kernel_data_cpu func capt rnge ↦ done (func, capt, rnge)
    | kernel_data_ve func capt rnge argp ↦ throws (runtime_error "program_data::cast() failed")
  ]

unfoldable pub set_range_cpu : Device → Kernel → List ℕ → Library → Outcome Library
unfolding cast
set_range_cpu d k r lib = do
  (func, capt, rnge) ← cast d k
  if not (rnge == 0)
      then done (record lib { ranges = store lib.ranges rnge r })
      else throws (runtime_error "set_range() failed")

unfoldable pub set_capture_cpu : Device → Kernel → List ℕ → Library → Outcome Library
unfolding cast
set_capture_cpu d k object lib = do
  (func, capt, rnge) ← cast d k
  if not (capt == 0)
      then done (record lib { captures = store lib.captures capt object })
      else throws (runtime_error "set_capture() failed")

-- `run` on the device, over the call of the kernel's function; an exception of the call is passed
-- on.
unfoldable pub run_cpu :
    (ℕ → Library → Outcome Library) → Device → Kernel → Library → Outcome Library
unfolding cast
run_cpu call d k lib = do (func, capt, rnge) ← cast d k; call func lib

-- `handler::run` with a range of six numbers; `kernel_func` is the command group's part, which
-- hands the captured object over.
module _ {C : Type 0} (hash_code : C → ℕ) (class_name : C → String)
    (call : ℕ → Library → Outcome Library) (d : Device) where
  unfoldable pub handler_run :
      C
      → List ℕ
      → (Kernel → Library → Outcome Library)
      → ProgramImpl × Library
      → Outcome (ProgramImpl × Library)
  unfolding get_kernel set_range_cpu run_cpu
  handler_run c r kernel_func (impl, lib) = do
    (k, impl') ← get_kernel hash_code class_name c impl
    lib1 ← set_range_cpu d k r lib
    lib2 ← kernel_func k lib1
    lib3 ← run_cpu call d k lib2
    done (impl', lib3)

  -- `handler::run` without a range.
  unfoldable pub handler_run_task :
      C
      → (Kernel → Library → Outcome Library)
      → ProgramImpl × Library
      → Outcome (ProgramImpl × Library)
  unfolding get_kernel run_cpu
  handler_run_task c kernel_func (impl, lib) = do
    (k, impl') ← get_kernel hash_code class_name c impl
    lib1 ← kernel_func k lib
    lib2 ← run_cpu call d k lib1
    done (impl', lib2)

  -- A launch with a range is one without whose command group's part begins by storing the range.
  pub handler_run-handler_run_task :
      (c : C) (r : List ℕ) (kernel_func : Kernel → Library → Outcome Library)
      (s : ProgramImpl × Library)
      → handler_run c r kernel_func s
        ≡ handler_run_task c (λ k lib. set_range_cpu d k r lib >>= kernel_func k) s
  unfolding handler_run handler_run_task
  handler_run-handler_run_task c r kernel_func (impl, lib) =
      >>=_congr (get_kernel hash_code class_name c impl) _ _ (λ (k, impl'). sym (
        >>=_assoc (set_range_cpu d k r lib) (kernel_func k)
          (λ lib1. run_cpu call d k lib1 >>= λ lib2. done (impl', lib2))))

-- `handler::set_capture_`, which a command group's part calls.
unfoldable pub set_capture_ : Device → Kernel → List ℕ → Library → Outcome Library
unfolding set_capture_cpu
set_capture_ d k object lib = set_capture_cpu d k object lib

-- The kernel that a program for the CPU device alone makes, and the program with it in its caches.
abbrev pub cpu_kernel : (String → ℕ) → String → Kernel
cpu_kernel dlsym name = record {
  name = name;
  map =
      (
        cpu,
        kernel_data_cpu (dlsym name) (dlsym (join (join "__" name) "_obj__"))
            (dlsym (join (join "__" name) "_range__")),
      )
      ∷ [];
}

abbrev pub with_caches : ProgramData → List (ℕ × Kernel) → List (String × Kernel) → ProgramImpl
with_caches p hashes names = record { programs = p ∷ []; hash_map = hashes; name_map = names }

made_by_program :
    {C : Type 0} (hash_code : C → ℕ) (class_name : C → String) (dlsym : String → ℕ) (d : Device)
    (c : C)
    → d.impl ≡ device_impl_cpu
    → dlsym (class_name c) ≢ 0
    → dlsym (join (join "__" (class_name c)) "_obj__") ≢ 0
    → let p : ProgramData = record { device = d; create_kernel_data = cpu_kernel_data dlsym } in
      let k : Kernel = cpu_kernel dlsym (class_name c) in
      get_kernel hash_code class_name c (with_caches p [] [])
      ≡ done (k, with_caches p ((hash_code c, k) ∷ []) ((class_name c, k) ∷ []))
unfolding get_kernel get_kernel_name cpu_kernel_data
made_by_program hash_code class_name dlsym d c is_cpu found captured =
    let test : (dlsym (class_name c) == 0) ≡ false = ground arith in
    let test' : (dlsym (join (join "__" (class_name c)) "_obj__") == 0) ≡ false = ground arith in
    rw (get_kernel, get_kernel_name, cpu_kernel_data, test, test', is_cpu) refl

-- The first launch of a kernel, with a range, in a program for the CPU device alone, whose
-- library has the kernel's function and captured object: where the library has no range variable
-- for the kernel, it throws; else the six numbers are stored in that variable, then the command
-- group's part runs, then the kernel's function is called once, and both caches hold the kernel.
pub handler_run_lem :
    {C : Type 0} (hash_code : C → ℕ) (class_name : C → String) (dlsym : String → ℕ)
    (call : ℕ → Library → Outcome Library) (i : ℕ) (c : C) (r : List ℕ)
    (kernel_func : Kernel → Library → Outcome Library) (lib : Library)
    → let d : Device = record { id = i; impl = device_impl_cpu } in
      let p : ProgramData = record { device = d; create_kernel_data = cpu_kernel_data dlsym } in
      let name : String = class_name c in
      let rnge : ℕ = dlsym (join (join "__" name) "_range__") in
      let k : Kernel = cpu_kernel dlsym name in
      dlsym name ≢ 0
      → dlsym (join (join "__" name) "_obj__") ≢ 0
      → handler_run hash_code class_name call d c r kernel_func (with_caches p [] [], lib) ≡ (
          if rnge == 0
          then throws (runtime_error "set_range() failed")
          else (kernel_func k (record lib { ranges = store lib.ranges rnge r }) >>= λ lib'.
              call (dlsym name) lib' >>= λ lib''.
              done (with_caches p ((hash_code c, k) ∷ []) ((name, k) ∷ []), lib'')))
unfolding handler_run get_kernel get_kernel_name cpu_kernel_data set_range_cpu run_cpu cast
    get_kernel_data
handler_run_lem hash_code class_name dlsym call i c r kernel_func lib found captured =
    let d : Device = record { id = i; impl = device_impl_cpu } in
    let p : ProgramData = record { device = d; create_kernel_data = cpu_kernel_data dlsym } in
    let k : Kernel = cpu_kernel dlsym (class_name c) in
    let s : ProgramImpl = with_caches p ((hash_code c, k) ∷ []) ((class_name c, k) ∷ []) in
    ap
      (λ o. o >>= λ r'. set_range_cpu d r'.0 r lib >>= λ lib1.
        kernel_func r'.0 lib1 >>= λ lib2. run_cpu call d r'.0 lib2 >>= λ lib3. done (r'.1, lib3))
      (made_by_program hash_code class_name dlsym d c refl found captured)
    ∙ elim (Bool-cases (dlsym (join (join "__" (class_name c)) "_range__") == 0)) [
      | inl e ↦ rw (e) refl
      | inr e ↦ rw (e) refl
    ]

-- ===== src/VectorEngine.antt =====
-- include/neoSYCL/extensions/nec: the process on the vector engine that `veo_util` opens and closes,
-- and `program_data_ve`, which finds and runs kernels there. The calls of the VEO library are
-- parameters.
pub mod Process
use Prim.Native.String.{String}
use neo_sycl.Prelude.{
  ℕ, Bool, true, false, not, ◌||◌, Option, none, some, List, [], ◌∷◌, ◌++◌, ◌==◌, if◌then◌else◌,
  join,
}
use neo_sycl.Outcome.{Outcome, done, throws, exception, runtime_error, ◌>>=◌}
use neo_sycl.Memory.{Heap}
use neo_sycl.Backend.VectorEngine.{Veo, ve_write_mem}
use neo_sycl.Platform.{Device}
use neo_sycl.Program.{
  Kernel, kernel_data_host, kernel_data_cpu, kernel_data_ve, KernelData, get_kernel_data,
}

-- The calls that open and close; 0 is a null handle, and the closing calls tell of success.
pub record ProcessCalls : Type 0 where
  pub proc_create : ℕ → ℕ
  pub load_library : ℕ → String → ℕ
  pub context_open : ℕ → ℕ
  pub context_close : ℕ → Bool
  pub proc_destroy : ℕ → Bool

-- What was created, opened, closed and destroyed, in order.
pub data VeoCall : Type 0 where
  created opened closed destroyed : ℕ → VeoCall

-- A `veo_util`, with the calls that were made through it.
pub record VeoUtil : Type 0 where
  pub proc : ℕ
  pub ctx : ℕ
  pub dll : ℕ
  pub calls : List VeoCall

unfoldable pub veo_util : VeoUtil
veo_util = record { proc = 0; ctx = 0; dll = 0; calls = [] }

module _ (veo : ProcessCalls) where
  unfoldable pub open_util : String → ℕ → VeoUtil → Bool × VeoUtil
  open_util lib_path ve_node u =
      let proc = veo.proc_create ve_node in
      let dll = veo.load_library proc lib_path in
      let ctx = veo.context_open proc in
      if proc == 0
      then (false, record u { proc = 0 })
      else if dll == 0
      then (false, record u { proc = proc; dll = 0; calls = u.calls ++ created proc ∷ [] })
      else (
        true,
        record {
          proc = proc;
          ctx = ctx;
          dll = dll;
          calls = u.calls ++ created proc ∷ (if ctx == 0 then [] else opened ctx ∷ []);
        },
      )

  unfoldable pub close_util : VeoUtil → Outcome VeoUtil
  close_util u =
      if u.ctx == 0
      then done u
      else if not (veo.context_close u.ctx)
      then throws (runtime_error "veo_util::close() failed")
      else if not (veo.proc_destroy u.proc)
      then throws (runtime_error "veo_util::close() failed")
      else done (record u { calls = u.calls ++ closed u.ctx ∷ destroyed u.proc ∷ [] })

  -- `program_data_ve::open`; `env` is the environment variable, and
  -- `default_node` stands for the node -1.
  unfoldable pub open_ve : Option String → ℕ → VeoUtil → Bool × VeoUtil
  unfolding open_util
  open_ve env default_node u =
      let (fine, u') =
        open_util (elim env [ none ↦ "./kernel-ve.so" | some fn ↦ fn ]) default_node u in
      (if fine then true else false, u')

unfoldable pub is_open : VeoUtil → Bool
is_open u = not (u.ctx == 0)

-- `create_kernel_data`, over `veo_get_sym` on the library and the new argument block `argp`.
unfoldable pub ve_kernel_data : (String → ℕ) → ℕ → String → Outcome KernelData
ve_kernel_data get_sym argp s =
    let func = get_sym s in
    let capt = get_sym (join (join "__" s) "_obj__") in
    let rnge = get_sym (join (join "__" s) "_range__") in
    if func == 0 || capt == 0
    then throws (exception "create_kernel() failed")
    else done (kernel_data_ve func capt rnge argp)

-- `cast<kernel_data_ve>`: the addresses of the function, the captured object, the range and the
-- arguments.
unfoldable pub cast_ve : Device → Kernel → Outcome (ℕ × ℕ × ℕ × ℕ)
unfolding get_kernel_data
cast_ve d k = do
  kd ← get_kernel_data d k
  elim kd [
    | kernel_data_host ↦ throws (runtime_error "program_data::cast() failed")
    | kernel_data_cpu func capt rnge ↦ throws (runtime_error "program_data::cast() failed")
    | kernel_data_ve func capt rnge argp ↦ done (func, capt, rnge, argp)
  ]

-- `set_capture` and `set_range`, which write to the vector engine's memory.
unfoldable pub set_capture_ve : Veo → Device → Kernel → ℕ → ℕ → Heap → Outcome Heap
unfolding cast_ve ve_write_mem
set_capture_ve veo d k p sz h = do
  (func, capt, rnge, argp) ← cast_ve d k
  if not (capt == 0)
      then ve_write_mem veo capt p sz h
      else throws (runtime_error "set_capture() failed")

unfoldable pub set_range_ve : Veo → Device → Kernel → ℕ → Heap → Outcome Heap
unfolding cast_ve ve_write_mem
set_range_ve veo d k r h = do
  (func, capt, rnge, argp) ← cast_ve d k
  if not (rnge == 0)
      then ve_write_mem veo rnge r 48 h
      else throws (runtime_error "set_range() failed")

-- `veo_util::call_func`: `call` is the asynchronous call with the wait for its result, which gives
-- whether the command was carried out and the state that it leaves.
unfoldable pub call_func :
    {S : Type 0} → (ℕ → ℕ → S → Bool × S) → ℕ → ℕ → S → Outcome (Unit {0}) × S
call_func call func argp s =
    let (fine, s') = call func argp s in
    (if not fine then throws (exception "veo_util::call_func() failed") else done tt, s')

-- `program_data_ve::run`: an exception of the call is printed, and not passed on.
unfoldable pub run_ve : {S : Type 0} → (ℕ → ℕ → S → Bool × S) → Device → Kernel → S → Outcome S
unfolding cast_ve call_func
run_ve call d k s = do
  (func, capt, rnge, argp) ← cast_ve d k
  let (result, s') = call_func call func argp s
  done s'

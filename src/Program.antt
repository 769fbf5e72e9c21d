-- ===== src/Program.antt =====
-- context.hpp, detail/program.hpp, detail/kernel.hpp and detail/cpu/program.hpp: a program keeps one
-- program_data object for each device of its context, and two caches of kernels.
pub mod Devices
pub mod Caches
pub mod Launch
pub mod Handles
pub mod Opening
pub mod Kernels
pub mod Names
use Prim.Native.String.{String}
use neo_sycl.Prelude.{
  ℕ, zero, suc, Bool, true, false, not, ◌||◌, Option, none, some, List, [], ◌∷◌, ◌++◌, length, ◌==◌,
  if◌then◌else◌, ltb, same_name, join,
}
use neo_sycl.Outcome.{
  Outcome, done, throws, undefined, Exception, exception, runtime_error, invalid_object_error,
  out_of_range, ◌>>=◌,
}
use neo_sycl.Platform.{Device, DeviceType, type, same_type, same_device, is_host}

-- `context::init`; a null device object is `none`. A context with no device has no `context_impl`.
abbrev check_devices : List (Option Device) → Outcome (List Device)
check_devices [] = done []
check_devices (none ∷ ds) = throws (invalid_object_error "null device object found")
check_devices (some d ∷ ds) = do rest ← check_devices ds; done (d ∷ rest)

unfoldable pub init_context : List (Option Device) → Outcome (Option (List Device))
init_context [] = done none
init_context (d ∷ ds) = do devices ← check_devices (d ∷ ds); done (some devices)

-- `context::get_devices`, which reads through the pointer.
unfoldable pub context_devices : Option (List Device) → Outcome (List Device)
context_devices none = undefined
context_devices (some ds) = done ds

-- The objects derived from `kernel_data`, with addresses; 0 is `nullptr`.
pub data KernelData : Type 0 where
  kernel_data_host : KernelData
  kernel_data_cpu : (func capt rnge : ℕ) → KernelData
  kernel_data_ve : (func capt rnge argp : ℕ) → KernelData

-- `program_data`, as a program uses it: the device, and `create_kernel_data`.
pub record ProgramData : Type 0 where
  pub device : Device
  pub create_kernel_data : String → Outcome KernelData

-- A kernel: its name, and the map of `kernel_impl`.
pub record Kernel : Type 0 where
  pub name : String
  pub map : List (DeviceType × KernelData)

-- `program_data_host::create_kernel_data`.
unfoldable pub host_kernel_data : String → Outcome KernelData
host_kernel_data s = done kernel_data_host

-- `program_data_cpu::create_kernel_data`, over `dlsym` on the open library.
unfoldable pub cpu_kernel_data : (String → ℕ) → String → Outcome KernelData
cpu_kernel_data dlsym s =
    let func = dlsym s in
    let capt = dlsym (join (join "__" s) "_obj__") in
    let rnge = dlsym (join (join "__" s) "_range__") in
    if func == 0 || capt == 0
    then throws (exception "create_kernel() failed")
    else done (kernel_data_cpu func capt rnge)

-- `program_impl::init`: for each device the object that `create_program` gives and that opens, where
-- `opens` stands for both calls; a device whose object does not open is left out.
abbrev pub open_all : (Device → Option ProgramData) → List Device → List ProgramData
open_all opens [] = []
open_all opens (d ∷ ds) =
    let rest = open_all opens ds in elim (opens d) [ none ↦ rest | some p ↦ p ∷ rest ]

unfoldable pub init_program :
    (Device → Option ProgramData) → List Device → Outcome (List ProgramData)
init_program opens ds =
    if length ds == 0
    then throws (runtime_error "contenxt with no available device")
    else let opened = open_all opens ds in
      if length opened == 0
      then throws (runtime_error "program initialization failed")
      else done opened

-- `program::get_data`; `none` is `nullptr`.
unfoldable pub get_data : Device → List ProgramData → Option ProgramData
get_data dev [] = none
get_data dev (p ∷ ps) =
    let rest = get_data dev ps in if same_device dev p.device then some p else rest

-- `program_impl::is_host`.
unfoldable pub program_is_host : List ProgramData → Bool
program_is_host ps = ltb (length ps) 2

-- The state of a `program_impl`. `std::map` is an association list: a lookup takes the first entry,
-- an insertion leaves an entry with the key alone.
pub record ProgramImpl : Type 0 where
  pub programs : List ProgramData
  pub hash_map : List (ℕ × Kernel)
  pub name_map : List (String × Kernel)

module _ {ℓ κ} {K : Type ℓ} {V : Type κ} (same : K → K → Bool) where
  abbrev pub lookup : K → List (K × V) → Option V
  lookup k [] = none
  lookup k ((j, v) ∷ m) = if same j k then some v else lookup k m

  abbrev pub insert_new : K → V → List (K × V) → List (K × V)
  insert_new k v [] = (k, v) ∷ []
  insert_new k v ((j, w) ∷ m) = if same j k then (j, w) ∷ m else (j, w) ∷ insert_new k v m

-- The loop of `get_kernel(name)` over the program_data objects, which fills the kernel's map.
abbrev pub create_all :
    String
    → List ProgramData
    → List (DeviceType × KernelData)
    → Outcome (List (DeviceType × KernelData))
create_all name [] m = done m
create_all name (p ∷ ps) m = do
  kd ← p.create_kernel_data name
  create_all name ps (insert_new same_type (type p.device) kd m)

-- `has_kernel(name)` and `get_kernel(name)`.
unfoldable pub has_kernel_name : String → ProgramImpl → Bool
has_kernel_name name impl = elim (lookup same_name name impl.name_map) [
  | none ↦ false
  | some k ↦ true
]

unfoldable pub get_kernel_name : String → ProgramImpl → Outcome (Kernel × ProgramImpl)
get_kernel_name name impl = elim (lookup same_name name impl.name_map) [
  | some k ↦ done (k, impl)
  | none ↦ do
    m ← create_all name impl.programs []
    let k : Kernel = record { name = name; map = m }
    done (k, record impl { name_map = insert_new same_name name k impl.name_map })
]

-- `get_kernel<KernelName>()` and `has_kernel<KernelName>()`, over the compiler's type information:
-- `hash_code`, and the name that `get_kernel_name_from_class` finds.
module _ {C : Type 0} (hash_code : C → ℕ) (class_name : C → String) where
  unfoldable pub has_kernel : C → ProgramImpl → Bool
  unfolding has_kernel_name
  has_kernel c impl = elim (lookup (λ a b. a == b) (hash_code c) impl.hash_map) [
    | some k ↦ true
    | none ↦ has_kernel_name (class_name c) impl
  ]

  unfoldable pub get_kernel : C → ProgramImpl → Outcome (Kernel × ProgramImpl)
  unfolding get_kernel_name
  get_kernel c impl = elim (lookup (λ a b. a == b) (hash_code c) impl.hash_map) [
    | some k ↦ done (k, impl)
    | none ↦ do
      (k, impl') ← get_kernel_name (class_name c) impl
      done
          (k, record impl' { hash_map = insert_new (λ a b. a == b) (hash_code c) k impl'.hash_map })
  ]

-- `kernel::get_kernel_data`: `at` on the map, by the type of the device.
unfoldable pub get_kernel_data : Device → Kernel → Outcome KernelData
get_kernel_data d k = elim (lookup same_type (type d) k.map) [
  | none ↦ throws out_of_range
  | some kd ↦ done kd
]

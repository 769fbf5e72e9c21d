-- ===== src/Tests/Programs.antt =====
-- Programs, kernels and devices at small inputs.
use Prim.Native.String.{String}
use neo_sycl.Prelude.{
  ℕ, ◌≡◌, refl, true, false, Option, none, some, [], ◌∷◌, ◌==◌, if◌then◌else◌, same_name, arith,
}
use neo_sycl.Outcome.{done}
use neo_sycl.Platform.{
  Device, device_impl_host, device_impl_cpu, Build, get_default_device, type, cpu,
}
use neo_sycl.Platform.Selection.{default_device}
use neo_sycl.Program.{
  ProgramData, ProgramImpl, Kernel, cpu_kernel_data, kernel_data_cpu, init_program, get_data,
  get_kernel, get_kernel_name,
}
use neo_sycl.Program.Devices.{get_data-init_program}
use neo_sycl.Program.Caches.{get_kernel-Agrees, Agrees}
use neo_sycl.Program.Launch.{Library, store, handler_run, handler_run_lem, with_caches, cpu_kernel}
use neo_sycl.Queue.Front.{queue_default}
use neo_sycl.Queue.Default.{queue_default_lem, DefaultQueue}
use neo_sycl.Program.Opening.{Environment, opens}

abbrev host_device : Device
host_device = record { id = 0; impl = device_impl_host }

abbrev cpu_device : Device
cpu_device = record { id = 1; impl = device_impl_cpu }

-- A library in which every symbol is found.
abbrev cpu_program : ProgramData
unfolding cpu_kernel_data
cpu_program = record { device = cpu_device; create_kernel_data = cpu_kernel_data (λ s. 5) }

-- Only the CPU device's program opens_cpu.
abbrev opens_cpu : Device → Option ProgramData
opens_cpu d = if d.id == 1 then some (record cpu_program { device = d }) else none

abbrev fresh : ProgramImpl
fresh = record { programs = cpu_program ∷ []; hash_map = []; name_map = [] }

abbrev made : Kernel
made = record { name = "add"; map = (cpu, kernel_data_cpu 5 5 5) ∷ [] }

abbrev named : ProgramImpl
named = record fresh { name_map = ("add", made) ∷ [] }

-- Classes go by numbers here, which are their hash codes; all have one name.
abbrev cached : ProgramImpl
cached = record named { hash_map = (3, made) ∷ [] }

get_kernel-Agrees_example :
    Agrees (λ c. c) (λ c. "add") (λ c d e. refl) cached
    × (get_kernel_name "add" cached ≡ done (made, cached))
unfolding get_kernel get_kernel_name cpu_kernel_data
get_kernel-Agrees_example =
    get_kernel-Agrees (λ c. c) (λ c. "add") (λ c d e. refl) 3 fresh cached made (λ c k h. cc) refl

opens_own : (d : Device) (p : ProgramData) → opens_cpu d ≡ some p → p.device ≡ d
opens_own d p h = ground arith

get_data-init_program_example : get_data cpu_device (cpu_program ∷ []) ≡ some cpu_program
unfolding init_program cpu_program
get_data-init_program_example =
    get_data-init_program opens_cpu (host_device ∷ []) cpu_device [] (cpu_program ∷ []) opens_own
      (omega arith, tt) tt refl

abbrev pub plain_build : Build
plain_build = record { build_ve = false; use_ve = false; use_cpu = true }

default_device_example : (d : Device) × (get_default_device plain_build ≡ done d) × (type d ≡ cpu)
default_device_example = default_device plain_build

-- A library in which every symbol is found but `__sub_range__`.
abbrev symbols : String → ℕ
symbols s = if same_name s "__sub_range__" then 0 else 5

abbrev empty_library : Library
empty_library = record { ranges = λ p. []; captures = λ p. [] }

abbrev add_program : ProgramData
unfolding cpu_kernel_data
add_program = record { device = cpu_device; create_kernel_data = cpu_kernel_data symbols }

handler_run_lem_example :
    handler_run
      (λ c. c)
      (λ c. "add")
      (λ f lib. done lib)
      cpu_device
      3
      (4 ∷ 1 ∷ 1 ∷ 0 ∷ 0 ∷ 0 ∷ [])
      (λ k lib. done lib)
      (with_caches add_program [] [], empty_library)
    ≡ done (
      with_caches add_program
          ((3, cpu_kernel symbols "add") ∷ [])
          (("add", cpu_kernel symbols "add") ∷ []),
      record { ranges = store (λ p. []) 5 (4 ∷ 1 ∷ 1 ∷ 0 ∷ 0 ∷ 0 ∷ []); captures = λ p. [] },
    )
unfolding add_program
handler_run_lem_example =
    handler_run_lem (λ c. c) (λ c. "add") symbols (λ f lib. done lib) 1 3
      (4 ∷ 1 ∷ 1 ∷ 0 ∷ 0 ∷ 0 ∷ []) (λ k lib. done lib) empty_library (omega arith) (omega arith)

-- The default library opens, and no process of a vector engine is created.
abbrev machine : Environment
machine = record {
  env_kernel = none;
  dlopen = λ f. if same_name f "./kernel.so" then some (λ s. 5) else none;
  env_ve_kernel = none;
  veo = record {
    proc_create = λ n. 0;
    load_library = λ p f. 0;
    context_open = λ p. 0;
    context_close = λ c. true;
    proc_destroy = λ p. true;
  };
  get_sym = λ u s. 0;
  args_alloc = 0;
}

queue_default_lem_example :
    (d : Device) × (get_default_device plain_build ≡ done d)
    × DefaultQueue d [] (opens machine 0 d) (queue_default (opens machine 0) plain_build [])
queue_default_lem_example = queue_default_lem machine 0 plain_build []

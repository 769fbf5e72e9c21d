-- ===== src/Program/Opening.antt =====
-- `create_program` of the devices and `open` of their program data (detail/device.hpp,
-- detail/program.hpp, detail/cpu/program.hpp, extensions/nec/program.hpp), and what a program and a
-- queue do with them. `dlopen`, `dlsym` and the calls of the VEO library are parameters.
use Prim.Native.String.{String}
use neo_sycl.Prelude.{ℕ, Option, none, some, if◌then◌else◌}
use neo_sycl.Platform.{Device, device_impl_host, device_impl_cpu, device_impl_ve}
use neo_sycl.Program.{ProgramData, host_kernel_data, cpu_kernel_data}
use neo_sycl.VectorEngine.{ProcessCalls, VeoUtil, veo_util, open_ve, ve_kernel_data}

-- The two environment variables, and the libraries that they or the defaults name: a library that
-- `dlopen` opens goes by its symbols.
pub record Environment : Type 0 where
  pub env_kernel : Option String
  pub dlopen : String → Option (String → ℕ)
  pub env_ve_kernel : Option String
  pub veo : ProcessCalls
  pub get_sym : VeoUtil → String → ℕ
  pub args_alloc : ℕ

module _ (s : Environment) (default_node : ℕ) where
  -- `program_data_cpu::open`.
  unfoldable pub open_cpu : Option (String → ℕ)
  open_cpu = s.dlopen (elim s.env_kernel [ none ↦ "./kernel.so" | some fn ↦ fn ])

  -- `create_program`, and the object if it opens.
  unfoldable pub opens : Device → Option ProgramData
  unfolding open_cpu host_kernel_data cpu_kernel_data open_ve ve_kernel_data
  opens d = elim d.impl [
    | device_impl_host ↦ some (record { device = d; create_kernel_data = host_kernel_data })
    | device_impl_cpu ↦ elim open_cpu [
      | none ↦ none
      | some dlsym ↦ some (record { device = d; create_kernel_data = cpu_kernel_data dlsym })
    ]
    | device_impl_ve ↦
        let (fine, util) = open_ve s.veo s.env_ve_kernel default_node veo_util in
        if fine
        then some (record {
          device = d;
          create_kernel_data = ve_kernel_data (s.get_sym util) s.args_alloc;
        })
        else none
  ]

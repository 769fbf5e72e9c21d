-- ===== src/Program/Handles.antt =====
-- program.hpp, kernel.hpp and the end of detail/program.hpp: a `program` and a `kernel` are pointers
-- to their objects, which keep copies of the program that they were made from.
use Prim.Native.String.{String}
use neo_sycl.Prelude.{ℕ, Bool, Option, none, some, List, [], ◌∷◌, ◌++◌, map, length, get_elem?, set}
use neo_sycl.Outcome.{throws, unimplemented, Outcome, done, ◌>>=◌, or_undefined}
use neo_sycl.Platform.{Device}
use neo_sycl.Platform.Objects.{Pointer}
use neo_sycl.Program.{
  init_context, ProgramData, ProgramImpl, Kernel, init_program, context_devices, program_is_host,
  get_kernel_name, has_kernel_name, get_data,
}

-- `program_impl`: its `prog_`, its `ctx_` (the devices behind its pointer), and the rest.
pub record ProgramObject : Type 0 where
  pub prog : Pointer
  pub ctx : Option (List Device)
  pub impl : ProgramImpl

-- A kernel with the `prog` of its `kernel_impl`.
pub record KernelHandle : Type 0 where
  pub kernel : Kernel
  pub prog : Pointer

abbrev pub Programs : Type 0
Programs = List ProgramObject

-- `program(context)`, by `init_`: the object gets a copy of `*this`, whose pointer is still null.
unfoldable pub new_program :
    (Device → Option ProgramData) → Option (List Device) → Programs → Outcome (Pointer × Programs)
unfolding context_devices init_program
new_program opens ctx store = do
  ds ← context_devices ctx
  opened ← init_program opens ds
  let impl : ProgramImpl = record { programs = opened; hash_map = []; name_map = [] }
  done (some (length store), store ++ record { prog = none; ctx = ctx; impl = impl } ∷ [])

-- `impl_->`.
unfoldable pub object_at : Pointer → Programs → Outcome ProgramObject
object_at p store = do i ← or_undefined p; or_undefined (get_elem? store i)

-- The members of `program` that ask the object.
unfoldable pub is_host : Pointer → Programs → Outcome Bool
unfolding object_at program_is_host
is_host p store = do o ← object_at p store; done (program_is_host o.impl.programs)

unfoldable pub has_kernel : String → Pointer → Programs → Outcome Bool
unfolding object_at has_kernel_name
has_kernel name p store = do o ← object_at p store; done (has_kernel_name name o.impl)

unfoldable pub get_context : Pointer → Programs → Outcome (Option (List Device))
unfolding object_at
get_context p store = do o ← object_at p store; done o.ctx

unfoldable pub get_devices : Pointer → Programs → Outcome (List Device)
unfolding object_at
get_devices p store = do
  o ← object_at p store
  done (map (λ (d : ProgramData). d.device) o.impl.programs)

unfoldable pub get_program_data : Device → Pointer → Programs → Outcome (Option ProgramData)
unfolding object_at get_data
get_program_data dev p store = do o ← object_at p store; done (get_data dev o.impl.programs)

unfoldable pub get_kernel : String → Pointer → Programs → Outcome (KernelHandle × Programs)
unfolding get_kernel_name
get_kernel name p store = do
  i ← or_undefined p
  o ← or_undefined (get_elem? store i)
  (k, impl) ← get_kernel_name name o.impl
  done (record { kernel = k; prog = o.prog }, set store i (record o { impl = impl }))

-- `kernel::get_program`, `get_context`, `is_host` and `get_name`.
unfoldable pub get_program : KernelHandle → Pointer
get_program k = k.prog

unfoldable pub kernel_is_host : KernelHandle → Programs → Outcome Bool
unfolding get_program is_host
kernel_is_host k store = is_host (get_program k) store

unfoldable pub kernel_context : KernelHandle → Programs → Outcome (Option (List Device))
unfolding get_program get_context
kernel_context k store = get_context (get_program k) store

unfoldable pub get_name : KernelHandle → String
get_name k = k.kernel.name

-- `context()`, and the constructor and the member that name an OpenCL object.
unfoldable pub context_default : Outcome (Option (List Device))
unfolding init_context
context_default = init_context []

unfoldable pub context_of_cl : Outcome (Option (List Device))
context_of_cl = throws unimplemented

unfoldable pub get_cl : Pointer → Outcome ℕ
get_cl p = throws unimplemented

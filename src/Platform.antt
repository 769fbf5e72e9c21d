-- ===== src/Platform.antt =====
-- The devices and the platform: detail/device.hpp, detail/cpu/device.hpp, nec/device.hpp of the
-- extensions, detail/platform.hpp, and the selectors for the CPU and the vector engine.
pub mod Selection
pub mod Objects
pub mod Registered
pub mod Info
use neo_sycl.Prelude.{
  ℕ, zero, suc, Bool, true, false, ◌&&◌, ◌||◌, Option, none, some, List, [], ◌∷◌, ◌++◌, get_elem?,
  ◌==◌, if◌then◌else◌, ltb,
}
use neo_sycl.Outcome.{Outcome, done, throws, runtime_error, or_undefined}

-- `info::device_type`, in the source's order.
pub data DeviceType : Type 0 where
  cpu gpu accelerator custom defaults host all : DeviceType

abbrev pub rank : DeviceType → ℕ
rank cpu = 0
rank gpu = 1
rank accelerator = 2
rank custom = 3
rank defaults = 4
rank host = 5
rank all = 6

abbrev pub same_type : DeviceType → DeviceType → Bool
same_type s t = rank s == rank t

-- The classes derived from `device_impl`, and a device: its object goes by a number.
pub data DeviceImpl : Type 0 where
  device_impl_host device_impl_cpu device_impl_ve : DeviceImpl

pub record Device : Type 0 where
  pub id : ℕ
  pub impl : DeviceImpl

abbrev pub type : Device → DeviceType
type d = elim d.impl [
  | device_impl_host ↦ host
  | device_impl_cpu ↦ cpu
  | device_impl_ve ↦ accelerator
]

abbrev pub is_host : Device → Bool
is_host d = elim d.impl [
  | device_impl_host ↦ true
  | device_impl_cpu ↦ false
  | device_impl_ve ↦ false
]

abbrev pub is_cpu : Device → Bool
is_cpu d = elim d.impl [
  | device_impl_host ↦ false
  | device_impl_cpu ↦ true
  | device_impl_ve ↦ false
]

abbrev pub is_gpu : Device → Bool
is_gpu d = false

abbrev pub is_accelerator : Device → Bool
is_accelerator d = elim d.impl [
  | device_impl_host ↦ false
  | device_impl_cpu ↦ false
  | device_impl_ve ↦ true
]

-- `operator==` of devices compares the objects.
abbrev pub same_device : Device → Device → Bool
same_device a b = a.id == b.id

-- The macros that a build defines.
pub record Build : Type 0 where
  pub build_ve : Bool
  pub use_ve : Bool
  pub use_cpu : Bool

-- `initial_platform_builder::add`, which appends to the platform's devices.
abbrev pub add : ℕ → DeviceImpl → List Device → List Device
add i impl ds = ds ++ record { id = i; impl = impl } ∷ []

-- `register_all_devices`: of detail/platform.hpp, or with BUILD_VE of ve_selector.hpp.
unfoldable pub register_all_devices : Build → List Device
register_all_devices b =
    let created = add 0 device_impl_host [] in
    if b.build_ve
    then add 2 device_impl_ve (add 1 device_impl_cpu created)
    else add 1 (if b.use_cpu then device_impl_cpu else device_impl_host) created

-- `platform::get_devices`.
unfoldable pub get_devices : DeviceType → List Device → List Device
get_devices t [] = []
get_devices t (d ∷ ds) =
    let rest = get_devices t ds in
    if same_type t all || same_type t (type d) then d ∷ rest else rest

-- `device::get_default_device`: an element of a vector, by its index.
unfoldable pub get_default_device : Build → Outcome Device
unfolding get_devices register_all_devices
get_default_device b = or_undefined (
    get_elem? (get_devices all (register_all_devices b))
      (if b.use_ve && b.build_ve then 2 else if b.use_cpu then 1 else 0))

-- The loop of `select_device`, with the score that `operator()` gives.
abbrev pub select_first : (Device → ℕ) → List Device → Outcome Device
select_first score [] = throws (runtime_error "no available device found")
select_first score (d ∷ ds) = if ltb 0 (score d) then done d else select_first score ds

abbrev pub cpu_score : Device → ℕ
cpu_score d = if is_cpu d then 1 else 0

unfoldable pub cpu_selector : List Device → Outcome Device
unfolding get_devices
cpu_selector ds = select_first cpu_score (get_devices cpu ds)

abbrev pub ve_score : Device → ℕ
ve_score d = if is_accelerator d then 1 else 0

unfoldable pub ve_selector : List Device → Outcome Device
unfolding get_devices
ve_selector ds = select_first ve_score (get_devices accelerator ds)

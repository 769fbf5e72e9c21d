-- ===== src/Platform/Objects.antt =====
-- platform.hpp, device.hpp and detail/platform.hpp: the objects behind platforms and devices, which
-- point to one another. A `shared_ptr` is an index into a store, or `none` for `nullptr`.
use neo_sycl.Prelude.{
  ℕ, Bool, true, false, not, ◌&&◌, ◌||◌, Option, none, some, List, [], ◌∷◌, ◌++◌, map, length,
  get_elem?, set, ◌==◌, if◌then◌else◌,
}
use neo_sycl.Outcome.{
  Outcome, done, throws, feature_not_supported, unimplemented, ◌>>=◌, or_undefined,
}
use neo_sycl.Platform.{
  DeviceType, same_type, host, cpu, accelerator, all, DeviceImpl, device_impl_host, device_impl_cpu,
  device_impl_ve, Build,
}

-- `platform` is its `impl_`, and `device` is `impl_` with `plt_`.
abbrev pub Pointer : Type 0
Pointer = Option ℕ

pub record DeviceHandle : Type 0 where
  pub impl : Pointer
  pub plt : Pointer

-- `device_impl`: its class, and its `dev_`.
pub record DeviceObject : Type 0 where
  pub kind : DeviceImpl
  pub dev : DeviceHandle

-- Every `device_impl`, and of every `platform_impl` (each a `host_platform_impl`) its `dev_`.
pub record Objects : Type 0 where
  pub device_impls : List DeviceObject
  pub platform_impls : List (List DeviceHandle)

abbrev pub null_device : DeviceHandle
null_device = record { impl = none; plt = none }

-- `device::set_platform`.
abbrev pub set_platform : Pointer → DeviceHandle → DeviceHandle
set_platform p d = record d { plt = p }

-- `initial_platform_builder::get`: the new object, whose `dev_` is then a handle of itself.
unfoldable pub get : DeviceImpl → Objects → DeviceHandle × Objects
get kind g =
    let i = length g.device_impls in
    let made = g.device_impls ++ record { kind = kind; dev = null_device } ∷ [] in
    let d : DeviceHandle = record { impl = some i; plt = none } in
    (d, record g { device_impls = set made i (record { kind = kind; dev = d }) })

-- `new host_platform_impl(d)`, and the constructor of `platform` from it.
unfoldable pub new_platform : DeviceHandle → Objects → Pointer × Objects
new_platform d g =
    let p = some (length g.platform_impls) in
    (p, record g { platform_impls = g.platform_impls ++ map (set_platform p) (d ∷ []) ∷ [] })

-- `initial_platform_builder::create`, and `add`; what `set_platform` does to the local `d` of the
-- first is lost.
unfoldable pub create : Objects → Pointer × Objects
unfolding get new_platform
create g = let (d, g1) = get device_impl_host g in new_platform d g1

unfoldable pub add : DeviceImpl → Pointer → Objects → Outcome Objects
unfolding get
add kind p g = do
  let (d, g1) = get kind g
  i ← or_undefined p
  ds ← or_undefined (get_elem? g1.platform_impls i)
  done (record g1 { platform_impls = set g1.platform_impls i (ds ++ set_platform p d ∷ []) })

abbrev pub no_objects : Objects
no_objects = record { device_impls = []; platform_impls = [] }

-- `platform::register_all_devices`, as the initialiser of `REGISTERED` calls it.
unfoldable pub register_all_devices : Build → Outcome (Pointer × Objects)
unfolding create add
register_all_devices b =
    let (p, g) = create no_objects in
    if b.build_ve
    then (do g1 ← add device_impl_cpu p g; g2 ← add device_impl_ve p g1; done (p, g2))
    else (do g1 ← add (if b.use_cpu then device_impl_cpu else device_impl_host) p g; done (p, g1))

module _ (g : Objects) where
  -- The calls through `impl_`.
  unfoldable pub kind_of : DeviceHandle → Outcome DeviceImpl
  kind_of d = do i ← or_undefined d.impl; o ← or_undefined (get_elem? g.device_impls i); done o.kind

  unfoldable pub device_type : DeviceHandle → Outcome DeviceType
  unfolding kind_of
  device_type d = do
    k ← kind_of d
    done (elim k [ device_impl_host ↦ host | device_impl_cpu ↦ cpu | device_impl_ve ↦ accelerator ])

  -- The loop of `platform::get_devices`.
  unfoldable pub filter_devices : DeviceType → List DeviceHandle → Outcome (List DeviceHandle)
  unfolding device_type
  filter_devices t [] = done []
  filter_devices t (d ∷ ds) = do
    s ← device_type d
    rest ← filter_devices t ds
    done (if same_type t all || same_type t s then d ∷ rest else rest)

  unfoldable pub get_devices : DeviceType → Pointer → Outcome (List DeviceHandle)
  unfolding filter_devices
  get_devices t p = do
    i ← or_undefined p
    ds ← or_undefined (get_elem? g.platform_impls i)
    filter_devices t ds

  -- `platform::is_host` and `has_extension`, which ask the `host_platform_impl`.
  unfoldable pub platform_is_host : Pointer → Outcome Bool
  platform_is_host p = do
    i ← or_undefined p
    _ ← or_undefined (get_elem? g.platform_impls i)
    done true

  unfoldable pub has_extension : Pointer → Outcome Bool
  has_extension p = do
    i ← or_undefined p
    _ ← or_undefined (get_elem? g.platform_impls i)
    done false

-- `device::get_platform`.
unfoldable pub get_platform : DeviceHandle → Pointer
get_platform d = d.plt

-- `platform(const device_selector&)`, over the device that the selector gives.
unfoldable pub platform_of_selector : Outcome DeviceHandle → Objects → Outcome (Pointer × Objects)
unfolding new_platform
platform_of_selector selected g = do d ← selected; done (new_platform d g)

-- `operator==` of platforms and of devices compares the pointers.
abbrev pub same_pointer : Pointer → Pointer → Bool
same_pointer none none = true
same_pointer none (some j) = false
same_pointer (some i) none = false
same_pointer (some i) (some j) = i == j

unfoldable pub platform_eq : Pointer → Pointer → Bool
platform_eq lhs rhs = same_pointer lhs rhs

unfoldable pub device_eq : DeviceHandle → DeviceHandle → Bool
device_eq lhs rhs = same_pointer lhs.impl rhs.impl

unfoldable pub device_ne : DeviceHandle → DeviceHandle → Bool
unfolding device_eq
device_ne lhs rhs = not (device_eq lhs rhs)

-- The constructors from an OpenCL handle, and `create_sub_devices`.
unfoldable pub device_of_cl : Outcome DeviceHandle
device_of_cl = throws (feature_not_supported "OpenCL interop not supported.")

unfoldable pub platform_of_cl : Outcome Pointer
platform_of_cl = throws unimplemented

unfoldable pub create_sub_devices : Outcome (List DeviceHandle)
create_sub_devices = throws unimplemented

-- `device::get_default_device`, which indexes the vector.
unfoldable pub get_default_device : Build → Pointer → Objects → Outcome DeviceHandle
unfolding get_devices
get_default_device b registered g = do
  ds ← get_devices g all registered
  or_undefined (get_elem? ds (if b.use_ve && b.build_ve then 2 else if b.use_cpu then 1 else 0))

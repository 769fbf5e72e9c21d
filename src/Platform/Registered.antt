-- ===== src/Platform/Registered.antt =====
-- The objects that detail/platform.hpp registers, against the devices of Platform.
use neo_sycl.Prelude.{
  ℕ, zero, suc, ◌≡◌, refl, ap, ◌∙◌, sym, ◌||◌, none, some, List, [], ◌∷◌, ◌++◌, map, length,
  length-append, get_elem?, All, arith, if◌then◌else◌, Bool-cases, inl, inr, set-append_last,
  get_elem?-append_left, get_elem?-append_last, All-append_one, All-weaken,
}
use mathlib.Core.List.{map-append}
use neo_sycl.Outcome.{Outcome, done, ◌>>=◌, or_undefined}
use neo_sycl.Platform
use neo_sycl.Platform.{
  Device, same_type, all, DeviceType, DeviceImpl, device_impl_host, device_impl_cpu, device_impl_ve,
  type, Build,
}
use neo_sycl.Platform.Objects.{
  Pointer, DeviceHandle, DeviceObject, Objects, get, create, add, no_objects, register_all_devices,
  kind_of, device_type, filter_devices, get_devices, get_default_device,
}

-- The handle and the object of a device of the platform 0.
abbrev pub handle_of : Device → DeviceHandle
handle_of d = record { impl = some d.id; plt = some 0 }

abbrev pub object_of : Device → DeviceObject
object_of d = record { kind = d.impl; dev = record { impl = some d.id; plt = none } }

-- The one platform lists the handles of `ds`, and each of these has its object.
abbrev pub Lists : Objects → List Device → Type 0
Lists g ds =
    (g.platform_impls ≡ map handle_of ds ∷ [])
    × (length g.device_impls ≡ length ds)
    × All (λ d. get_elem? g.device_impls d.id ≡ some (object_of d)) ds

create-Lists : Lists (create no_objects).1 (Platform.add 0 device_impl_host [])
unfolding create
create-Lists = (refl, refl, (refl, tt))

add-Lists :
    (kind : DeviceImpl) (g : Objects) (ds : List Device)
    → Lists g ds
    → (g' : Objects) × (add kind (some 0) g ≡ done g') × Lists g' (Platform.add (length ds) kind ds)
unfolding add get
add-Lists kind g ds (listed, counted, stored) =
    let new : Device = record { id = length g.device_impls; impl = kind } in
    (
      record {
        device_impls = g.device_impls ++ object_of new ∷ [];
        platform_impls = (map handle_of ds ++ handle_of new ∷ []) ∷ [];
      },
      rw (listed, set-append_last g.device_impls) refl,
      rw (← counted) (
        ap (λ hs. hs ∷ []) (sym (map-append handle_of ds (new ∷ []))),
        omega (
          arith,
          length-append g.device_impls (object_of new ∷ []),
          length-append ds (new ∷ []),
          counted,
        ),
        All-append_one
            (λ d. get_elem? (g.device_impls ++ object_of new ∷ []) d.id ≡ some (object_of d)) ds new
            (All-weaken _ _ ds
              (λ d e. get_elem?-append_left g.device_impls (object_of new ∷ []) d.id e) stored)
            (get_elem?-append_last g.device_impls (object_of new)),
      ),
    )

module _ (g : Objects) where
  kind_of-handle :
      (d : Device)
      → get_elem? g.device_impls d.id ≡ some (object_of d)
      → kind_of g (handle_of d) ≡ done d.impl
  unfolding kind_of
  kind_of-handle d e = rw e refl

  device_type-handle :
      (d : Device)
      → get_elem? g.device_impls d.id ≡ some (object_of d)
      → device_type g (handle_of d) ≡ done (type d)
  unfolding device_type
  device_type-handle d e = rw (kind_of-handle d e) refl

  filter_devices-map :
      (t : DeviceType) (ds : List Device)
      → All (λ d. get_elem? g.device_impls d.id ≡ some (object_of d)) ds
      → filter_devices g t (map handle_of ds) ≡ done (map handle_of (Platform.get_devices t ds))
  unfolding filter_devices Platform.get_devices
  filter_devices-map t [] stored = refl
  filter_devices-map t (d ∷ ds) (e, stored) =
      rw (device_type-handle d e, filter_devices-map t ds stored)
        (elim (Bool-cases (same_type t all || same_type t (type d))) [
          | inl yes_it ↦ rw yes_it refl
          | inr no_it ↦ rw no_it refl
        ])

  get_devices-Lists :
      (ds : List Device) (t : DeviceType)
      → Lists g ds
      → get_devices g t (some 0) ≡ done (map handle_of (Platform.get_devices t ds))
  unfolding get_devices
  get_devices-Lists ds t (listed, counted, stored) = rw (listed) (filter_devices-map t ds stored)

register-Lists :
    (b : Build)
    → (g : Objects) × (register_all_devices b ≡ done (some 0, g))
      × Lists g (Platform.register_all_devices b)
unfolding register_all_devices create Platform.register_all_devices
register-Lists b = elim (Bool-cases b.build_ve) [
  | inl with_ve ↦
      let (g1, e1, l1) =
        add-Lists device_impl_cpu (create no_objects).1 (Platform.add 0 device_impl_host [])
          create-Lists in
      let (g2, e2, l2) =
        add-Lists device_impl_ve g1
          (Platform.add 1 device_impl_cpu (Platform.add 0 device_impl_host [])) l1 in
      let later : Objects → Outcome (Pointer × Objects) =
        λ g. add device_impl_ve (some 0) g >>= λ h. done (some 0, h) in
      (
        g2,
        rw (with_ve) (ap (λ o. o >>= later) e1 ∙ ap (λ o. o >>= λ h. done (some 0, h)) e2),
        rw (with_ve) l2,
      )
  | inr without ↦
      let (g1, e1, l1) =
        add-Lists (if b.use_cpu then device_impl_cpu else device_impl_host) (create no_objects).1
          (Platform.add 0 device_impl_host []) create-Lists in
      (g1, rw (without) (ap (λ o. o >>= λ h. done (some 0, h)) e1), rw (without) l1)
]

get_elem?-map :
    {A B : Type 0} (f : A → B) (xs : List A) (i : ℕ)
    → or_undefined (get_elem? (map f xs) i) ≡ (or_undefined (get_elem? xs i) >>= λ a. done (f a))
get_elem?-map f [] i = refl
get_elem?-map f (x ∷ xs) zero = refl
get_elem?-map f (x ∷ xs) (suc i) = get_elem?-map f xs i

-- In every build the registration of devices completes, with the first platform; over the objects
-- that it makes, `get_devices` gives, for each type, handles of the devices that the list of
-- registered devices has of it, in the same order and each with a pointer to the platform, and
-- `get_default_device` a handle of the default device there.
pub registered_lem :
    (b : Build)
    → (g : Objects) × (register_all_devices b ≡ done (some 0, g))
      × ((t : DeviceType)
          → get_devices g t (some 0)
            ≡ done (map handle_of (Platform.get_devices t (Platform.register_all_devices b))))
      × (get_default_device b (some 0) g
          ≡ (Platform.get_default_device b >>= λ d. done (handle_of d)))
unfolding get_default_device Platform.get_default_device
registered_lem b =
    let (g, e, listed) = register-Lists b in
    let ds = Platform.register_all_devices b in
    (
      g,
      e,
      λ t. get_devices-Lists g ds t listed,
      rw (get_devices-Lists g ds all listed)
          (get_elem?-map handle_of (Platform.get_devices all ds) _),
    )

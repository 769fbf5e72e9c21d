-- ===== src/Platform/Selection.antt =====
-- Which device a selector and a build give.
use neo_sycl.Prelude.{
  ℕ, ◌≡◌, refl, ◌∙◌, Bool, true, false, ◌||◌, ◌&&◌, List, [], ◌∷◌, ◌++◌, if◌then◌else◌, All,
}
use neo_sycl.Outcome.{done, throws, runtime_error}
use neo_sycl.Platform.{
  Device, DeviceImpl, device_impl_host, device_impl_cpu, device_impl_ve, cpu, accelerator, host,
  get_devices, is_cpu, type, cpu_selector, Build, register_all_devices, get_default_device,
}

takes_cpu : (d : Device) (after : List Device) → is_cpu d ≡ true → cpu_selector (d ∷ after) ≡ done d
unfolding cpu_selector get_devices
takes_cpu d after h = by_impl d.id d.impl h
  where
    by_impl :
        (i : ℕ) (m : DeviceImpl)
        → is_cpu (record { id = i; impl = m }) ≡ true
        → cpu_selector (record { id = i; impl = m } ∷ after) ≡ done (record { id = i; impl = m })
    by_impl i device_impl_host e = cc
    by_impl i device_impl_cpu e = refl
    by_impl i device_impl_ve e = cc

skips_other :
    (d : Device) (after : List Device)
    → is_cpu d ≡ false
    → cpu_selector (d ∷ after) ≡ cpu_selector after
unfolding cpu_selector get_devices
skips_other d after h = by_impl d.id d.impl h
  where
    by_impl :
        (i : ℕ) (m : DeviceImpl)
        → is_cpu (record { id = i; impl = m }) ≡ false
        → cpu_selector (record { id = i; impl = m } ∷ after) ≡ cpu_selector after
    by_impl i device_impl_host e = refl
    by_impl i device_impl_cpu e = cc
    by_impl i device_impl_ve e = refl

-- For any list of devices with no CPU device: the CPU selector throws on it, and gives the CPU
-- device that follows it, whatever comes after.
pub cpu_selector_first :
    (before : List Device)
    → All (λ e. is_cpu e ≡ false) before
    → (cpu_selector before ≡ throws (runtime_error "no available device found"))
      × ((d : Device) (after : List Device)
          → is_cpu d ≡ true
          → cpu_selector (before ++ d ∷ after) ≡ done d)
unfolding cpu_selector get_devices
cpu_selector_first [] h = (refl, takes_cpu)
cpu_selector_first (e ∷ ds) (h, hs) =
    let (none_found, found) = cpu_selector_first ds hs in
    (
      skips_other e ds h ∙ none_found,
      λ d after c. skips_other e (ds ++ d ∷ after) h ∙ found d after c,
    )

by_macros :
    (v u c : Bool)
    → let b : Build = record { build_ve = v; use_ve = u; use_cpu = c } in
      (d : Device) × (get_default_device b ≡ done d)
      × (type d ≡ (if u && v then accelerator else if c then cpu else host))
unfolding get_default_device register_all_devices get_devices
by_macros true true c = (_, refl, refl)
by_macros true false true = (_, refl, refl)
by_macros true false false = (_, refl, refl)
by_macros false true true = (_, refl, refl)
by_macros false true false = (_, refl, refl)
by_macros false false true = (_, refl, refl)
by_macros false false false = (_, refl, refl)

-- In every build the default device exists, in bounds of the platform's list, and has the type
-- that the macros ask for: accelerator, CPU, or host.
pub default_device :
    (b : Build)
    → (d : Device) × (get_default_device b ≡ done d)
      × (type d ≡ (if b.use_ve && b.build_ve then accelerator else if b.use_cpu then cpu else host))
default_device b = by_macros b.build_ve b.use_ve b.use_cpu

-- On the platform of a build, the CPU selector gives the CPU device if the build has BUILD_VE or
-- USE_CPU, and otherwise throws.
pub cpu_selector_build :
    (b : Build)
    → (if b.build_ve || b.use_cpu
        then cpu_selector (register_all_devices b)
          ≡ done (record { id = 1; impl = device_impl_cpu })
        else cpu_selector (register_all_devices b)
          ≡ throws (runtime_error "no available device found"))
unfolding cpu_selector register_all_devices get_devices
cpu_selector_build b = go b.build_ve b.use_cpu
  where
    go :
        (v c : Bool)
        → let ds = register_all_devices (record b { build_ve = v; use_cpu = c }) in
          if v || c
          then cpu_selector ds ≡ done (record { id = 1; impl = device_impl_cpu })
          else cpu_selector ds ≡ throws (runtime_error "no available device found")
    go true c = refl
    go false true = refl
    go false false = refl

-- ===== src/Program/Devices.antt =====
-- Which device of a program has a program_data object, detail/program.hpp.
use neo_sycl.Prelude.{
  ◌≡◌, ◌≢◌, refl, subst, inl, inr, true, false, Option, none, some, List, [], ◌∷◌, ◌++◌, arith, All,
  Option-cases,
}
use neo_sycl.Outcome.{done, throws, runtime_error}
use neo_sycl.Platform.{Device, same_device}
use neo_sycl.Program.{ProgramData, open_all, init_program, get_data, program_is_host}

-- An object that opens is for its device, as `create_program` makes it.
abbrev pub OpensOwn : (Device → Option ProgramData) → Type 0
OpensOwn opens = (d : Device) (p : ProgramData) → opens d ≡ some p → p.device ≡ d

not_among :
    (opens : Device → Option ProgramData) (d : Device) (ds : List Device)
    → OpensOwn opens
    → All (λ e. d.id ≢ e.id) ds
    → get_data d (open_all opens ds) ≡ none
unfolding get_data
not_among opens d [] own h = refl
not_among opens d (e ∷ ds) own (h, hs) = elim (Option-cases (opens e)) [
  | inl closed ↦ rw (closed, open_all) (not_among opens d ds own hs)
  | inr (p, opened) ↦
      let apart : same_device d p.device ≡ false = rw (own e p opened) (ground arith) in
      rw (opened, open_all, get_data, apart) (not_among opens d ds own hs)
]

among :
    (opens : Device → Option ProgramData) (before : List Device) (d : Device) (after : List Device)
    → OpensOwn opens
    → All (λ e. d.id ≢ e.id) before
    → All (λ e. d.id ≢ e.id) after
    → get_data d (open_all opens (before ++ d ∷ after)) ≡ opens d
unfolding get_data
among opens [] d after own tt hs = elim (Option-cases (opens d)) [
  | inl closed ↦ rw (closed, open_all) (not_among opens d after own hs)
  | inr (p, opened) ↦
      let same : same_device d p.device ≡ true = rw (own d p opened) (ground arith) in
      rw (opened, open_all, get_data, same) refl
]
among opens (e ∷ ds) d after own (h, hs) hs' = elim (Option-cases (opens e)) [
  | inl closed ↦ rw (closed, open_all) (among opens ds d after own hs hs')
  | inr (p, opened) ↦
      let apart : same_device d p.device ≡ false = rw (own e p opened) (ground arith) in
      rw (opened, open_all, get_data, apart) (among opens ds d after own hs hs')
]

init_opened :
    (opens : Device → Option ProgramData) (ds : List Device) (ps : List ProgramData)
    → init_program opens ds ≡ done ps
    → open_all opens ds ≡ ps
unfolding init_program
init_opened opens ds ps e = ground arith

-- In a program initialised for a list of devices in which `d` is once, where an object that opens
-- is for its device: `get_data` gives the object that opened for `d`, and `nullptr` if none did.
pub get_data-init_program :
    (opens : Device → Option ProgramData) (before : List Device) (d : Device) (after : List Device)
    (ps : List ProgramData)
    → OpensOwn opens
    → All (λ e. d.id ≢ e.id) before
    → All (λ e. d.id ≢ e.id) after
    → init_program opens (before ++ d ∷ after) ≡ done ps
    → get_data d ps ≡ opens d
get_data-init_program opens before d after ps own hs hs' e =
    subst (λ qs. get_data d qs ≡ opens d) (init_opened opens (before ++ d ∷ after) ps e)
      (among opens before d after own hs hs')

-- A program for one device: if the device's object opens, the program is initialised with it, and
-- `is_host()` is true, whatever the device; if not, the initialisation throws.
pub one_device :
    (opens : Device → Option ProgramData) (d : Device)
    → ((p : ProgramData)
        → opens d ≡ some p
        → (init_program opens (d ∷ []) ≡ done (p ∷ [])) × (program_is_host (p ∷ []) ≡ true))
      × (opens d ≡ none
          → init_program opens (d ∷ []) ≡ throws (runtime_error "program initialization failed"))
unfolding init_program program_is_host
one_device opens d = (λ p h. (ground arith, refl), λ h. ground arith)

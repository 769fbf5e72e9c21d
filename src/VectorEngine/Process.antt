-- ===== src/VectorEngine/Process.antt =====
-- The process on the vector engine, from `open` to `close` of extensions/nec/veo_util.hpp.
use Prim.Native.String.{String}
use neo_sycl.Prelude.{
  ℕ, ◌≡◌, refl, Bool, true, not, ◌&&◌, [], ◌∷◌, ◌==◌, Bool-cases, inl, inr, if◌then◌else◌,
}
use neo_sycl.Outcome.{done}
use neo_sycl.VectorEngine.{
  ProcessCalls, created, opened, closed, destroyed, VeoUtil, veo_util, open_util, close_util,
  is_open,
}

-- From a new `veo_util`, where the calls that close succeed: `open` succeeds exactly if the
-- process is created and the library loaded, and `is_open` tells whether there is also a context;
-- `close` then completes. With a context, what was created and opened is closed and destroyed;
-- with a process and no context, nothing is destroyed.
pub open_util-close_util :
    (veo : ProcessCalls) (lib_path : String) (ve_node : ℕ)
    → let proc : ℕ = veo.proc_create ve_node in
      let dll : ℕ = veo.load_library proc lib_path in
      let ctx : ℕ = veo.context_open proc in
      let start : Bool × VeoUtil = open_util veo lib_path ve_node veo_util in
      veo.context_close ctx ≡ true
      → veo.proc_destroy proc ≡ true
      → (start.0 ≡ (not (proc == 0) && not (dll == 0)))
        × (is_open start.1 ≡ (start.0 && not (ctx == 0)))
        × ((end : VeoUtil) × (close_util veo start.1 ≡ done end)
            × (end.calls ≡ (
                if is_open start.1
                then created proc ∷ opened ctx ∷ closed ctx ∷ destroyed proc ∷ []
                else if proc == 0
                then []
                else created proc ∷ [])))
unfolding open_util close_util veo_util is_open
open_util-close_util veo lib_path ve_node context process =
    let proc : ℕ = veo.proc_create ve_node in
    let dll : ℕ = veo.load_library proc lib_path in
    let ctx : ℕ = veo.context_open proc in
    elim (Bool-cases (proc == 0)) [
      | inl p ↦ rw p (refl, refl, (veo_util, refl, refl))
      | inr p ↦ elim (Bool-cases (dll == 0)) [
        | inl l ↦
            rw (p, l)
              (
                refl,
                refl,
                (record { proc = proc; ctx = 0; dll = 0; calls = created proc ∷ [] }, refl, refl),
              )
        | inr l ↦ elim (Bool-cases (ctx == 0)) [
          | inl c ↦
              rw (p, l, c)
                (
                  refl,
                  refl,
                  (
                    record { proc = proc; ctx = ctx; dll = dll; calls = created proc ∷ [] },
                    refl,
                    refl,
                  ),
                )
          | inr c ↦
              rw (p, l, c, context, process)
                (
                  refl,
                  refl,
                  (
                    record {
                      proc = proc;
                      ctx = ctx;
                      dll = dll;
                      calls = created proc ∷ opened ctx ∷ closed ctx ∷ destroyed proc ∷ [];
                    },
                    refl,
                    refl,
                  ),
                )
        ]
      ]
    ]

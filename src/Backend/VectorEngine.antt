-- ===== src/Backend/VectorEngine.antt =====
-- The vector engine's memory operations: `veo_util` and `program_data_ve` of
-- include/neoSYCL/extensions/nec, over the VEO library, whose calls are parameters.
use Prim.Native.String.{String}
use neo_sycl.Prelude.{
  ℕ, ◌<◌, ◌≡◌, ◌≢◌, suc, subst, ℕ_discrete, ap, ◌∙◌, sym, false, some, none, List, length, arith,
  ◌==◌, if◌then◌else◌,
}
use neo_sycl.Outcome.{Outcome, done, throws, exception, ◌>>=◌}
use neo_sycl.Memory.{Heap, malloc, free, update}
use neo_sycl.Backend.{Backend, Allocator}

-- The calls of the library, each with its return code. The vector engine's memory is a part of the
-- heap that the handler knows.
pub record Veo : Type 0 where
  pub command_ok : ℕ
  pub alloc_mem : ℕ → Heap → ℕ × ℕ × Heap
  pub free_mem : ℕ → Heap → Heap
  pub write_mem : ℕ → ℕ → ℕ → Heap → ℕ × Heap
  pub read_mem : ℕ → ℕ → ℕ → Heap → ℕ × Heap

abbrev check : Veo → String → ℕ × Heap → Outcome Heap
check veo message (rt, h) = if rt == veo.command_ok then done h else throws (exception message)

-- `veo_util::alloc_mem`.
unfoldable pub ve_alloc_mem : Veo → ℕ → Heap → Outcome (ℕ × Heap)
ve_alloc_mem veo sz h =
    let (rt, address, h') = veo.alloc_mem sz h in
    if rt == veo.command_ok
    then done (address, h')
    else throws (exception "veo_util::alloc_mem() failed")

-- `veo_util::write_mem` and `read_mem`.
unfoldable pub ve_write_mem : Veo → ℕ → ℕ → ℕ → Heap → Outcome Heap
ve_write_mem veo dst src sz h =
    check veo "veo_util::write_mem() failed" (veo.write_mem dst src sz h)

unfoldable pub ve_read_mem : Veo → ℕ → ℕ → ℕ → Heap → Outcome Heap
ve_read_mem veo dst src sz h = check veo "veo_util::read_mem() failed" (veo.read_mem dst src sz h)

-- `veo_util::copy_mem`, through a temporary array on the host.
unfoldable pub ve_copy_mem : Veo → (ℕ → List ℕ) → ℕ → ℕ → ℕ → Heap → Outcome Heap
unfolding malloc free
ve_copy_mem veo junk dst src sz h = do
  let (tmp, h1) = malloc junk sz h
  h2 ← check veo "veo_util::copy_mem() failed" (veo.read_mem tmp src sz h1)
  h3 ← check veo "veo_util::copy_mem() failed" (veo.write_mem dst tmp sz h2)
  free tmp h3

-- `program_data_ve`; `free_mem` does not look at the return code.
unfoldable pub ve_backend : Veo → Allocator → Backend
unfolding ve_alloc_mem ve_write_mem ve_read_mem ve_copy_mem
ve_backend veo a = record {
  is_host = false;
  alloc_mem = λ p s h. ve_alloc_mem veo s h;
  free_mem = λ p h. done (veo.free_mem p h);
  write_mem = ve_write_mem veo;
  read_mem = ve_read_mem veo;
  copy_mem = ve_copy_mem veo a.junk;
}

-- What the library documents of a transfer of whole blocks: it succeeds, and the destination then
-- holds the bytes of the source.
abbrev pub Transfers : Veo → (ℕ → ℕ → ℕ → Heap → ℕ × Heap) → Type 0
Transfers veo call =
    (dst src sz : ℕ) (h : Heap) (from to : List ℕ)
    → h.block src ≡ some from
    → h.block dst ≡ some to
    → dst ≢ src
    → length from ≡ sz
    → length to ≡ sz
    → call dst src sz h ≡ (veo.command_ok, record h { block = update h.block dst (some from) })

check_ok :
    (veo : Veo) (message : String) (h : Heap) → check veo message (veo.command_ok, h) ≡ done h
check_ok veo message h = ground arith

not-some-eq-none : {x : List ℕ} → some x ≢ none
not-some-eq-none e = cc

-- On the vector engine, where the library's transfers of whole blocks copy the bytes and succeed,
-- and the temporary array is a fresh block: `copy_mem` between two blocks of `sz` bytes
-- completes; the destination then holds what the source held, and no other block is changed.
pub ve_copy_mem_lem :
    (veo : Veo) (alloc : Allocator) (dst src sz : ℕ) (h : Heap) (from to : List ℕ)
    → Transfers veo veo.read_mem
    → Transfers veo veo.write_mem
    → 0 < h.next
    → h.block h.next ≡ none
    → h.block src ≡ some from
    → h.block dst ≡ some to
    → dst ≢ src
    → length from ≡ sz
    → length to ≡ sz
    → (h' : Heap) × ((ve_backend veo alloc).copy_mem dst src sz h ≡ done h')
      × ((q : ℕ) → h'.block q ≡ (if dst == q then some from else h.block q))
unfolding ve_backend ve_copy_mem malloc free
ve_copy_mem_lem veo alloc dst src sz h from to reads writes pos fresh hs hd ne lf lt =
    let tmp : ℕ = h.next in
    let apart : tmp ≢ src = λ e. not-some-eq-none (sym hs ∙ ap h.block (sym e) ∙ fresh) in
    let apart' : tmp ≢ dst = λ e. not-some-eq-none (sym hd ∙ ap h.block (sym e) ∙ fresh) in
    let message : String = "veo_util::copy_mem() failed" in
    let h1 : Heap = record {
      next = suc h.next;
      block = update h.block tmp (some (alloc.junk sz));
    } in
    let h2 : Heap = record h1 { block = update h1.block tmp (some from) } in
    let h3 : Heap = record h2 { block = update h2.block dst (some from) } in
    let h4 : Heap = record h3 { block = update h3.block tmp none } in
    let e1 : check veo message (veo.read_mem tmp src sz h1) ≡ done h2 =
      ap (check veo message) (
        reads tmp src sz h1 from (alloc.junk sz) (ground arith) (ground arith) apart lf
          (alloc.length-junk sz))
      ∙ check_ok veo message h2 in
    let e2 : check veo message (veo.write_mem dst tmp sz h2) ≡ done h3 =
      ap (check veo message)
        (writes dst tmp sz h2 from to (ground arith) (ground arith) (λ e. apart' (sym e)) lf lt)
      ∙ check_ok veo message h3 in
    let e3 : free tmp h3 ≡ done h4 = ground arith in
    (
      h4,
      ap (λ o. o >>= λ h2. check veo message (veo.write_mem dst tmp sz h2) >>= λ h3. free tmp h3) e1
          ∙ ap (λ o. o >>= λ h3. free tmp h3) e2
          ∙ e3,
      λ q. elim (ℕ_discrete tmp q) [
        | yes e ↦
            subst (λ q. h4.block q ≡ (if dst == q then some from else h.block q)) e (ground arith)
        | no other ↦ ground arith
      ],
    )

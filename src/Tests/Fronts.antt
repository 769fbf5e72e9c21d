-- ===== src/Tests/Fronts.antt =====
-- Vectors, buffers, ranged accessors and the vector engine's process at small inputs.
use neo_sycl.Prelude.{
  ℕ, suc, ◌≡◌, ◌↔◌, ◌⊎◌, refl, true, false, some, ◌>>=◌, [], ◌∷◌, arith, Vec, nil, cons, zip_with?,
  map?,
}
use neo_sycl.SizeT.{BinaryOp, apply}
use neo_sycl.Outcome.{Outcome, done, throws, blocks, aborts, undefined}
use neo_sycl.Access.{Mode}
use neo_sycl.Range.{range_1, range_2}
use neo_sycl.Id.{id_1, id_2}
use neo_sycl.Backend.{cpu_backend}
use neo_sycl.Handler.{State}
use neo_sycl.Handler.Mapping.{Covers}
use neo_sycl.Vector.{
  binary, assign, assign_self, binary_value, assign_value, value_binary, outside, element,
}
use neo_sycl.Vector.Elementwise.{binary-zip_with?}
use neo_sycl.SyclBuffer.{
  BufferNd, Accessor, accessor, accessor_range, accessor_at, get_access_range,
}
use neo_sycl.SyclBuffer.Brackets.{
  accessor_bracket_2, get_access_host, get_access_host_range, accessor_bracket_2-accessor_at,
}
use neo_sycl.SyclBuffer.Ranged.{get_access_range-Covers, ranged_stride}
use neo_sycl.VectorEngine.{ProcessCalls, created, VeoUtil, veo_util, open_util, close_util, is_open}
use neo_sycl.VectorEngine.Process.{open_util-close_util}
use neo_sycl.Tests.Handling.{zeroed, world}

abbrev two : Vec ℕ 2
two = cons 7 (cons 9 nil)

abbrev other : Vec ℕ 2
other = cons 3 (cons 4 nil)

binary-zip_with?_example :
    (binary (apply BinaryOp.minus) two other two ≡ zip_with? (apply BinaryOp.minus) two other)
    × (assign (apply BinaryOp.minus) two other ≡ zip_with? (apply BinaryOp.minus) two other)
    × (assign_self (apply BinaryOp.minus) two ≡ zip_with? (apply BinaryOp.minus) two two)
    × (binary_value (apply BinaryOp.minus) two 1 two ≡ map? (λ a. apply BinaryOp.minus a 1) two)
    × (assign_value (apply BinaryOp.minus) two (outside 1)
        ≡ map? (λ a. apply BinaryOp.minus a 1) two)
    × (assign_value (apply BinaryOp.minus) (cons 1 two) (element 0) ≡ (do
      z ← apply BinaryOp.minus 1 1
      u ← map? (λ a. apply BinaryOp.minus a z) two
      some (cons z u)))
    × (value_binary (apply BinaryOp.minus) 1 other two ≡ map? (λ b. apply BinaryOp.minus b 1) other)
binary-zip_with?_example = binary-zip_with? (apply BinaryOp.minus) two other two 1

abbrev square : BufferNd 2
unfolding range_2
square = record { buffer_range = range_2 4 4; element_size = 1; container = 0 }

ranged_stride_example :
    (accessor_at 0 (accessor_range square (range_2 2 2) (id_2 0 0)) (id_2 1 1)
      ≡ accessor_at 0 (accessor square) (id_2 1 1))
    ↔ ((suc 0 ≡ 0) ⊎ (2 ≡ suc 3))
unfolding square
ranged_stride_example =
    ranged_stride 0 4 4 2 2 1 1 square (id_2 0 0) refl (omega arith) (omega arith) (omega arith)
      (omega arith) (omega arith)

abbrev small : BufferNd 1
unfolding range_1
small = record { buffer_range = range_1 2; element_size = 1; container = 0 }

-- The handler holds container 1 already.
abbrev before : State
before = record { world = world; acc = record { container = 1; mode = Mode.read } ∷ [] }

abbrev result_or {ℓ} : {A : Type ℓ} → A → Outcome A → A
result_or a (done b) = b
result_or a (throws e) = a
result_or a blocks = a
result_or a aborts = a
result_or a undefined = a

abbrev asked : Accessor 1 × State
unfolding small get_access_range cpu_backend accessor
asked =
    result_or (accessor small, before)
      (get_access_range (cpu_backend zeroed) 9 small (range_1 1) (id_1 0) Mode.write before)

get_access_range-Covers_example : Covers (cpu_backend zeroed) 9 0 Mode.write asked.1.acc
unfolding small get_access_range cpu_backend accessor
get_access_range-Covers_example =
    get_access_range-Covers (cpu_backend zeroed) 9 small (range_1 1) (id_1 0) Mode.write before
      asked.1 asked.0 refl refl

-- A library that cannot be loaded.
abbrev no_library : ProcessCalls
no_library = record {
  proc_create = λ node. 5;
  load_library = λ proc path. 0;
  context_open = λ proc. 6;
  context_close = λ ctx. true;
  proc_destroy = λ proc. true;
}

open_util-close_util_example :
    ((open_util no_library "kernel.so" 0 veo_util).0 ≡ false)
    × (is_open (open_util no_library "kernel.so" 0 veo_util).1 ≡ false)
    × ((end : VeoUtil) × (close_util no_library (open_util no_library "kernel.so" 0 veo_util).1
          ≡ done end)
        × (end.calls ≡ created 5 ∷ []))
unfolding open_util veo_util is_open
open_util-close_util_example = open_util-close_util no_library "kernel.so" 0 refl refl

accessor_bracket_2-accessor_at_example :
    (accessor_bracket_2 square (get_access_host square) 1 1
      ≡ accessor_at 0 (get_access_host square) (id_2 1 1))
    × ((accessor_bracket_2 square (get_access_host_range square (range_2 2 2) (id_2 0 0)) 1 1
          ≡ accessor_at 0 (get_access_host_range square (range_2 2 2) (id_2 0 0)) (id_2 1 1))
        ↔ ((suc 0 ≡ 0) ⊎ (2 ≡ suc 3)))
unfolding square
accessor_bracket_2-accessor_at_example =
    accessor_bracket_2-accessor_at 0 4 4 2 2 1 1 square (id_2 0 0) refl (omega arith) (omega arith)
      (omega arith) (omega arith) (omega arith)

-- ===== src/Kout/Helper.antt =====
-- `KoutPrinterHelper` of src/KoutPrinterHelper.cpp of the repository: the statements of a kernel's
-- body that it prints in clang's place.
use Prim.Native.String.{String}
use neo_sycl.Prelude.{
  ℕ, zero, suc, ◌+◌, ◌<◌, ◌≤◌, ◌≡◌, subst, refl, Bool, false, not, Option, none, some, [], ◌∷◌, ltb,
  ◌==◌, if◌then◌else◌, same_name, join, join_assoc, arith,
}
use neo_sycl.Outcome.{Outcome, done, undefined}
use neo_sycl.Kout.Print.{concat, range_vars}
use neo_sycl.Kout.Symbols.{Contains, Contains-run, Contains-before, Contains-after}

-- The record type of a declaration: none, a plain class, or an instance of a class template with
-- the value of its first argument.
pub data DeclClass : Type 0 where
  no_class plain_class : DeclClass
  instance_of : ℕ → DeclClass

-- A statement: an operator call with the number of its arguments, its method's name and class (if it
-- calls a method), and the value of its second argument (if constant); a reference, with whether it
-- names a value, the identifier of its base type, and the class of its declaration; a return, with
-- whether it has a value; another.
pub data Stmt : Type 0 where
  operator_call : ℕ → Option (String × String) → Option ℕ → Stmt
  reference : Bool → Option String → DeclClass → Stmt
  return_stmt : Bool → Stmt
  other_stmt : Stmt

module _ (digits : ℕ → String) where
  -- The three `Visit`; `none` leaves the statement to clang.
  unfoldable pub visit_operator : ℕ → Option (String × String) → Option ℕ → Option String
  visit_operator num_args none index = none
  visit_operator num_args (some (name, parent)) index =
      if ltb num_args 2
      then none
      else if not (same_name name "operator[]")
      then none
      else if same_name parent "neosycl::sycl::id"
      then elim index [ none ↦ none | some k ↦ some (concat ("i" ∷ digits k ∷ "_" ∷ [])) ]
      else none

  unfoldable pub visit_reference : Bool → Option String → DeclClass → Outcome (Option String)
  visit_reference is_value none c = done none
  visit_reference is_value (some name) c =
      if not is_value then done none else if not (same_name name "id") then done none else elim c [
        | no_class ↦ done none
        | plain_class ↦ undefined
        | instance_of ival ↦ done (if not (ival == 1) then none else some "i0_")
      ]

  unfoldable pub visit_return : Bool → Option String
  visit_return has_value = some "continue;\n"

  -- `handledStmt`.
  unfoldable pub handled_stmt : Stmt → Outcome (Option String)
  unfolding visit_operator visit_reference visit_return
  handled_stmt (operator_call num_args method index) = done (visit_operator num_args method index)
  handled_stmt (reference is_value base c) = visit_reference is_value base c
  handled_stmt (return_stmt has_value) = done (visit_return has_value)
  handled_stmt other_stmt = done none

  -- The declarations of the loop variables, from the one of dimension `i` on.
  declares :
      (left i k : ℕ)
      → k < left
      → Contains
          (range_vars digits left i)
          (concat ("size_t " ∷ "i" ∷ digits (i + k) ∷ "_" ∷ ";\n" ∷ []))
  unfolding range_vars
  declares zero i k h = elim h [ ]
  declares (suc left) i zero h =
      let same : i + 0 ≡ i = omega arith in
      Contains-before _ (range_vars digits left (i + 1)) _ (
        Contains-run [] ("size_t " ∷ "i" ∷ digits i ∷ "_" ∷ ";\n" ∷ [])
          ("size_t r"
            ∷ digits i
            ∷ "_ = r_["
            ∷ digits i
            ∷ "]  ;\nsize_t o"
            ∷ digits i
            ∷ "_ = r_["
            ∷ digits (i + 3)
            ∷ "]  ;\n"
            ∷ [])
          (rw same refl))
  declares (suc left) i (suc k) h =
      let same : i + suc k ≡ (i + 1) + k = omega arith in
      Contains-after _ (range_vars digits left (i + 1)) _
        (rw same (declares left (i + 1) k (omega arith)))

  -- An element `k` of an `id`, below the dimension of the loops, is printed as the name of a
  -- variable that the variables written before the loops declare.
  pub visit_operator-range_vars :
      (dim k num_args : ℕ)
      → k < dim
      → 2 ≤ num_args
      → (text : String) × (visit_operator num_args
            (some ("operator[]", "neosycl::sycl::id"))
            (some k)
          ≡ some text)
        × Contains (range_vars digits dim 0) (join "size_t " (join text ";\n"))
  unfolding visit_operator
  visit_operator-range_vars dim k num_args h two =
      let same : 0 + k ≡ k = omega arith in
      let enough : ltb num_args 2 ≡ false = ground arith in
      (
        concat ("i" ∷ digits k ∷ "_" ∷ []),
        rw enough refl,
        subst (Contains (range_vars digits dim 0)) (simp (join_assoc, same)) (declares dim 0 k h),
      )

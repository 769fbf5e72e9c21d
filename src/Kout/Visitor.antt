-- ===== src/Kout/Visitor.antt =====
-- `KoutVisitor` of src/KoutVisitor.cpp of the repository: which calls it outlines, and what it writes
-- for them and for type aliases; and `HandleTranslationUnit` of src/main.cpp, which writes the files.
pub mod Device
use Prim.Native.String.{String}
use neo_sycl.Prelude.{
  ℕ, Bool, true, false, ◌&&◌, ◌||◌, not, Option, none, some, List, [], ◌∷◌, ◌++◌, length, ltb, ◌==◌,
  if◌then◌else◌, same_name, join,
}
use neo_sycl.Outcome.{Outcome, done, aborts, undefined, ◌>>=◌}
use neo_sycl.Kout.{Decl, Event, Finder, new_finder, traverse}
use neo_sycl.Kout.Print.{
  concat, Capture, KoutData, print_var_decls, print_run_func, write_dev_code, write_host_code,
}

-- The body of a lambda: what the traversal meets in it, and its text, printed by the helper.
pub record Body : Type 0 where
  pub events : List Event
  pub text : String

pub record Functor : Type 0 where
  pub captures : List Capture
  pub params : List Decl
  pub body : Option Body

-- What `getAsCXXRecordDecl` gives for the kernel's type.
pub data FunctorClass : Type 0 where
  no_class not_lambda : FunctorClass
  lambda : Functor → FunctorClass

-- A template argument: a type, with its text and the identifier of its base type; a number; else.
pub data TemplateArg : Type 0 where
  type_arg : String → Option String → FunctorClass → TemplateArg
  integral_arg : ℕ → TemplateArg
  other_arg : TemplateArg

-- A member call; `args` are the printed arguments, `location` is where the call begins.
pub record Call : Type 0 where
  pub template_args : Option (List TemplateArg)
  pub num_params : ℕ
  pub implicit_object : Option String
  pub args : List String
  pub location : ℕ

-- `checkCXXMCallExpr` up to its guards on the number of arguments.
abbrev pub right_size : Bool → ℕ → ℕ → Bool
right_size is_single num_params size =
    if is_single
    then not (not (num_params == 1) || not (size == 2))
    else not (ltb num_params 2 || not (size == 3))

abbrev pub dimension : Bool → List TemplateArg → Option ℕ
dimension true rest = some 0
dimension false [] = none
dimension false (type_arg n b c ∷ rest) = none
dimension false (integral_arg dim ∷ rest) = some dim
dimension false (other_arg ∷ rest) = none

-- The range and the offset, which only a `parallel_for` has.
abbrev pub print_args : Bool → List String → KoutData → Outcome KoutData
print_args true args data' = done data'
print_args false [] data' = undefined
print_args false (arg0 ∷ []) data' = done (record data' { range = join data'.range arg0 })
print_args false (arg0 ∷ arg1 ∷ rest) data' = done (record data' {
  range = join data'.range arg0;
  offset = if length rest == 1 then join data'.offset arg1 else data'.offset;
})

abbrev pub captured_vars : List Capture → List Decl
captured_vars [] = []
captured_vars (i ∷ is) =
    let rest = captured_vars is in if i.captures_variable then i.captured_var ∷ rest else rest

-- The end of `checkCXXMCallExpr`, after an early return or after the texts of the class.
unfoldable pub finish_call : Option (KoutData × Finder) → String → Outcome (String × String)
unfolding write_host_code write_dev_code
finish_call none kern_code = done ("", kern_code)
finish_call (some (data', finder)) kern_code = do
  host ← write_host_code data' finder
  done (
    concat ("\n// --- BEGIN---\n" ∷ host ∷ "\n// --- END ---\n" ∷ []),
    join kern_code (write_dev_code data'),
  )

module _ (regex_search : String → String → Bool) (digits : ℕ → String) where
  -- From the finder on.
  unfoldable pub outline_body :
      Bool → List String → Functor → KoutData → Outcome (Option (KoutData × Finder))
  unfolding traverse new_finder print_var_decls print_run_func
  outline_body is_single args functor data' = elim functor.body [
    | none ↦ done none
    | some body ↦ do
      let finder : Finder =
          traverse regex_search body.events (new_finder (captured_vars functor.captures))
      data1 ← print_var_decls functor.captures finder data'
      data2 ← print_run_func digits body.text functor.params data1
      data3 ← print_args is_single args data2
      done (some (data3, finder))
  ]

  unfoldable pub outline_functor :
      Bool
      → Call
      → String
      → Option String
      → FunctorClass
      → List TemplateArg
      → Outcome (Option (KoutData × Finder))
  unfolding outline_body
  outline_functor is_single ce name base no_class rest = undefined
  outline_functor is_single ce name base not_lambda rest = elim (dimension is_single rest) [
    | none ↦ done none
    | some dim ↦ elim ce.implicit_object [ none ↦ aborts | some handler ↦ undefined ]
  ]
  outline_functor is_single ce name base (lambda functor) rest = elim (dimension is_single rest) [
    | none ↦ done none
    | some dim ↦ elim ce.implicit_object [
      | none ↦ aborts
      | some handler ↦ outline_body is_single ce.args functor (record {
        handler = handler;
        kernel = elim base [ none ↦ name | some identifier ↦ identifier ];
        range = "";
        offset = "";
        func = "";
        var = "";
        dim = dim;
        vlist = [];
        alist = [];
      })
    ]
  ]

  abbrev pub outline_types : Bool → Call → List TemplateArg → Outcome (Option (KoutData × Finder))
  outline_types is_single ce (type_arg name base c ∷ type_arg name' base' functor ∷ rest) =
      outline_functor is_single ce name base functor rest
  outline_types is_single ce targs = done none

  -- `checkCXXMCallExpr` up to the texts of the class; `none` is an early return.
  unfoldable pub outline : Bool → Call → Outcome (Option (KoutData × Finder))
  unfolding outline_functor
  outline is_single ce = elim ce.template_args [
    | none ↦ done none
    | some targs ↦
        if not (right_size is_single ce.num_params (length targs))
        then done none
        else outline_types is_single ce targs
  ]

  -- `checkCXXMCallExpr`: the text that goes before the call, and the device code.
  unfoldable pub check_call : Bool → Call → String → Outcome (String × String)
  unfolding outline finish_call
  check_call is_single ce kern_code = do
    outlined ← outline is_single ce
    finish_call outlined kern_code

-- The method that a call names: `cname` and the type of the class's first base, which goes before it.
pub record Method : Type 0 where
  pub static : Bool
  pub name : String
  pub object_type : String
  pub base : Option String

-- The insertions of the rewriter, and the device code.
pub record Outputs : Type 0 where
  pub insertions : List (ℕ × String)
  pub kern_code : String

abbrev pub class_of : Method → String
class_of m = elim m.base [ none ↦ m.object_type | some b ↦ b ]

-- Which of the two calls it is, if any: `some true` for `single_task`.
unfoldable pub kernel_call : Option Method → Option Bool
kernel_call none = none
kernel_call (some m) =
    if m.static
    then none
    else if not (same_name (class_of m) "class neosycl::sycl::handler")
    then none
    else if same_name m.name "single_task"
    then some true
    else if same_name m.name "parallel_for"
    then some false
    else none

-- What the visitor meets in a translation unit: member calls and type aliases.
pub data Top : Type 0 where
  member_call : Option Method → Call → Top
  type_alias : (in_function in_main_file : Bool) → String → Top

module _ (regex_search : String → String → Bool) (digits : ℕ → String) where
  -- `VisitCXXMemberCallExpr`, from its tests of the names on, and whole.
  unfoldable pub visit_kernel_call : Option Bool → Call → Outputs → Outcome Outputs
  unfolding check_call
  visit_kernel_call none ce u = done u
  visit_kernel_call (some is_single) ce u = do
    (class_def, kern_code) ← check_call regex_search digits is_single ce u.kern_code
    done (record u {
      insertions =
          if same_name class_def ""
          then u.insertions
          else u.insertions ++ (ce.location, class_def) ∷ [];
      kern_code = kern_code;
    })

  unfoldable pub visit_call : Option Method → Call → Outputs → Outcome Outputs
  unfolding kernel_call visit_kernel_call
  visit_call m ce u = visit_kernel_call (kernel_call m) ce u

  unfoldable pub visit_top : Top → Outputs → Outcome Outputs
  unfolding visit_call
  visit_top (member_call m ce) u = visit_call m ce u
  visit_top (type_alias in_function in_main_file text) u = done (
      if in_function
      then u
      else if in_main_file
      then record u { kern_code = join (join u.kern_code text) ";\n" }
      else u)

  unfoldable pub visit_unit : List Top → Outputs → Outcome Outputs
  unfolding visit_top
  visit_unit [] u = done u
  visit_unit (t ∷ ts) u = do u' ← visit_top t u; visit_unit ts u'

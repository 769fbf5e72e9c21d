-- ===== src/Tests/Outlining.antt =====
-- The outliner on a small kernel: `[=](id<1> i) { acc[i] = f(x); }`.
use Prim.Native.String.{String}
use neo_sycl.Prelude.{
  ℕ, ◌≡◌, refl, Bool, true, false, Option, none, some, List, [], ◌∷◌, ◌==◌, if◌then◌else◌,
  same_name, inl,
}
use neo_sycl.Outcome.{Outcome, done, throws, blocks, aborts, undefined}
use neo_sycl.Kout.{
  Decl, function_decl, parm_var_decl, var_decl, no_record, specialization, Event, decl_ref, Finder,
  is_function, is_parm, is_var, is_value, traverse, new_finder,
}
use neo_sycl.Kout.Print.{Capture, KoutData, print_var_decls, initialisers}
use neo_sycl.Kout.Layout.{declarations, inits, layout, print_var_decls-initialisers}
use neo_sycl.Kout.Symbols.{Contains, function_definition, object_definition, range_definition}
use neo_sycl.Kout.Visitor.{
  no_class, lambda, type_arg, integral_arg, Call, Method, Outputs, Top, member_call, visit_unit,
  outline,
}
use neo_sycl.Kout.Visitor.Device.{visit_unit-kernel_data, LooksUp}

abbrev variable : ℕ → String → Decl
variable i name = record {
  id = i;
  kind = var_decl;
  identifier = some name;
  name_as_string = name;
  type_text = "int";
  array = none;
  base_type = none;
  record_type = no_record;
  has_body = false;
  in_main_file = true;
  inlined = false;
  print_text = "";
}

abbrev x_decl : Decl
x_decl = variable 1 "x"

abbrev acc_decl : Decl
acc_decl = record (variable 2 "acc") {
  type_text = "neosycl::sycl::accessor<float, 1>";
  base_type = some "accessor";
  record_type = specialization "float";
}

abbrev i_decl : Decl
i_decl = record (variable 3 "i") { kind = parm_var_decl; base_type = some "id" }

abbrev f_decl : Decl
f_decl = record (variable 4 "f") {
  kind = function_decl;
  has_body = true;
  print_text = "int f(int x) { return x; }\n";
}

abbrev search : String → String → Bool
search re text = same_name text "neosycl::sycl::accessor<float, 1>"

abbrev digits : ℕ → String
digits n = if n == 0 then "0" else if n == 1 then "1" else if n == 3 then "3" else "?"

abbrev events : List Event
events =
    decl_ref acc_decl none
    ∷ decl_ref i_decl none
    ∷ decl_ref f_decl (some f_decl)
    ∷ decl_ref x_decl none
    ∷ []

abbrev captured : List Decl
captured = x_decl ∷ acc_decl ∷ []

abbrev found : Finder
found = traverse search events (new_finder captured)

-- `f` declared before it is defined.
abbrev f_declared : Decl
f_declared = record f_decl { id = 5; has_body = false }

abbrev capture_of : Decl → Capture
capture_of d = record { captures_variable = true; captured_var = d; explicit = false; init = none }

abbrev captures : List Capture
captures = capture_of x_decl ∷ capture_of acc_decl ∷ []

abbrev start : KoutData
start = record {
  handler = "h";
  kernel = "K";
  range = "";
  offset = "";
  func = "";
  var = "";
  dim = 1;
  vlist = [];
  alist = [];
}

print_var_decls-initialisers_example :
    (out : KoutData) × (print_var_decls captures found start ≡ done out)
    × (out.var ≡ declarations (layout "h" captures found))
    × (initialisers out found ≡ done (inits (layout "h" captures found)))
unfolding traverse new_finder is_function is_parm is_var is_value
print_var_decls-initialisers_example =
    print_var_decls-initialisers captures found start (refl, tt) (refl, (refl, tt)) refl refl refl

-- The text of the class that the layout stands for.
class_members :
    declarations (layout "h" captures found)
    ≡ "int f(int x) { return x; }\nint x;\ncl::sycl::rt::acc_<float> acc;\n"
unfolding traverse new_finder is_function is_parm is_var is_value print_var_decls
class_members = refl

object_initialisers : inits (layout "h" captures found) ≡ "x" ∷ "h.map_(acc)" ∷ []
unfolding traverse new_finder is_function is_parm is_var is_value
object_initialisers = refl

abbrev call : Call
call = record {
  template_args = some (
      type_arg "K" (some "K") no_class
      ∷ type_arg "(lambda)" none (
          lambda (record {
            captures = captures;
            params = i_decl ∷ [];
            body = some (record { events = events; text = "{ acc[i0_] = f(x); }" });
          }))
      ∷ integral_arg 1
      ∷ []);
  num_params = 2;
  implicit_object = some "h";
  args = "range<1>(4)" ∷ "kernel" ∷ [];
  location = 100;
}

abbrev parallel_for_method : Method
parallel_for_method = record {
  static = false;
  name = "parallel_for";
  object_type = "class neosycl::sycl::handler";
  base = none;
}

abbrev unit : List Top
unit = member_call (some parallel_for_method) call ∷ []

abbrev nothing : Outputs
nothing = record { insertions = []; kern_code = "" }

abbrev outcome_or {ℓ} : {A : Type ℓ} → A → Outcome A → A
outcome_or a (done b) = b
outcome_or a (throws e) = a
outcome_or a blocks = a
outcome_or a aborts = a
outcome_or a undefined = a

abbrev outputs : Outputs
unfolding visit_unit is_function is_parm is_var is_value
outputs = outcome_or nothing (visit_unit search digits unit nothing)

abbrev outlined : Option (KoutData × Finder)
unfolding outline is_function is_parm is_var is_value
outlined = outcome_or none (outline search digits false call)

abbrev kernel_data' : KoutData
unfolding outline is_function is_parm is_var is_value
kernel_data' = elim outlined [ none ↦ start | some (d, f) ↦ d ]

device_code :
    outputs.kern_code
    ≡ "size_t  __K_range__[6]={1,1,1,0,0,0};\nclass K {\npublic:\nvoid run()\n{ size_t* r_ = __K_range__\n;size_t i0_;\nsize_t r0_ = r_[0]  ;\nsize_t o0_ = r_[3]  ;\n#pragma omp parallel for\n#pragma _NEC ivdep\nfor(i0_=o0_;i0_ < r0_;i0_++)\n{ [[maybe_unused]] cl::sycl::id<1> i(i0_);\n{ acc[i0_] = f(x); }}}\n\nint f(int x) { return x; }\nint x;\ncl::sycl::rt::acc_<float> acc;\n\n} __K_obj__;\n\nextern \"C\" {\nint K() {\n__K_obj__.run();\nreturn 0;\n}\n}\n\n"
unfolding visit_unit is_function is_parm is_var is_value
device_code = refl

visit_unit-kernel_data_example :
    (func capt rnge : String) × LooksUp "K" func capt rnge
    × Contains outputs.kern_code (function_definition func)
    × Contains outputs.kern_code (object_definition capt)
    × Contains outputs.kern_code (range_definition rnge)
unfolding visit_unit is_function is_parm is_var is_value
visit_unit-kernel_data_example =
    visit_unit-kernel_data search digits unit nothing outputs kernel_data' refl
      (inl (false, found, refl, refl))

-- ===== src/Kout/Print.antt =====
-- The texts that src/KoutVisitor.cpp of the repository writes for a kernel: the class with the
-- kernel's variables, its `run` function with the loop nest, the host code and the device code.
use Prim.Native.String.{String}
use neo_sycl.Prelude.{
  ℕ, zero, suc, ◌+◌, Bool, true, false, ◌&&◌, not, Option, none, some, List, [], ◌∷◌, ◌++◌, map,
  ◌==◌, if◌then◌else◌, same_name, join,
}
use neo_sycl.Outcome.{Outcome, done, aborts, undefined, or_undefined, ◌>>=◌}
use neo_sycl.Kout.{
  Decl, is_function, is_var, is_value, is_some, no_record, plain_record, specialization, Finder,
}

abbrev pub concat : List String → String
concat [] = ""
concat (s ∷ ss) = join s (concat ss)

-- A capture of the kernel's lambda; `init` is the printed initialiser of its variable.
pub record Capture : Type 0 where
  pub captures_variable : Bool
  pub captured_var : Decl
  pub explicit : Bool
  pub init : Option String

-- `KoutData`, less what clang needs to print.
pub record KoutData : Type 0 where
  pub handler : String
  pub kernel : String
  pub range : String
  pub offset : String
  pub func : String
  pub var : String
  pub dim : ℕ
  pub vlist : List Capture
  pub alist : List Capture

-- `printAccessor`: of a class that is no template instance, it reads through a null pointer.
unfoldable pub print_accessor : Decl → Outcome String
print_accessor d = elim d.identifier [
  | none ↦ done ""
  | some name ↦ if not (is_var d) then done "" else elim d.record_type [
    | no_record ↦ done ""
    | plain_record ↦ undefined
    | specialization t ↦ done (concat ("cl::sycl::rt::acc_<" ∷ t ∷ "> " ∷ name ∷ ";\n" ∷ []))
  ]
]

-- `printVar`.
unfoldable pub print_var : Decl → String
print_var d =
    if is_function d
    then if d.in_main_file && not d.inlined then d.print_text else ""
    else if not (is_value d && is_some d.identifier)
    then ""
    else elim d.array [
      | none ↦ concat (d.type_text ∷ " " ∷ d.name_as_string ∷ ";\n" ∷ [])
      | some (element, size) ↦ concat (element ∷ " " ∷ d.name_as_string ∷ "[" ∷ size ∷ "];\n" ∷ [])
    ]

abbrev pub is_accessor_type : Option String → Bool
is_accessor_type none = false
is_accessor_type (some name) = same_name name "accessor"

-- The loop of `printVarDecls` over the captures.
unfoldable pub sort_captures : List Capture → KoutData → KoutData
sort_captures [] data' = data'
sort_captures (i ∷ is) data' = sort_captures is (
    if not i.captures_variable
    then data'
    else if is_accessor_type i.captured_var.base_type
    then record data' { alist = data'.alist ++ i ∷ [] }
    else record data' { vlist = data'.vlist ++ i ∷ [] })

unfoldable pub print_accessors : List Capture → Outcome String
unfolding print_accessor
print_accessors [] = done ""
print_accessors (i ∷ is) = do
  s ← print_accessor i.captured_var
  rest ← print_accessors is
  done (join s rest)

-- `printVarDecls`.
unfoldable pub print_var_decls : List Capture → Finder → KoutData → Outcome KoutData
unfolding print_var sort_captures print_accessors
print_var_decls captures finder data' = do
  let members = concat (map print_var finder.vlist)
  let sorted : KoutData = sort_captures captures data'
  let variables = concat (map (λ i. print_var i.captured_var) sorted.vlist)
  accessors ← print_accessors sorted.alist
  done (record sorted { var = concat (data'.var ∷ members ∷ variables ∷ accessors ∷ []) })

-- `printLoop` and `printRunFunc`, over the digits that `<<` writes for a number.
module _ (digits : ℕ → String) where
  -- The variables of dimension `i`, and of the `left` dimensions from `i` on.
  unfoldable pub range_vars : ℕ → ℕ → String
  range_vars zero i = ""
  range_vars (suc left) i =
      join
        (concat (
          "size_t "
          ∷ "i"
          ∷ digits i
          ∷ "_"
          ∷ ";\n"
          ∷ "size_t r"
          ∷ digits i
          ∷ "_ = r_["
          ∷ digits i
          ∷ "]  ;\nsize_t o"
          ∷ digits i
          ∷ "_ = r_["
          ∷ digits (i + 3)
          ∷ "]  ;\n"
          ∷ []))
        (range_vars left (i + 1))

  unfoldable pub for_headers : ℕ → ℕ → String
  for_headers zero i = ""
  for_headers (suc left) i =
      join
        (concat (
          "for(i"
          ∷ digits i
          ∷ "_=o"
          ∷ digits i
          ∷ "_;i"
          ∷ digits i
          ∷ "_ < r"
          ∷ digits i
          ∷ "_;i"
          ∷ digits i
          ∷ "_++)\n"
          ∷ []))
        (for_headers left (i + 1))

  -- The declaration of the kernel's argument, which opens the block.
  unfoldable pub index_decl : String → ℕ → String → Outcome String
  index_decl vtype dim vname =
      if same_name vtype "id"
      then done (
          if dim == 1
          then concat ("{ [[maybe_unused]] cl::sycl::id<1> " ∷ vname ∷ "(i0_);\n" ∷ [])
          else if dim == 2
          then concat ("{ [[maybe_unused]] cl::sycl::id<2> " ∷ vname ∷ "(i0_,i1_);\n" ∷ [])
          else if dim == 3
          then concat ("{ [[maybe_unused]] cl::sycl::id<3> " ∷ vname ∷ "(i0_,i1_,i2_);\n" ∷ [])
          else "")
      else if same_name vtype "item"
      then done (
          if dim == 1
          then concat (
              "{ [[maybe_unused]] cl::sycl::item<1> " ∷ vname ∷ "= cl::sycl::rt::id2item(r_,i0_);\n"
              ∷ [])
          else if dim == 2
          then concat (
              "{ [[maybe_unused]] cl::sycl::item<2> " ∷ vname
              ∷ "= cl::sycl::rt::id2item(r_,i0_,i1_);\n" ∷ [])
          else if dim == 3
          then concat (
              "{ [[maybe_unused]] cl::sycl::item<3> " ∷ vname
              ∷ "= cl::sycl::rt::id2item(r_,i0_,i1_,i2_);\n" ∷ [])
          else "")
      else aborts

  -- `printLoop`: nothing for a parameter with no name; it reads the name of the base type
  -- unchecked.
  unfoldable pub print_loop : String → Decl → ℕ → Outcome String
  unfolding range_vars for_headers index_decl
  print_loop body d dim = elim d.identifier [
    | none ↦ done ""
    | some vname ↦ if not (is_var d) then done "" else do
      vtype ← or_undefined d.base_type
      decl ← index_decl vtype dim vname
      done (
          concat (
            range_vars dim 0
            ∷ "#pragma omp parallel for\n"
            ∷ "#pragma _NEC ivdep\n"
            ∷ for_headers dim 0
            ∷ decl
            ∷ body
            ∷ "}"
            ∷ []))
  ]

  -- `printRunFunc`, with its assertion that the operator has a parameter.
  unfoldable pub print_run_func : String → List Decl → KoutData → Outcome KoutData
  unfolding print_loop
  print_run_func body params data' =
      if data'.dim == 0
      then done (record data' { func = concat (data'.func ∷ "void run()\n" ∷ body ∷ []) })
      else elim params [
        | [] ↦ aborts
        | d ∷ _ ↦ do
          loop ← print_loop body d data'.dim
          done (record data' {
            func = concat (
                data'.func ∷ "void run()\n" ∷ "{ size_t* r_ = __" ∷ data'.kernel ∷ "_range__\n;"
                ∷ loop ∷ "}\n" ∷ []);
          })
      ]

-- `writeDevCode`: its literals, cut where a symbol begins or ends.
unfoldable pub write_dev_code : KoutData → String
write_dev_code data' =
    let cls = data'.kernel in
    concat (
      "size_t  " ∷ "__" ∷ cls ∷ "_range__" ∷ "[6]=" ∷ "{1,1,1,0,0,0};\n" ∷ "class " ∷ cls ∷ " {\n"
      ∷ "public:\n" ∷ data'.func ∷ "\n" ∷ data'.var ∷ "\n" ∷ "} " ∷ "__" ∷ cls ∷ "_obj__" ∷ ";\n"
      ∷ "\n" ∷ "extern \"C\" {\n" ∷ "int " ∷ cls ∷ "() {\n" ∷ "__" ∷ cls ∷ "_obj__.run(" ∷ ");\n"
      ∷ "return 0;\n}\n" ∷ "}\n\n" ∷ [])

-- The initialisers of `writeHostCode`, in the order in which it writes them; `first` decides on the
-- comma before each.
abbrev pub found_inits : List Decl → List String
found_inits [] = []
found_inits (d ∷ ds) =
    let rest = found_inits ds in
    if is_function d then rest else elim d.identifier [ none ↦ rest | some name ↦ name ∷ rest ]

abbrev pub capture_init : Capture → String
capture_init i =
    if i.explicit
    then elim i.init [ none ↦ i.captured_var.name_as_string | some e ↦ e ]
    else i.captured_var.name_as_string

abbrev pub capture_inits : List Capture → List String
capture_inits [] = []
capture_inits (i ∷ is) =
    let rest = capture_inits is in if not i.captures_variable then rest else capture_init i ∷ rest

abbrev pub accessor_inits : String → List Capture → Outcome (List String)
accessor_inits handler [] = done []
accessor_inits handler (i ∷ is) = do
  name ← or_undefined i.captured_var.identifier
  rest ← accessor_inits handler is
  done (concat (handler ∷ ".map_(" ∷ name ∷ ")" ∷ []) ∷ rest)

abbrev pub commas : Bool → List String → String
commas first [] = ""
commas first (s ∷ ss) = join (if first then "" else ",") (join s (commas false ss))

-- What the braces of the captured object hold.
unfoldable pub initialisers : KoutData → Finder → Outcome (List String)
initialisers data' finder = do
  accessors ← accessor_inits data'.handler data'.alist
  done (found_inits finder.vlist ++ (capture_inits data'.vlist ++ accessors))

-- `writeHostCode`.
unfoldable pub write_host_code : KoutData → Finder → Outcome String
unfolding initialisers
write_host_code data' finder = do
  let cls = data'.kernel
  inits ← initialisers data' finder
  done (
      concat (
        data'.handler
        ∷ ".run<class "
        ∷ cls
        ∷ ">("
        ∷ (if not (data'.dim == 0) && not (same_name data'.range "")
            then concat (
                data'.range
                ∷ ","
                ∷ (if not (same_name data'.offset "") then join data'.offset "," else "")
                ∷ [])
            else "")
        ∷ "[&](cl::sycl::kernel& __kern__){\n"
        ∷ "class "
        ∷ cls
        ∷ " {\n"
        ∷ "public:\n"
        ∷ data'.var
        ∷ "\n"
        ∷ "} __"
        ∷ cls
        ∷ "_obj__"
        ∷ " {\n"
        ∷ commas true inits
        ∷ "};\n"
        ∷ data'.handler
        ∷ ".set_capture_(__kern__, "
        ∷ "(void*)&__"
        ∷ cls
        ∷ "_obj__,"
        ∷ "sizeof(__"
        ∷ cls
        ∷ "_obj__));\n});\n"
        ∷ []))

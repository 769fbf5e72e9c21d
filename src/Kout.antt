-- ===== src/Kout.antt =====
-- The kernel outliner, include/neoSYCL/kout and src of the repository: what it asks clang of a
-- declaration, and `VarDeclFinder`, which finds what a kernel refers to.
pub mod Finding
pub mod Sorting
pub mod Print
pub mod Layout
pub mod Symbols
pub mod Items
pub mod Visitor
pub mod Helper
pub mod Files
use Prim.Native.String.{String}
use neo_sycl.Prelude.{
  ℕ, Bool, true, false, ◌&&◌, not, Option, none, some, List, [], ◌∷◌, ◌++◌, ◌==◌, if◌then◌else◌,
}

-- The classes of clang that `dyn_cast` asks for: a function, a parameter, another variable, another
-- value (a field, an enumerator), anything else.
pub data DeclKind : Type 0 where
  function_decl parm_var_decl var_decl other_value_decl other_decl : DeclKind

-- The record type of a variable: none, a plain class, or an instance of a class template with the
-- text of its first type argument.
pub data RecordType : Type 0 where
  no_record plain_record : RecordType
  specialization : String → RecordType

-- A declaration goes by a number, which stands for its address. `identifier` is `getIdentifier()`,
-- `type_text` the type without its qualifiers, `array` the element type and the size of a constant
-- array, `base_type` the identifier of the base type, and `print_text` what `print` writes.
pub record Decl : Type 0 where
  pub id : ℕ
  pub kind : DeclKind
  pub identifier : Option String
  pub name_as_string : String
  pub type_text : String
  pub array : Option (String × String)
  pub base_type : Option String
  pub record_type : RecordType
  pub has_body : Bool
  pub in_main_file : Bool
  pub inlined : Bool
  pub print_text : String

unfoldable pub is_function : Decl → Bool
is_function d = elim d.kind [
  | function_decl ↦ true
  | parm_var_decl ↦ false
  | var_decl ↦ false
  | other_value_decl ↦ false
  | other_decl ↦ false
]

unfoldable pub is_parm : Decl → Bool
is_parm d = elim d.kind [
  | function_decl ↦ false
  | parm_var_decl ↦ true
  | var_decl ↦ false
  | other_value_decl ↦ false
  | other_decl ↦ false
]

unfoldable pub is_var : Decl → Bool
is_var d = elim d.kind [
  | function_decl ↦ false
  | parm_var_decl ↦ true
  | var_decl ↦ true
  | other_value_decl ↦ false
  | other_decl ↦ false
]

unfoldable pub is_value : Decl → Bool
is_value d = elim d.kind [
  | function_decl ↦ true
  | parm_var_decl ↦ true
  | var_decl ↦ true
  | other_value_decl ↦ true
  | other_decl ↦ false
]

abbrev pub is_some {ℓ} : {A : Type ℓ} → Option A → Bool
is_some none = false
is_some (some a) = true

-- The lists of a `VarDeclFinder`.
pub record Finder : Type 0 where
  pub vlist : List Decl
  pub alist : List Decl
  pub decl_list : List Decl
  pub parm_list : List Decl

-- `isInList`.
abbrev pub is_in_list : List Decl → Decl → Bool
is_in_list [] d = false
is_in_list (item ∷ l) d = let rest = is_in_list l d in if item.id == d.id then true else rest

-- What the traversal of a kernel's body meets, in its order: a declaration; a reference, with the
-- definition of the function that it names, if it has one; a member, with whether its object is
-- `this`.
pub data Event : Type 0 where
  decl : Decl → Event
  decl_ref : Decl → Option Decl → Event
  member : Bool → Decl → Event

abbrev pub push_function : Decl → Finder → Finder
push_function fd f = if fd.has_body then record f { vlist = f.vlist ++ fd ∷ [] } else f

unfoldable pub visit_decl : Decl → Finder → Finder
visit_decl d f = record f { decl_list = f.decl_list ++ d ∷ [] }

unfoldable pub visit_member_expr : Bool → Decl → Finder → Finder
visit_member_expr base_is_this d f =
    if not base_is_this
    then f
    else if is_in_list f.vlist d
    then f
    else if is_some d.identifier
    then record f { vlist = f.vlist ++ d ∷ [] }
    else f

module _ (regex_search : String → String → Bool) where
  -- `isAccessor`, over the regular expressions of the standard library.
  abbrev pub is_accessor : String → Bool
  is_accessor type_name = regex_search "(neosycl::sycl::accessor)<.*>" type_name

  unfoldable pub visit_decl_ref : Decl → Option Decl → Finder → Finder
  visit_decl_ref d definition f =
      if is_in_list f.decl_list d
      then f
      else if is_in_list f.vlist d
      then f
      else if is_in_list f.alist d
      then f
      else if is_in_list f.parm_list d
      then f
      else if is_function d
      then elim definition [ none ↦ push_function d f | some fd ↦ push_function fd f ]
      else if is_parm d && is_some d.identifier
      then record f { decl_list = f.decl_list ++ d ∷ []; parm_list = f.parm_list ++ d ∷ [] }
      else if is_value d && is_some d.identifier
      then if is_accessor d.type_text
        then record f { alist = f.alist ++ d ∷ [] }
        else record f { vlist = f.vlist ++ d ∷ [] }
      else f

  abbrev pub visit : Event → Finder → Finder
  visit (decl d) f = visit_decl d f
  visit (decl_ref d definition) f = visit_decl_ref d definition f
  visit (member base_is_this d) f = visit_member_expr base_is_this d f

  unfoldable pub traverse : List Event → Finder → Finder
  unfolding visit_decl visit_decl_ref visit_member_expr
  traverse [] f = f
  traverse (e ∷ es) f = traverse es (visit e f)

-- The finder of `checkCXXMCallExpr`: the captured variables are known from the start.
unfoldable pub new_finder : List Decl → Finder
new_finder captured = record { vlist = []; alist = []; decl_list = captured; parm_list = [] }

-- ===== src/Kout/Layout.antt =====
-- The data members of the outlined class, and the initialisers of the captured object, which the
-- host code writes for them.
use Prim.Native.String.{String}
use mathlib.Core.List.{append-nil, append_assoc}
use neo_sycl.Prelude.{
  ◌≡◌, refl, ap, ap₂, sym, ◌∙◌, Bool, true, false, ◌&&◌, ◌||◌, not, Option, none, some, List, [],
  ◌∷◌, ◌++◌, map, if◌then◌else◌, arith, All, join, nil-join, join-nil, join_assoc,
}
use neo_sycl.Outcome.{done}
use neo_sycl.Kout.{
  Decl, is_function, is_var, is_some, RecordType, no_record, plain_record, specialization, Finder,
}
use neo_sycl.Kout.Finding.{usable, Usable}
use neo_sycl.Kout.Print.{
  concat, Capture, KoutData, print_accessor, print_var, is_accessor_type, sort_captures,
  print_accessors, print_var_decls, found_inits, capture_init, capture_inits, accessor_inits,
  initialisers,
}

-- A member of the class: a function with its text, or a data member with its declaration and what
-- initialises it.
pub data Member : Type 0 where
  method : String → Member
  field : (declaration initialiser : String) → Member

abbrev pub declarations : List Member → String
declarations [] = ""
declarations (method t ∷ ms) = join t (declarations ms)
declarations (field d e ∷ ms) = join d (declarations ms)

abbrev pub inits : List Member → List String
inits [] = []
inits (method t ∷ ms) = inits ms
inits (field d e ∷ ms) = e ∷ inits ms

abbrev name_of : Option String → String
name_of none = ""
name_of (some name) = name

abbrev element_of : RecordType → String
element_of no_record = ""
element_of plain_record = ""
element_of (specialization t) = t

abbrev is_specialization : RecordType → Bool
is_specialization no_record = false
is_specialization plain_record = false
is_specialization (specialization t) = true

-- What the finder found; a capture that is no accessor; one that is.
abbrev found_member : Decl → Member
found_member d =
    if is_function d then method (print_var d) else field (print_var d) (name_of d.identifier)

abbrev variable_member : Capture → Member
variable_member i = field (print_var i.captured_var) (capture_init i)

abbrev accessor_member : String → Capture → Member
accessor_member handler i =
    field
      (concat (
        "cl::sycl::rt::acc_<"
        ∷ element_of i.captured_var.record_type
        ∷ "> "
        ∷ name_of i.captured_var.identifier
        ∷ ";\n"
        ∷ []))
      (concat (handler ∷ ".map_(" ∷ name_of i.captured_var.identifier ∷ ")" ∷ []))

abbrev keep : (Capture → Bool) → List Capture → List Capture
keep p [] = []
keep p (i ∷ is) = let rest = keep p is in if p i then i ∷ rest else rest

abbrev is_variable : Capture → Bool
is_variable i = i.captures_variable && not (is_accessor_type i.captured_var.base_type)

abbrev is_accessor_capture : Capture → Bool
is_accessor_capture i = i.captures_variable && is_accessor_type i.captured_var.base_type

-- The members of the class, in their order.
abbrev pub layout : String → List Capture → Finder → List Member
layout handler captures finder =
    map found_member finder.vlist
    ++ (map variable_member (keep is_variable captures)
        ++ map (accessor_member handler) (keep is_accessor_capture captures))

-- A captured accessor is a variable with a name, whose type is an instance of the template itself
-- and no reference to one.
abbrev proper : Capture → Bool
proper i =
    not (is_accessor_capture i)
    || (is_var i.captured_var
        && is_some i.captured_var.identifier
        && is_specialization i.captured_var.record_type)

declarations-append :
    (l m : List Member) → declarations (l ++ m) ≡ join (declarations l) (declarations m)
declarations-append [] m = sym (nil-join (declarations m))
declarations-append (method t ∷ l) m =
    ap (join t) (declarations-append l m) ∙ sym (join_assoc t (declarations l) (declarations m))
declarations-append (field d e ∷ l) m =
    ap (join d) (declarations-append l m) ∙ sym (join_assoc d (declarations l) (declarations m))

inits-append : (l m : List Member) → inits (l ++ m) ≡ inits l ++ inits m
inits-append [] m = refl
inits-append (method t ∷ l) m = inits-append l m
inits-append (field d e ∷ l) m = ap (λ r. e ∷ r) (inits-append l m)

found_declarations :
    (ds : List Decl) → concat (map print_var ds) ≡ declarations (map found_member ds)
found_declarations [] = refl
found_declarations (d ∷ ds) = ground (arith, found_declarations ds)

found_initialisers : (ds : List Decl) → Usable ds → found_inits ds ≡ inits (map found_member ds)
found_initialisers [] h = refl
found_initialisers (d ∷ ds) h = ground (arith, found_initialisers ds h.1)

variable_declarations :
    (is : List Capture)
    → concat (map (λ i. print_var i.captured_var) is) ≡ declarations (map variable_member is)
variable_declarations [] = refl
variable_declarations (i ∷ is) = ap (join (print_var i.captured_var)) (variable_declarations is)

variable_initialisers :
    (is : List Capture)
    → capture_inits (keep is_variable is) ≡ inits (map variable_member (keep is_variable is))
variable_initialisers [] = refl
variable_initialisers (i ∷ is) = ground (arith, variable_initialisers is)

module _ (handler : String) where
  -- The captured accessors: what the class declares for them, and what initialises them.
  accessor_declarations :
      (is : List Capture)
      → All (λ i. proper i ≡ true) is
      → print_accessors (keep is_accessor_capture is)
        ≡ done (declarations (map (accessor_member handler) (keep is_accessor_capture is)))
  unfolding print_accessors print_accessor
  accessor_declarations [] h = refl
  accessor_declarations (i ∷ is) h = ground (arith, accessor_declarations is h.1)

  accessor_initialisers :
      (is : List Capture)
      → All (λ i. proper i ≡ true) is
      → accessor_inits handler (keep is_accessor_capture is)
        ≡ done (inits (map (accessor_member handler) (keep is_accessor_capture is)))
  accessor_initialisers [] h = refl
  accessor_initialisers (i ∷ is) h = ground (arith, accessor_initialisers is h.1)

-- The loop over the captures sorts them into two lists.
sort_captures-keep :
    (is : List Capture) (data' : KoutData)
    → sort_captures is data' ≡ record data' {
      vlist = data'.vlist ++ keep is_variable is;
      alist = data'.alist ++ keep is_accessor_capture is;
    }
unfolding sort_captures
sort_captures-keep [] data' = ground (arith, append-nil data'.vlist, append-nil data'.alist)
sort_captures-keep (i ∷ is) data' = ground (
  arith,
  sort_captures-keep is data',
  sort_captures-keep is (record data' { vlist = data'.vlist ++ i ∷ [] }),
  sort_captures-keep is (record data' { alist = data'.alist ++ i ∷ [] }),
  append_assoc data'.vlist (i ∷ []) (keep is_variable is),
  append_assoc data'.alist (i ∷ []) (keep is_accessor_capture is),
)

sort_captures_fresh :
    (is : List Capture) (data' : KoutData)
    → data'.vlist ≡ []
    → data'.alist ≡ []
    → sort_captures is data'
      ≡ record data' { vlist = keep is_variable is; alist = keep is_accessor_capture is }
sort_captures_fresh is data' l a = ground (arith, sort_captures-keep is data')

-- The three parts of the class's text.
var_text :
    (handler : String) (captures : List Capture) (finder : Finder)
    → join "" (
        join (concat (map print_var finder.vlist)) (
          join (concat (map (λ i. print_var i.captured_var) (keep is_variable captures))) (
            join
              (declarations (map (accessor_member handler) (keep is_accessor_capture captures)))
              "")))
      ≡ declarations (layout handler captures finder)
var_text handler captures finder =
    nil-join _
    ∙ ap₂ join (found_declarations finder.vlist) (
        ap₂ join (variable_declarations (keep is_variable captures)) (join-nil _)
        ∙ sym (declarations-append (map variable_member (keep is_variable captures)) _))
    ∙ sym (declarations-append (map found_member finder.vlist) _)

initialisers_text :
    (handler : String) (captures : List Capture) (finder : Finder)
    → Usable finder.vlist
    → found_inits finder.vlist
        ++ (capture_inits (keep is_variable captures)
            ++ inits (map (accessor_member handler) (keep is_accessor_capture captures)))
      ≡ inits (layout handler captures finder)
initialisers_text handler captures finder usable =
    ap₂ ◌++◌ (found_initialisers finder.vlist usable) (
      ap₂ ◌++◌ (variable_initialisers captures) refl
      ∙ sym (inits-append (map variable_member (keep is_variable captures)) _))
    ∙ sym (inits-append (map found_member finder.vlist) _)

-- Where the finder's variables are usable and each captured accessor is a named variable whose
-- type is an instance of a template: `printVarDecls`, from empty lists and text, completes, and
-- the text of the class and the initialisers that the host code writes for the captured object
-- are the declarations and the initialisers of one list of members, in the same order: what the
-- finder found, then the captured variables, then the captured accessors.
pub print_var_decls-initialisers :
    (captures : List Capture) (finder : Finder) (data' : KoutData)
    → Usable finder.vlist
    → All (λ i. proper i ≡ true) captures
    → data'.var ≡ ""
    → data'.vlist ≡ []
    → data'.alist ≡ []
    → (out : KoutData) × (print_var_decls captures finder data' ≡ done out)
      × (out.var ≡ declarations (layout data'.handler captures finder))
      × (initialisers out finder ≡ done (inits (layout data'.handler captures finder)))
unfolding print_var_decls initialisers
print_var_decls-initialisers captures finder data' usable proper v l a = (
  record data' {
    var = declarations (layout data'.handler captures finder);
    vlist = keep is_variable captures;
    alist = keep is_accessor_capture captures;
  },
  rw (sort_captures_fresh captures data' l a, v)
      (rw (accessor_declarations data'.handler captures proper) (
        ap
          (λ t. done (record data' {
            var = t;
            vlist = keep is_variable captures;
            alist = keep is_accessor_capture captures;
          }))
          (var_text data'.handler captures finder))),
  refl,
  rw (accessor_initialisers data'.handler captures proper)
      (ap done (initialisers_text data'.handler captures finder usable)),
)

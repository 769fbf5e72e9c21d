-- ===== src/Kout/Sorting.antt =====
-- Which of its lists `VarDeclFinder`, of src/VarDeclFinder.cpp of the repository, puts a declaration in.
use Prim.Native.String.{String}
use neo_sycl.Prelude.{◌≡◌, Bool, true, ◌&&◌, ◌||◌, not, List, [], ◌∷◌}
use neo_sycl.Kout.{Decl, Finder, Event, decl, decl_ref, member, is_function, is_parm, is_accessor}

abbrev pub Every : (Decl → Bool) → List Decl → Type 0
Every p [] = Unit
Every p (d ∷ ds) = (p d ≡ true) × Every p ds

-- The members of `this` among the events.
abbrev pub members : List Event → List Decl
members [] = []
members (decl d ∷ es) = members es
members (decl_ref d definition ∷ es) = members es
members (member b d ∷ es) = d ∷ members es

abbrev IsMember : (Decl → Bool) → Event → Type 0
IsMember p (decl d) = Unit
IsMember p (decl_ref d definition) = Unit
IsMember p (member b d) = p d ≡ true

module _ (regex_search : String → String → Bool) where
  module _ (is_member : Decl → Bool) where
    -- A function, a member, or what is neither a parameter nor an accessor.
    abbrev pub for_vlist : Decl → Bool
    for_vlist d =
        is_function d
        || is_member d
        || (not (is_parm d) && not (is_accessor regex_search d.type_text))

    -- An accessor that is no function and no parameter.
    abbrev pub for_alist : Decl → Bool
    for_alist d = not (is_function d) && not (is_parm d) && is_accessor regex_search d.type_text

    abbrev pub Sorted : Finder → Type 0
    Sorted f = Every for_vlist f.vlist × Every for_alist f.alist × Every is_parm f.parm_list

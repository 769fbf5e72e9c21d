-- ===== src/Kout/Finding.antt =====
-- What `VarDeclFinder`, of src/VarDeclFinder.cpp of the repository, finds in a kernel's body.
use Prim.Native.String.{String}
use mathlib.Core.List.{append-nil, append_assoc}
use neo_sycl.Prelude.{
  ℕ, zero, suc, ◌≢◌, sym, ap, ◌∙◌, replicate, ◌≡◌, refl, Bool, true, false, ◌&&◌, ◌||◌, not, Option,
  none, some, List, [], ◌∷◌, ◌++◌, ◌==◌, if◌then◌else◌, arith, All,
}
use neo_sycl.Kout.{
  Decl, Finder, Event, decl, decl_ref, member, is_function, is_value, is_some, is_in_list, visit,
  visit_decl, visit_decl_ref, visit_member_expr, traverse,
}

-- No declaration twice.
abbrev pub Distinct : List Decl → Type 0
Distinct [] = Unit
Distinct (d ∷ ds) = (is_in_list ds d ≡ false) × Distinct ds

pub is_in_list-append :
    (l m : List Decl) (d : Decl) → is_in_list (l ++ m) d ≡ (is_in_list l d || is_in_list m d)
is_in_list-append [] m d = refl
is_in_list-append (x ∷ l) m d = ground (arith, is_in_list-append l m d)

is_in_list-snoc :
    (l : List Decl) (d e : Decl) → is_in_list (l ++ d ∷ []) e ≡ (is_in_list l e || d.id == e.id)
is_in_list-snoc l d e = ground (arith, is_in_list-append l (d ∷ []) e)

is_in_list-same : (l : List Decl) (d e : Decl) → e.id ≡ d.id → is_in_list l e ≡ is_in_list l d
is_in_list-same [] d e h = refl
is_in_list-same (x ∷ l) d e h = ground (arith, is_in_list-same l d e h)

Distinct-snoc :
    (l : List Decl) (d e : Decl)
    → e.id ≡ d.id
    → Distinct l
    → is_in_list l d ≡ false
    → Distinct (l ++ e ∷ [])
Distinct-snoc [] d e s h n = (refl, tt)
Distinct-snoc (x ∷ l) d e s h n =
    (ground (arith, is_in_list-snoc l e x), Distinct-snoc l d e s h.1 (ground arith))

-- The reference names the definition of its function, when the function has one.
abbrev pub AtDefinition : Event → Type 0
AtDefinition (decl d) = Unit
AtDefinition (decl_ref d none) = Unit
AtDefinition (decl_ref d (some fd)) = fd.id ≡ d.id
AtDefinition (member b d) = Unit

-- A function with a body, or another value with an identifier.
abbrev pub usable : Decl → Bool
usable d = if is_function d then d.has_body else is_value d && is_some d.identifier

abbrev pub Usable : List Decl → Type 0
Usable [] = Unit
Usable (d ∷ ds) = (usable d ≡ true) × Usable ds

Usable-snoc : (l : List Decl) (d : Decl) → Usable l → usable d ≡ true → Usable (l ++ d ∷ [])
Usable-snoc [] d h e = (e, tt)
Usable-snoc (x ∷ l) d h e = (h.0, Usable-snoc l d h.1 e)

-- `getDefinition` gives a function, and a member is a value.
abbrev pub WellTyped : Event → Type 0
WellTyped (decl d) = Unit
WellTyped (decl_ref d none) = Unit
WellTyped (decl_ref d (some fd)) = is_function fd ≡ true
WellTyped (member b d) = (is_value d ≡ true) × (is_function d ≡ false)

-- What the finder owes an event.
abbrev pub resolved : Event → Finder → Bool
resolved (decl d) f = is_in_list f.decl_list d
resolved (decl_ref d definition) f =
    is_in_list f.decl_list d
    || is_in_list f.vlist d
    || is_in_list f.alist d
    || is_in_list f.parm_list d
    || (if is_function d
        then elim definition [
          | none ↦ not d.has_body
          | some fd ↦ not fd.has_body || is_in_list f.vlist fd
        ]
        else not (is_value d && is_some d.identifier))
resolved (member b d) f = not b || is_in_list f.vlist d || not (is_some d.identifier)

module _ (regex_search : String → String → Bool) where
  visit_decl_ref-Distinct :
      (d : Decl) (definition : Option Decl) (f : Finder)
      → AtDefinition (decl_ref d definition)
      → Distinct f.vlist
      → Distinct (visit_decl_ref regex_search d definition f).vlist
  unfolding visit_decl_ref
  visit_decl_ref-Distinct d none f at h = ground (arith, Distinct-snoc f.vlist d d refl h)
  visit_decl_ref-Distinct d (some fd) f at h =
      ground (arith, Distinct-snoc f.vlist d d refl h, Distinct-snoc f.vlist d fd at h)

  visit_member_expr-Distinct :
      (b : Bool) (d : Decl) (f : Finder)
      → Distinct f.vlist
      → Distinct (visit_member_expr b d f).vlist
  unfolding visit_member_expr
  visit_member_expr-Distinct b d f h = ground (arith, Distinct-snoc f.vlist d d refl h)

  visit-Distinct :
      (e : Event) (f : Finder)
      → AtDefinition e
      → Distinct f.vlist
      → Distinct (visit regex_search e f).vlist
  unfolding visit_decl
  visit-Distinct (decl d) f at h = h
  visit-Distinct (decl_ref d definition) f at h = visit_decl_ref-Distinct d definition f at h
  visit-Distinct (member b d) f at h = visit_member_expr-Distinct b d f h

  pub traverse-Distinct :
      (es : List Event) (f : Finder)
      → All AtDefinition es
      → Distinct f.vlist
      → Distinct (traverse regex_search es f).vlist
  unfolding traverse
  traverse-Distinct [] f at h = h
  traverse-Distinct (e ∷ es) f at h =
      traverse-Distinct es (visit regex_search e f) at.1 (visit-Distinct e f at.0 h)

  -- Each listed declaration is usable.
  visit_decl_ref-Usable :
      (d : Decl) (definition : Option Decl) (f : Finder)
      → WellTyped (decl_ref d definition)
      → Usable f.vlist
      → Usable (visit_decl_ref regex_search d definition f).vlist
  unfolding visit_decl_ref
  visit_decl_ref-Usable d none f t h = ground (arith, Usable-snoc f.vlist d h)
  visit_decl_ref-Usable d (some fd) f t h =
      ground (arith, Usable-snoc f.vlist d h, Usable-snoc f.vlist fd h)

  visit-Usable :
      (e : Event) (f : Finder)
      → WellTyped e
      → Usable f.vlist
      → Usable (visit regex_search e f).vlist
  unfolding visit_decl visit_member_expr
  visit-Usable (decl d) f t h = h
  visit-Usable (decl_ref d definition) f t h = visit_decl_ref-Usable d definition f t h
  visit-Usable (member b d) f t h = ground (arith, Usable-snoc f.vlist d h)

  pub traverse-Usable :
      (es : List Event) (f : Finder)
      → All WellTyped es
      → Usable f.vlist
      → Usable (traverse regex_search es f).vlist
  unfolding traverse
  traverse-Usable [] f t h = h
  traverse-Usable (e ∷ es) f t h =
      traverse-Usable es (visit regex_search e f) t.1 (visit-Usable e f t.0 h)

  -- A list that a declaration is in keeps it.
  abbrev Kept : Finder → Finder → Type 0
  Kept f g =
      ((d : Decl) → is_in_list f.decl_list d ≡ true → is_in_list g.decl_list d ≡ true)
      × ((d : Decl) → is_in_list f.vlist d ≡ true → is_in_list g.vlist d ≡ true)
      × ((d : Decl) → is_in_list f.alist d ≡ true → is_in_list g.alist d ≡ true)
      × ((d : Decl) → is_in_list f.parm_list d ≡ true → is_in_list g.parm_list d ≡ true)

  visit-Kept : (e : Event) (f : Finder) → Kept f (visit regex_search e f)
  unfolding visit_decl visit_decl_ref visit_member_expr
  visit-Kept (decl d) f =
      (λ x h. ground (arith, is_in_list-snoc f.decl_list d x), λ x h. h, λ x h. h, λ x h. h)
  visit-Kept (decl_ref d none) f = (
    λ x h. ground (arith, is_in_list-snoc f.decl_list d x),
    λ x h. ground (arith, is_in_list-snoc f.vlist d x),
    λ x h. ground (arith, is_in_list-snoc f.alist d x),
    λ x h. ground (arith, is_in_list-snoc f.parm_list d x),
  )
  visit-Kept (decl_ref d (some fd)) f = (
    λ x h. ground (arith, is_in_list-snoc f.decl_list d x),
    λ x h. ground (arith, is_in_list-snoc f.vlist d x, is_in_list-snoc f.vlist fd x),
    λ x h. ground (arith, is_in_list-snoc f.alist d x),
    λ x h. ground (arith, is_in_list-snoc f.parm_list d x),
  )
  visit-Kept (member b d) f = (
    λ x h. ground arith,
    λ x h. ground (arith, is_in_list-snoc f.vlist d x),
    λ x h. ground arith,
    λ x h. ground arith,
  )

  resolved-Kept : (e : Event) (f g : Finder) → Kept f g → resolved e f ≡ true → resolved e g ≡ true
  resolved-Kept (decl d) f g k h = k.0 d h
  resolved-Kept (decl_ref d none) f g k h = ground (arith, k.0 d, k.1 d, k.2 d, k.3 d)
  resolved-Kept (decl_ref d (some fd)) f g k h = ground (arith, k.0 d, k.1 d, k.2 d, k.3 d, k.1 fd)
  resolved-Kept (member b d) f g k h = ground (arith, k.1 d)

  visit-resolved : (e : Event) (f : Finder) → resolved e (visit regex_search e f) ≡ true
  unfolding visit_decl visit_decl_ref visit_member_expr
  visit-resolved (decl d) f = ground (arith, is_in_list-snoc f.decl_list d d)
  visit-resolved (decl_ref d none) f = ground (
    arith,
    is_in_list-snoc f.decl_list d d,
    is_in_list-snoc f.vlist d d,
    is_in_list-snoc f.alist d d,
  )
  visit-resolved (decl_ref d (some fd)) f = ground (
    arith,
    is_in_list-snoc f.decl_list d d,
    is_in_list-snoc f.vlist d d,
    is_in_list-snoc f.vlist fd fd,
    is_in_list-snoc f.alist d d,
  )
  visit-resolved (member b d) f = ground (arith, is_in_list-snoc f.vlist d d)

  traverse-Keeps :
      (e : Event) (es : List Event) (f : Finder)
      → resolved e f ≡ true
      → resolved e (traverse regex_search es f) ≡ true
  unfolding traverse
  traverse-Keeps e [] f h = h
  traverse-Keeps e (x ∷ es) f h =
      traverse-Keeps e es (visit regex_search x f)
        (resolved-Kept e f (visit regex_search x f) (visit-Kept x f) h)

  push_definition :
      (d fd : Decl) (f : Finder)
      → is_function d ≡ true
      → fd.has_body ≡ true
      → (is_in_list f.decl_list d
          || is_in_list f.vlist d
          || is_in_list f.alist d
          || is_in_list f.parm_list d)
        ≡ false
      → visit_decl_ref regex_search d (some fd) f ≡ record f { vlist = f.vlist ++ fd ∷ [] }
  unfolding visit_decl_ref
  push_definition d fd f isf body new = ground arith

  pub traverse-resolved :
      (es : List Event) (f : Finder) → All (λ e. resolved e (traverse regex_search es f) ≡ true) es
  unfolding traverse
  traverse-resolved [] f = tt
  traverse-resolved (e ∷ es) f = (
    traverse-Keeps e es (visit regex_search e f) (visit-resolved e f),
    traverse-resolved es (visit regex_search e f),
  )

  -- A function that is named through a declaration other than its definition, where the
  -- definition has a body and the declaration is in none of the finder's lists: each of `n`
  -- references to it adds the definition to the list, which then has it `n` times more.
  pub forward_declared :
      (d fd : Decl) (n : ℕ) (f : Finder)
      → is_function d ≡ true
      → fd.has_body ≡ true
      → fd.id ≢ d.id
      → (is_in_list f.decl_list d
          || is_in_list f.vlist d
          || is_in_list f.alist d
          || is_in_list f.parm_list d)
        ≡ false
      → (traverse regex_search (replicate n (decl_ref d (some fd))) f).vlist
        ≡ f.vlist ++ replicate n fd
  unfolding traverse
  forward_declared d fd zero f isf body ne new = sym (append-nil f.vlist)
  forward_declared d fd (suc n) f isf body ne new =
      ap (λ g. (traverse regex_search (replicate n (decl_ref d (some fd))) g).vlist)
        (push_definition d fd f isf body new)
      ∙ (forward_declared d fd n (record f { vlist = f.vlist ++ fd ∷ [] }) isf body ne
            (ground (arith, is_in_list-snoc f.vlist fd d))
          ∙ append_assoc f.vlist (fd ∷ []) (replicate n fd))

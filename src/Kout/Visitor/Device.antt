-- ===== src/Kout/Visitor/Device.antt =====
-- The device code of a whole translation unit, as `KoutVisitor` of src/KoutVisitor.cpp of the
-- repository collects it.
use Prim.Native.String.{String}
use neo_sycl.Prelude.{
  ◌==◌, ◌||◌, if◌then◌else◌, ℕ, ◌≡◌, refl, ap, sym, ◌∙◌, subst, ◌⊎◌, inl, inr, Bool, true, false,
  Option, none, some, List, [], ◌∷◌, join, join_assoc, join-nil,
}
use neo_sycl.Outcome.{throws, exception, done, >>=-eq-done, done-injective}
use neo_sycl.Kout.{Finder}
use neo_sycl.Kout.Print.{KoutData, write_dev_code, write_host_code}
use neo_sycl.Program.{kernel_data_cpu, cpu_kernel_data}
use neo_sycl.Kout.Symbols.{
  Contains, Contains-before, Contains-after, function_definition, object_definition,
  range_definition, write_dev_code-function, write_dev_code-object, write_dev_code-range,
}
use neo_sycl.Kout.Visitor.{
  Call, Outputs, Top, member_call, type_alias, kernel_call, finish_call, outline, check_call,
  visit_kernel_call, visit_call, visit_top, visit_unit,
}

-- `text` begins with `start`.
abbrev Extends : String → String → Type 0
Extends start text = (added : String) × (text ≡ join start added)

Extends-trans : (s t u : String) → Extends s t → Extends t u → Extends s u
Extends-trans s t u (a, p) (b, q) = (join a b, q ∙ ap (λ x. join x b) p ∙ join_assoc s a b)

Extends-refl : (s : String) → Extends s s
Extends-refl s = ("", sym (join-nil s))

Contains-Extends : (s t u : String) → Contains s t → Extends s u → Contains u t
Contains-Extends s t u c (a, q) = subst (λ x. Contains x t) (sym q) (Contains-before s a t c)

finish_call-Extends :
    (o : Option (KoutData × Finder)) (k : String) {out : String × String}
    → finish_call o k ≡ done out
    → Extends k out.1
unfolding finish_call
finish_call-Extends none k h = subst (λ x. Extends k x.1) (done-injective h) (Extends-refl k)
finish_call-Extends (some (d, f)) k h =
    let (host, e, r) = >>=-eq-done (write_host_code d f) _ h in
    subst (λ x. Extends k x.1) (done-injective r) (write_dev_code d, refl)

finish_call-some :
    (d : KoutData) (f : Finder) (k : String) {out : String × String}
    → finish_call (some (d, f)) k ≡ done out
    → out.1 ≡ join k (write_dev_code d)
unfolding finish_call
finish_call-some d f k h =
    let (host, e, r) = >>=-eq-done (write_host_code d f) _ h in
    ap (λ x. x.1) (sym (done-injective r))

module _ (regex_search : String → String → Bool) (digits : ℕ → String) where
  visit_kernel_call-Extends :
      (b : Option Bool) (ce : Call) (u : Outputs) {u' : Outputs}
      → visit_kernel_call regex_search digits b ce u ≡ done u'
      → Extends u.kern_code u'.kern_code
  unfolding visit_kernel_call check_call
  visit_kernel_call-Extends none ce u h =
      subst (λ x. Extends u.kern_code x.kern_code) (done-injective h) (Extends-refl u.kern_code)
  visit_kernel_call-Extends (some b) ce u h =
      let (out, c, r) = >>=-eq-done (check_call regex_search digits b ce u.kern_code) _ h in
      let (o, p, q) = >>=-eq-done (outline regex_search digits b ce) _ c in
      subst (λ x. Extends u.kern_code x.kern_code) (done-injective r)
        (finish_call-Extends o u.kern_code q)

  visit_top-Extends :
      (t : Top) (u : Outputs) {u' : Outputs}
      → visit_top regex_search digits t u ≡ done u'
      → Extends u.kern_code u'.kern_code
  unfolding visit_top visit_call check_call
  visit_top-Extends (type_alias true in_main_file text) u h =
      subst (λ x. Extends u.kern_code x.kern_code) (done-injective h) (Extends-refl u.kern_code)
  visit_top-Extends (type_alias false true text) u h =
      subst (λ x. Extends u.kern_code x.kern_code) (done-injective h)
        (join text ";\n", join_assoc u.kern_code text ";\n")
  visit_top-Extends (type_alias false false text) u h =
      subst (λ x. Extends u.kern_code x.kern_code) (done-injective h) (Extends-refl u.kern_code)
  visit_top-Extends (member_call m ce) u h = visit_kernel_call-Extends (kernel_call m) ce u h

  visit_unit-Extends :
      (ts : List Top) (u : Outputs) {u' : Outputs}
      → visit_unit regex_search digits ts u ≡ done u'
      → Extends u.kern_code u'.kern_code
  unfolding visit_unit
  visit_unit-Extends [] u h =
      subst (λ x. Extends u.kern_code x.kern_code) (done-injective h) (Extends-refl u.kern_code)
  visit_unit-Extends (t ∷ ts) u h =
      let (v, p, q) = >>=-eq-done (visit_top regex_search digits t u) _ h in
      Extends-trans _ _ _ (visit_top-Extends t u p) (visit_unit-Extends ts v q)

  -- One outlined call: what it adds to the device code.
  visit_kernel_call-some :
      (b : Bool) (ce : Call) (d : KoutData) (f : Finder) (u : Outputs) {u' : Outputs}
      → outline regex_search digits b ce ≡ done (some (d, f))
      → visit_kernel_call regex_search digits (some b) ce u ≡ done u'
      → u'.kern_code ≡ join u.kern_code (write_dev_code d)
  unfolding visit_kernel_call check_call
  visit_kernel_call-some b ce d f u e h =
      let (out, c, r) = >>=-eq-done (check_call regex_search digits b ce u.kern_code) _ h in
      ap (λ x. x.kern_code) (sym (done-injective r)) ∙ finish_call-some d f u.kern_code (rw e at c)

  -- A kernel that the visitor outlines at one of the calls.
  abbrev pub Outlines : List Top → KoutData → Type 0
  Outlines [] d = ⊥
  Outlines (type_alias in_function in_main_file text ∷ ts) d = Outlines ts d
  Outlines (member_call m ce ∷ ts) d =
      ((b : Bool) × (f : Finder) × (kernel_call m ≡ some b)
        × (outline regex_search digits b ce ≡ done (some (d, f))))
      ⊎ Outlines ts d

  visit_unit-Contains :
      (ts : List Top) (u : Outputs) (d : KoutData) {u' : Outputs}
      → visit_unit regex_search digits ts u ≡ done u'
      → Outlines ts d
      → (text : String) → Contains (write_dev_code d) text
      → Contains u'.kern_code text
  unfolding visit_unit visit_top visit_call
  visit_unit-Contains [] u d h out name def = absurd out
  visit_unit-Contains (type_alias in_function in_main_file text ∷ ts) u d h out name def =
      let (v, p, q) =
        >>=-eq-done (visit_top regex_search digits (type_alias in_function in_main_file text) u)
          (visit_unit regex_search digits ts) h in
      visit_unit-Contains ts v d q out name def
  visit_unit-Contains (member_call m ce ∷ ts) u d {u'} h (inl (b, f, e, o)) name def =
      let (v, p, q) =
        >>=-eq-done (visit_kernel_call regex_search digits (kernel_call m) ce u) _ h in
      let added : v.kern_code ≡ join u.kern_code (write_dev_code d) =
        visit_kernel_call-some b ce d f u o (rw e at p) in
      Contains-Extends v.kern_code name u'.kern_code
        (subst (λ s. Contains s name) (sym added)
          (Contains-after u.kern_code (write_dev_code d) name def))
        (visit_unit-Extends ts v q)
  visit_unit-Contains (member_call m ce ∷ ts) u d h (inr out) name def =
      let (v, p, q) =
        >>=-eq-done (visit_kernel_call regex_search digits (kernel_call m) ce u) _ h in
      visit_unit-Contains ts v d q out name def

-- The names that `create_kernel_data` on the CPU looks up for a kernel.
abbrev pub LooksUp : String → String → String → String → Type 0
LooksUp kernel func capt rnge =
    (dlsym : String → ℕ)
    → cpu_kernel_data dlsym kernel ≡ (
        if dlsym func == 0 || dlsym capt == 0
        then throws (exception "create_kernel() failed")
        else done (kernel_data_cpu (dlsym func) (dlsym capt) (dlsym rnge)))

-- A translation unit on which the outliner's visitor completes: for every kernel that it outlines
-- there, there are three names, of a function, an object and a range variable, which are what
-- `create_kernel_data` on the CPU looks up for the kernel's name, whatever the lookup of symbols
-- answers; and the text of the device code contains the head of a definition of that function,
-- the end of a definition of that object, and the start of a definition of that range variable,
-- each under its name.
pub visit_unit-kernel_data :
    (regex_search : String → String → Bool) (digits : ℕ → String) (ts : List Top) (u u' : Outputs)
    (d : KoutData)
    → visit_unit regex_search digits ts u ≡ done u'
    → Outlines regex_search digits ts d
    → (func capt rnge : String) × LooksUp d.kernel func capt rnge
      × Contains u'.kern_code (function_definition func)
      × Contains u'.kern_code (object_definition capt)
      × Contains u'.kern_code (range_definition rnge)
unfolding cpu_kernel_data
visit_unit-kernel_data regex_search digits ts u u' d h out =
    let there = visit_unit-Contains regex_search digits ts u d h out in
    (
      d.kernel,
      join (join "__" d.kernel) "_obj__",
      join (join "__" d.kernel) "_range__",
      λ dlsym. refl,
      there _ (write_dev_code-function d),
      there _ (write_dev_code-object d),
      there _ (write_dev_code-range d),
    )

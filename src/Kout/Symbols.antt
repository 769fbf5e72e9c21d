-- ===== src/Kout/Symbols.antt =====
-- The symbols of the device code that `writeDevCode`, of src/KoutVisitor.cpp of the repository,
-- writes.
use Prim.Native.String.{String}
use neo_sycl.Prelude.{
  ◌≡◌, ap, sym, ◌∙◌, List, [], ◌∷◌, ◌++◌, drop, join, join_assoc, nil-join, join-nil,
}
use neo_sycl.Kout.Print.{concat, KoutData, write_dev_code}

abbrev pub Contains : String → String → Type 0
Contains text t = (before after : String) × (text ≡ join before (join t after))

-- A text with another in front of it, and behind it.
pub Contains-after : (k s t : String) → Contains s t → Contains (join k s) t
Contains-after k s t (before, after, p) =
    (join k before, after, ap (join k) p ∙ sym (join_assoc k before (join t after)))

pub Contains-before : (s k t : String) → Contains s t → Contains (join s k) t
Contains-before s k t (before, after, p) = (
  before,
  join after k,
  ap (λ x. join x k) p
      ∙ join_assoc before (join t after) k
      ∙ ap (join before) (join_assoc t after k),
)

-- The three definitions of the device code: an array of six numbers, an object after its class, a
-- function with C linkage.
abbrev pub range_definition : String → String
range_definition name = join "size_t  " (join name "[6]=")

abbrev pub object_definition : String → String
object_definition name = join "} " (join name ";\n")

abbrev pub function_definition : String → String
function_definition name = join "extern \"C\" {\n" (join "int " (join name "() {\n"))

concat-append : (xs ys : List String) → concat (xs ++ ys) ≡ join (concat xs) (concat ys)
concat-append [] ys = sym (nil-join (concat ys))
concat-append (x ∷ xs) ys =
    ap (join x) (concat-append xs ys) ∙ sym (join_assoc x (concat xs) (concat ys))

-- A run of the pieces that a text is made of.
pub Contains-run :
    (xs ys zs : List String) {t : String} → concat ys ≡ t → Contains (concat (xs ++ (ys ++ zs))) t
Contains-run xs ys zs e = (
  concat xs,
  concat zs,
  concat-append xs (ys ++ zs)
      ∙ ap (join (concat xs)) (concat-append ys zs ∙ ap (λ s. join s (concat zs)) e),
)

ruleset texts = (join_assoc, join-nil)

module _ (data' : KoutData) where
  -- The pieces between the range variable and the closing brace of the class, and those of the
  -- function.
  abbrev class_text : List String
  class_text =
      "class " ∷ data'.kernel ∷ " {\n" ∷ "public:\n" ∷ data'.func ∷ "\n" ∷ data'.var ∷ "\n" ∷ []

  abbrev function_text : List String
  function_text =
      "extern \"C\" {\n" ∷ "int " ∷ data'.kernel ∷ "() {\n" ∷ "__" ∷ data'.kernel ∷ "_obj__.run("
      ∷ ");\n" ∷ "return 0;\n}\n" ∷ "}\n\n" ∷ []

  abbrev range_text : List String
  range_text = "size_t  " ∷ "__" ∷ data'.kernel ∷ "_range__" ∷ "[6]=" ∷ []

  abbrev object_text : List String
  object_text = "} " ∷ "__" ∷ data'.kernel ∷ "_obj__" ∷ ";\n" ∷ []

  abbrev head_text : List String
  head_text = "extern \"C\" {\n" ∷ "int " ∷ data'.kernel ∷ "() {\n" ∷ []

  pub write_dev_code-range :
      Contains (write_dev_code data') (range_definition (join (join "__" data'.kernel) "_range__"))
  unfolding write_dev_code
  write_dev_code-range =
      Contains-run [] range_text
        ("{1,1,1,0,0,0};\n" ∷ class_text ++ (object_text ++ ("\n" ∷ function_text))) (simp texts)

  pub write_dev_code-object :
      Contains (write_dev_code data') (object_definition (join (join "__" data'.kernel) "_obj__"))
  unfolding write_dev_code
  write_dev_code-object =
      Contains-run (range_text ++ ("{1,1,1,0,0,0};\n" ∷ class_text)) object_text
        ("\n" ∷ function_text) (simp texts)

  pub write_dev_code-function : Contains (write_dev_code data') (function_definition data'.kernel)
  unfolding write_dev_code
  write_dev_code-function =
      Contains-run (range_text ++ ("{1,1,1,0,0,0};\n" ∷ class_text ++ (object_text ++ "\n" ∷ [])))
        head_text (drop 4 function_text) (simp texts)

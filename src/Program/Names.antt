-- ===== src/Program/Names.antt =====
-- `get_kernel_name_from_class` of detail/program.hpp: what the regular expression
-- `([^\s:]+)\*$` takes from the name of a pointer to the kernel's class. A character is its code; the
-- demangled name is the argument.
use neo_sycl.Prelude.{
  ℕ, ◌≡◌, refl, ◌∙◌, Bool, true, false, ◌||◌, ◌&&◌, Option, none, some, ◌>>=◌, List, [], ◌∷◌, ◌++◌,
  ◌==◌, leb, if◌then◌else◌, All, Bool-cases, inl, inr,
}

-- White space (9 to 13, and 32) and the colon.
unfoldable pub is_separator : ℕ → Bool
is_separator c = c == 32 || (leb 9 c && leb c 13) || c == 58

-- What stands before a star that ends the text, if no separator does.
unfoldable pub before_star : List ℕ → Option (List ℕ)
unfolding is_separator
before_star [] = none
before_star (c ∷ []) = if c == 42 then some [] else none
before_star (c ∷ d ∷ cs) =
    let rest = before_star (d ∷ cs) in if is_separator c then none else rest >>= λ r. some (c ∷ r)

-- A match needs a character before the star.
abbrev pub nonempty : Option (List ℕ) → Option (List ℕ)
nonempty none = none
nonempty (some []) = none
nonempty (some (c ∷ r)) = some (c ∷ r)

abbrev pub first_of : Option (List ℕ) → Option (List ℕ) → Option (List ℕ)
first_of none rest = rest
first_of (some r) rest = some r

-- `std::regex_search` takes the first place that matches.
unfoldable pub search : List ℕ → Option (List ℕ)
unfolding before_star
search [] = none
search (c ∷ cs) = let rest = search cs in first_of (nonempty (before_star (c ∷ cs))) rest

abbrev pub or_whole : List ℕ → Option (List ℕ) → List ℕ
or_whole cs none = cs
or_whole cs (some r) = r

unfoldable pub get_kernel_name_from_class : List ℕ → List ℕ
unfolding search
get_kernel_name_from_class demangled = or_whole demangled (search demangled)

abbrev pub IsWord : List ℕ → Type 0
IsWord cs = All (λ c. is_separator c ≡ false) cs

search_hit :
    (c d : ℕ) (cs r : List ℕ) → before_star (c ∷ cs) ≡ some (d ∷ r) → search (c ∷ cs) ≡ some (d ∷ r)
unfolding search
search_hit c d cs r e = rw e refl

search_miss : (c : ℕ) (cs : List ℕ) → before_star (c ∷ cs) ≡ none → search (c ∷ cs) ≡ search cs
unfolding search
search_miss c cs e = rw e refl

module _ (a : ℕ) (word : List ℕ) (plain : IsWord (a ∷ word)) where
  before_star-word :
      (b : ℕ) (cs : List ℕ) → IsWord (b ∷ cs) → before_star (b ∷ cs ++ 42 ∷ []) ≡ some (b ∷ cs)
  unfolding before_star
  before_star-word b [] (h, hs) = rw h refl
  before_star-word b (c ∷ cs) (h, hs) = rw (h, before_star-word c cs hs) refl

  search-word : search (a ∷ word ++ 42 ∷ []) ≡ some (a ∷ word)
  search-word = search_hit a a (word ++ 42 ∷ []) word (before_star-word a word plain)

  -- A separator further on prevents the match.
  before_star-separator :
      (s : ℕ)
      → is_separator s ≡ true
      → (path : List ℕ) → before_star (path ++ s ∷ a ∷ word ++ 42 ∷ []) ≡ none
  unfolding before_star
  before_star-separator s sep [] = rw sep refl
  before_star-separator s sep (c ∷ []) = elim (Bool-cases (is_separator c)) [
    | inl yes_it ↦ rw yes_it refl
    | inr no_it ↦ rw (no_it, sep) refl
  ]
  before_star-separator s sep (c ∷ d ∷ path) = elim (Bool-cases (is_separator c)) [
    | inl yes_it ↦ rw yes_it refl
    | inr no_it ↦ rw (no_it, before_star-separator s sep (d ∷ path)) refl
  ]

  search-separator :
      (s : ℕ)
      → is_separator s ≡ true
      → (path : List ℕ) → search (path ++ s ∷ a ∷ word ++ 42 ∷ []) ≡ some (a ∷ word)
  search-separator s sep [] = search_miss s _ (before_star-separator s sep []) ∙ search-word
  search-separator s sep (c ∷ path) =
      search_miss c _ (before_star-separator s sep (c ∷ path)) ∙ search-separator s sep path

  found : (cs : List ℕ) → search cs ≡ some (a ∷ word) → get_kernel_name_from_class cs ≡ a ∷ word
  unfolding get_kernel_name_from_class
  found cs e = rw e refl

  -- The name of a class without a scope is kept, and of one in a scope what stands after the last
  -- separator, which in an instance of a template may be one of its arguments.
  pub get_kernel_name_from_class_lem :
      (s : ℕ) (path : List ℕ)
      → is_separator s ≡ true
      → (get_kernel_name_from_class (a ∷ word ++ 42 ∷ []) ≡ a ∷ word)
        × (get_kernel_name_from_class (path ++ s ∷ a ∷ word ++ 42 ∷ []) ≡ a ∷ word)
  get_kernel_name_from_class_lem s path sep =
      (found _ search-word, found _ (search-separator s sep path))

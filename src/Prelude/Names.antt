-- ===== src/Prelude/Names.antt =====
-- Names: the library's text, with its equality and concatenation under names of their own.
use Prim.Native.String.{String, ◌++◌}
use text.Mathlib.Text.{◌==◌}
use text.Mathlib.TextPositions.{eq_refl}
use text.Mathlib.TextLemmas.{append_assoc, append-nil, nil-append}
use mathlib.Core.Path.{◌≡◌}
use mathlib.Core.Bool.{Bool, true}

abbrev pub same_name : String → String → Bool
same_name s t = s == t

abbrev pub join : String → String → String
join s t = s ++ t

pub same_name_refl : (s : String) → same_name s s ≡ true
same_name_refl = eq_refl

-- The laws of concatenation.
pub nil-join : (s : String) → join "" s ≡ s
nil-join = nil-append

pub join-nil : (s : String) → join s "" ≡ s
join-nil = append-nil

pub join_assoc : (s t u : String) → join (join s t) u ≡ join s (join t u)
join_assoc = append_assoc

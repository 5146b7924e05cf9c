-- ===== src/Base/Text.antt =====
-- `strings.Split` at one character, `strings.Trim`, `strings.TrimLeft`. A cutset is a set of characters, not a prefix.
pub mod Cutset
pub mod Parts
use Prim.Native.Nat.{compare, Ordering}
use Prim.Native.Char.{Char, code}
use Prim.Native.String.{String}
use mathlib.Core.Bool.{Bool, true, false, not, ◌&&◌, ◌||◌}
use mathlib.Core.List.{List, [], ◌∷◌}
use lbconfig_operator.Base.Equality.{if◌then◌else◌}

abbrev pub same_char : Char → Char → Bool
same_char c d = elim (compare (code c) (code d)) [ Ordering.eq ↦ true | _ ↦ false ]

unfoldable pub has_char : String → Char → Bool
has_char String.[] c = false
has_char (String.◌∷◌ x s) c = same_char x c || has_char s c

abbrev pub prepend : Char → List String → List String
prepend c [] = String.◌∷◌ c String.[] ∷ []
prepend c (p ∷ ps) = String.◌∷◌ c p ∷ ps

-- `strings.Split(s, sep)` for a separator of one character: always at least one part.
unfoldable pub split : Char → String → List String
split sep String.[] = String.[] ∷ []
split sep (String.◌∷◌ c s) =
    let rest = split sep s in if same_char c sep then String.[] ∷ rest else prepend c rest

unfoldable pub trim_left : String → String → String
trim_left cutset String.[] = String.[]
trim_left cutset (String.◌∷◌ c s) =
    let rest = trim_left cutset s in if has_char cutset c then rest else String.◌∷◌ c s

abbrev pub is_empty : String → Bool
is_empty String.[] = true
is_empty (String.◌∷◌ c s) = false

unfoldable pub trim_right : String → String → String
trim_right cutset String.[] = String.[]
trim_right cutset (String.◌∷◌ c s) =
    let rest = trim_right cutset s in
    if is_empty rest && has_char cutset c then String.[] else String.◌∷◌ c rest

unfoldable pub trim : String → String → String
trim cutset s = trim_left cutset (trim_right cutset s)

-- Every character of the text is in the cutset.
unfoldable pub all_in : String → String → Bool
all_in cutset String.[] = true
all_in cutset (String.◌∷◌ c s) = has_char cutset c && all_in cutset s

-- The text does not begin, and does not end, with a character of the cutset.
abbrev pub starts_outside : String → String → Bool
starts_outside cutset String.[] = true
starts_outside cutset (String.◌∷◌ c s) = not (has_char cutset c)

unfoldable pub ends_outside : String → String → Bool
ends_outside cutset String.[] = true
ends_outside cutset (String.◌∷◌ c s) =
    let rest = ends_outside cutset s in if is_empty s then not (has_char cutset c) else rest

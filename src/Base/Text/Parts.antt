-- ===== src/Base/Text/Parts.antt =====
-- Lemmas on `strings.Split`.
use Prim.Native.Char.{Char}
use Prim.Native.String.{String, ◌++◌ as ◌<>◌}
use mathlib.Core.Path.{◌≡◌, refl}
use mathlib.Core.Bool.{true, false, ◌||◌}
use mathlib.Core.List.{[], ◌∷◌}
use text.Mathlib.TextLemmas.{nil-append, cons-append}
use native.Mathlib.Omega.{arith}
use lbconfig_operator.Base.Text.{same_char, has_char, split}

same_char_refl : (c : Char) → same_char c c ≡ true
same_char_refl c = ground arith

-- A text without the separator is one part.
pub split-none : (sep : Char) (s : String) → has_char s sep ≡ false → split sep s ≡ s ∷ []
unfolding has_char split
split-none sep String.[] h = refl
split-none sep (String.◌∷◌ c s) h = ground (arith, split-none sep s)

-- The text in front of the first separator is the first part.
pub split-append :
    (sep : Char) (a s : String)
    → has_char a sep ≡ false
    → split sep (a <> String.◌∷◌ sep String.[] <> s) ≡ a ∷ split sep s
unfolding has_char split
split-append sep String.[] s h = rw (nil-append, cons-append, nil-append, same_char_refl sep) refl
split-append sep (String.◌∷◌ c a) s h = rw cons-append (ground (arith, split-append sep a s))

pub has_char-append :
    (a b : String) (c : Char) → has_char (a <> b) c ≡ (has_char a c || has_char b c)
unfolding has_char
has_char-append String.[] b c = rw nil-append refl
has_char-append (String.◌∷◌ x a) b c = rw cons-append (ground (arith, has_char-append a b c))

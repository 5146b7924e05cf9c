-- ===== src/Base/Decimal/Clamp.antt =====
-- What `strconv.Atoi` returns with an error.
use Prim.Native.Nat.{ℕ, ◌+◌, ◌-◌, ◌*◌, ◌^◌}
use Prim.Native.Char.{code}
use Prim.Native.String.{String}
use mathlib.Core.Path.{◌≡◌, refl}
use mathlib.Core.Logic.{inl, inr}
use mathlib.Core.Bool.{Bool, true, false, ◌||◌}
use mathlib.Core.Option.{Option, none, some}
use native.Mathlib.Omega.{arith}
use lbconfig_operator.Base.Equality.{ℤ, pos, negsuc, if◌then◌else◌, Bool-cases, Option-cases}
use lbconfig_operator.Base.Decimal.{
  ltb, ◌==◌, digits, in_range, read_int, itoa, fits_int, atoi, atoi-itoa,
}

-- The digits pass 2^64 before a character that is no digit: `ParseUint` stops there.
overruns : String → ℕ → Bool
overruns String.[] n = false
overruns (String.◌∷◌ c s) n =
    let next = n * 10 + (code c - 48) in
    let rest = overruns s next in
    if ltb (code c) 48 || ltb 57 (code c) then false else if ltb next (2 ^ 64) then rest else true

abbrev is_some : Option ℕ → Bool
is_some none = false
is_some (some n) = true

-- Whether a text that `Atoi` refuses is a number out of range; else it is not a number.
abbrev out_of_range : String → Bool
out_of_range s = overruns s 0 || is_some (digits s)

abbrev clamp_unsigned : ℤ → String → ℤ
clamp_unsigned limit s = if out_of_range s then limit else pos 0

-- The value that `Atoi` returns with an error: 0, or the end of the range that the number is past.
clamp : String → ℤ
unfolding overruns digits
clamp String.[] = pos 0
clamp (String.◌∷◌ c s) =
    if code c == 45
    then clamp_unsigned (negsuc (2 ^ 63 - 1)) s
    else if code c == 43
    then clamp_unsigned (pos (2 ^ 63 - 1)) s
    else clamp_unsigned (pos (2 ^ 63 - 1)) (String.◌∷◌ c s)

abbrev or_clamp : String → Option ℤ → ℤ
or_clamp s none = clamp s
or_clamp s (some z) = z

-- The value of `port, _ := strconv.Atoi(s)`.
unfoldable pub atoi_value : String → ℤ
unfolding atoi clamp
atoi_value s = or_clamp s (atoi s)

abbrev signless : String → String
signless String.[] = String.[]
signless (String.◌∷◌ c s) = if code c == 45 || code c == 43 then s else String.◌∷◌ c s

-- The end of the text of `Atoi`'s error.
unfoldable pub atoi_reason : String → String
unfolding overruns digits
atoi_reason s = if out_of_range (signless s) then "value out of range" else "invalid syntax"

pub atoi_value-itoa : (z : ℤ) → fits_int z ≡ true → atoi_value (itoa z) ≡ z
unfolding atoi_value
atoi_value-itoa z h = rw (atoi-itoa z h) refl

in_range-fits : (o : Option ℤ) (z : ℤ) → in_range o ≡ some z → fits_int z ≡ true
in_range-fits none z h = absurd (ground arith)
in_range-fits (some y) z h = ground arith

clamp_unsigned-fits :
    (limit : ℤ) (s : String) → fits_int limit ≡ true → fits_int (clamp_unsigned limit s) ≡ true
clamp_unsigned-fits limit s h = elim (Bool-cases (out_of_range s)) [
  | inl e ↦ rw e h
  | inr e ↦ rw e refl
]

clamp-fits : (s : String) → fits_int (clamp s) ≡ true
unfolding clamp
clamp-fits String.[] = refl
clamp-fits (String.◌∷◌ c s) = elim (Bool-cases (code c == 45)) [
  | inl e ↦ rw e (clamp_unsigned-fits (negsuc (2 ^ 63 - 1)) s refl)
  | inr e ↦ elim (Bool-cases (code c == 43)) [
    | inl f ↦ rw (e, f) (clamp_unsigned-fits (pos (2 ^ 63 - 1)) s refl)
    | inr f ↦ rw (e, f) (clamp_unsigned-fits (pos (2 ^ 63 - 1)) (String.◌∷◌ c s) refl)
  ]
]

-- The value of `Atoi` is an `int`, with an error or without.
pub atoi_value-fits : (s : String) → fits_int (atoi_value s) ≡ true
unfolding atoi_value atoi
atoi_value-fits s = elim (Option-cases (in_range (read_int s))) [
  | inl e ↦ rw e (clamp-fits s)
  | inr (z, e) ↦ rw e (in_range-fits (read_int s) z e)
]

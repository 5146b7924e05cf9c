-- ===== src/Base/Decimal.antt =====
-- `strconv.Itoa` and `strconv.Atoi`, with a 64-bit `int`.
pub mod Digits
pub mod Clamp
use Prim.Native.Nat.{ℕ, zero, suc, ◌+◌, ◌-◌, ◌*◌, ◌/◌, ◌%◌, ◌^◌, ◌<◌, compare, Ordering}
use Prim.Native.Char.{Char, code}
use Prim.Native.String.{String}
use mathlib.Core.Path.{◌≡◌, refl, sym, ap, ◌∙◌}
use mathlib.Core.Logic.{inl, inr}
use mathlib.Core.Bool.{Bool, true, false, ◌||◌}
use mathlib.Core.Option
use mathlib.Core.Option.{Option, none, some, some-injective}
use native.Mathlib.Omega.{arith}
use lbconfig_operator.Base.Equality.{ℤ, pos, negsuc, if◌then◌else◌, Bool-cases, Option-cases}

abbrev pub ltb : ℕ → ℕ → Bool
ltb a b = elim (compare a b) [ Ordering.lt ↦ true | _ ↦ false ]

infix 50 ◌==◌
abbrev ◌==◌ : ℕ → ℕ → Bool
a == b = elim (compare a b) [ Ordering.eq ↦ true | _ ↦ false ]

pub digit : ℕ → Char
digit zero = "0"
digit (suc zero) = "1"
digit (suc (suc zero)) = "2"
digit (suc (suc (suc zero))) = "3"
digit (suc (suc (suc (suc zero)))) = "4"
digit (suc (suc (suc (suc (suc zero))))) = "5"
digit (suc (suc (suc (suc (suc (suc zero)))))) = "6"
digit (suc (suc (suc (suc (suc (suc (suc zero))))))) = "7"
digit (suc (suc (suc (suc (suc (suc (suc (suc zero)))))))) = "8"
digit (suc (suc (suc (suc (suc (suc (suc (suc (suc d))))))))) = "9"

-- The digits of `n` in front of `out`. Fuel above `n` is enough, since each round divides by ten.
pub decimal : ℕ → ℕ → String → String
unfolding digit
decimal zero n out = out
decimal (suc f) n out =
    let rest = decimal f (n / 10) (String.◌∷◌ (digit (n % 10)) out) in
    if ltb n 10 then String.◌∷◌ (digit n) out else rest

unfoldable pub itoa : ℤ → String
unfolding decimal
itoa (pos n) = decimal (suc n) n String.[]
itoa (negsuc n) = String.◌∷◌ "-" (decimal (suc (suc n)) (suc n) String.[])

-- The value of a text of digits after the value `n` of the digits in front of it.
scan : String → ℕ → Option ℕ
scan String.[] n = some n
scan (String.◌∷◌ c s) n =
    let d = code c - 48 in if ltb (code c) 48 || ltb 57 (code c) then none else scan s (n * 10 + d)

-- At least one digit.
digits : String → Option ℕ
unfolding scan
digits String.[] = none
digits (String.◌∷◌ c s) = scan (String.◌∷◌ c s) 0

negate : ℕ → ℤ
negate zero = pos zero
negate (suc n) = negsuc n

-- The integer that a text spells, of any size.
unfoldable pub read_int : String → Option ℤ
unfolding digits negate
read_int String.[] = none
read_int (String.◌∷◌ c s) =
    if code c == 45
    then Option.map negate (digits s)
    else if code c == 43
    then Option.map pos (digits s)
    else Option.map pos (digits (String.◌∷◌ c s))

abbrev pub fits_int : ℤ → Bool
fits_int (pos n) = ltb n (2 ^ 63)
fits_int (negsuc n) = ltb n (2 ^ 63)

abbrev in_range : Option ℤ → Option ℤ
in_range none = none
in_range (some z) = if fits_int z then some z else none

-- `none` is the error of `Atoi`.
unfoldable pub atoi : String → Option ℤ
unfolding read_int
atoi s = in_range (read_int s)

pub code-digit : (d : ℕ) → d < 10 → code (digit d) ≡ 48 + d
unfolding digit
code-digit zero h = refl
code-digit (suc zero) h = refl
code-digit (suc (suc zero)) h = refl
code-digit (suc (suc (suc zero))) h = refl
code-digit (suc (suc (suc (suc zero)))) h = refl
code-digit (suc (suc (suc (suc (suc zero))))) h = refl
code-digit (suc (suc (suc (suc (suc (suc zero)))))) h = refl
code-digit (suc (suc (suc (suc (suc (suc (suc zero))))))) h = refl
code-digit (suc (suc (suc (suc (suc (suc (suc (suc zero)))))))) h = refl
code-digit (suc (suc (suc (suc (suc (suc (suc (suc (suc d))))))))) h = omega arith

scan-digit : (d n : ℕ) (s : String) → d < 10 → scan (String.◌∷◌ (digit d) s) n ≡ scan s (n * 10 + d)
unfolding scan
scan-digit d n s h =
    let same : 48 + d - 48 ≡ d = omega arith in
    rw (code-digit d h) (rw (inside d h) (ap (λ k. scan s (n * 10 + k)) same))
  where
    inside : (d : ℕ) → d < 10 → (ltb (48 + d) 48 || ltb 57 (48 + d)) ≡ false
    inside d h = ground arith

scan-decimal : (f n : ℕ) (out : String) → n < f → scan (decimal f n out) 0 ≡ scan out n
unfolding decimal
scan-decimal zero n out h = absurd (omega arith)
scan-decimal (suc f) n out h = elim (Bool-cases (ltb n 10)) [
  | inl small ↦
      let below : n < 10 = ground arith in
      let value : 0 * 10 + n ≡ n = omega arith in
      rw small (scan-digit n 0 out below ∙ ap (scan out) value)
  | inr large ↦
      let value : n / 10 * 10 + n % 10 ≡ n = omega arith in
      let digit_lt : n % 10 < 10 = omega arith in
      let fuel : n / 10 < f = ground arith in
      rw large (
        scan-decimal f (n / 10) (String.◌∷◌ (digit (n % 10)) out) fuel
        ∙ scan-digit (n % 10) (n / 10) out digit_lt
        ∙ ap (scan out) value)
]

-- What `Itoa` prints of a natural number begins with a digit, so `read_int` takes no sign off it.
read_int-decimal :
    (f n : ℕ) (out : String)
    → n < f
    → read_int (decimal f n out) ≡ Option.map pos (digits (decimal f n out))
unfolding decimal read_int
read_int-decimal zero n out h = absurd (omega arith)
read_int-decimal (suc f) n out h = elim (Bool-cases (ltb n 10)) [
  | inl small ↦ rw small (ground (arith, code-digit n))
  | inr large ↦
      rw large (read_int-decimal f (n / 10) (String.◌∷◌ (digit (n % 10)) out) (ground arith))
]

digits-decimal :
    (f n : ℕ) (out : String) → n < f → digits (decimal f n out) ≡ scan (decimal f n out) 0
unfolding decimal digits
digits-decimal zero n out h = absurd (omega arith)
digits-decimal (suc f) n out h = elim (Bool-cases (ltb n 10)) [
  | inl small ↦ rw small refl
  | inr large ↦
      rw large (digits-decimal f (n / 10) (String.◌∷◌ (digit (n % 10)) out) (ground arith))
]

value-decimal : (n : ℕ) → digits (decimal (suc n) n String.[]) ≡ some n
unfolding scan
value-decimal n =
    digits-decimal (suc n) n String.[] (omega arith)
    ∙ scan-decimal (suc n) n String.[] (omega arith)

read_int-itoa : (z : ℤ) → read_int (itoa z) ≡ some z
unfolding itoa read_int
read_int-itoa (pos n) =
    read_int-decimal (suc n) n String.[] (omega arith) ∙ ap (Option.map pos) (value-decimal n)
read_int-itoa (negsuc n) = ap (Option.map negate) (value-decimal (suc n))

-- Two integers that print alike are equal.
pub itoa-injective : (a b : ℤ) → itoa a ≡ itoa b → a ≡ b
itoa-injective a b h = some-injective a b (sym (read_int-itoa a) ∙ ap read_int h ∙ read_int-itoa b)

-- `Atoi` reads back what `Itoa` prints of an `int`.
pub atoi-itoa : (z : ℤ) → fits_int z ≡ true → atoi (itoa z) ≡ some z
unfolding atoi
atoi-itoa z h = rw (read_int-itoa z) (rw h refl)

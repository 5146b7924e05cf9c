-- ===== src/Base/Decimal/Digits.antt =====
-- The characters that `strconv.Itoa` prints.
use Prim.Native.Nat.{ℕ, zero, suc, ◌/◌, ◌%◌, ◌<◌}
use Prim.Native.Char.{Char, code}
use Prim.Native.String.{String}
use mathlib.Core.Path.{◌≡◌, refl}
use mathlib.Core.Logic.{inl, inr}
use mathlib.Core.Bool.{Bool, true, false, not, ◌&&◌, ◌||◌}
use native.Mathlib.Omega.{arith}
use lbconfig_operator.Base.Equality.{ℤ, pos, negsuc, Bool-cases}
use lbconfig_operator.Base.Text.{same_char, has_char}
use lbconfig_operator.Base.Decimal.{ltb, digit, decimal, code-digit, itoa}

-- Neither a digit nor the sign.
abbrev pub never_printed : Char → Bool
never_printed c = (ltb (code c) 48 || ltb 57 (code c)) && not (same_char "-" c)

same_char-digit :
    (d : ℕ) (c : Char) → d < 10 → never_printed c ≡ true → same_char (digit d) c ≡ false
same_char-digit d c h k = ground (arith, code-digit d h)

has_char-decimal :
    (f n : ℕ) (out : String) (c : Char)
    → n < f
    → never_printed c ≡ true
    → has_char out c ≡ false
    → has_char (decimal f n out) c ≡ false
unfolding decimal has_char
has_char-decimal zero n out c h k none = absurd (ground arith)
has_char-decimal (suc f) n out c h k none = elim (Bool-cases (ltb n 10)) [
  | inl small ↦ rw small (rw (same_char-digit n c (ground arith) k) none)
  | inr large ↦
      let digit_lt : n % 10 < 10 = omega arith in
      let fuel : n / 10 < f = ground arith in
      rw large (
        has_char-decimal f (n / 10) (String.◌∷◌ (digit (n % 10)) out) c fuel k
          (rw (same_char-digit (n % 10) c digit_lt k) none))
]

-- `Itoa` prints digits and a sign only.
pub has_char-itoa : (z : ℤ) (c : Char) → never_printed c ≡ true → has_char (itoa z) c ≡ false
unfolding itoa has_char
has_char-itoa (pos n) c h = has_char-decimal (suc n) n String.[] c (omega arith) h refl
has_char-itoa (negsuc n) c h =
    ground (arith, has_char-decimal (suc (suc n)) (suc n) String.[] c (omega arith) h refl)

-- ===== src/Base/Text/Cutset.antt =====
-- Lemmas on `strings.Trim` and `strings.TrimLeft`.
use Prim.Native.Char.{Char}
use Prim.Native.String.{String, ◌++◌ as ◌<>◌}
use mathlib.Core.Path.{◌≡◌, refl, sym, ap, ◌∙◌}
use mathlib.Core.Logic.{inl, inr}
use mathlib.Core.Bool.{true, false, ◌&&◌}
use text.Mathlib.TextLemmas.{nil-append, cons-append}
use native.Mathlib.Omega.{arith}
use lbconfig_operator.Base.Equality.{if◌then◌else◌, Bool-cases}
use lbconfig_operator.Base.Text.{
  same_char, has_char, trim_left, trim_right, trim, all_in, starts_outside, ends_outside, is_empty,
}

same_char_refl : (c : Char) → same_char c c ≡ true
same_char_refl c = ground arith

all_in_wider :
    (cutset s : String) (x : Char) → all_in cutset s ≡ true → all_in (String.◌∷◌ x cutset) s ≡ true
unfolding all_in has_char
all_in_wider cutset String.[] x h = refl
all_in_wider cutset (String.◌∷◌ c s) x h = ground (arith, all_in_wider cutset s x)

-- A cutset has its own characters.
pub all_in_self : (s : String) → all_in s s ≡ true
unfolding all_in has_char
all_in_self String.[] = refl
all_in_self (String.◌∷◌ c s) = ground (arith, all_in_wider s s c (all_in_self s), same_char_refl c)

-- The same on the left.
trim_left-append :
    (cutset a s : String) → all_in cutset a ≡ true → trim_left cutset (a <> s) ≡ trim_left cutset s
unfolding all_in trim_left
trim_left-append cutset String.[] s h = rw nil-append refl
trim_left-append cutset (String.◌∷◌ c a) s h =
    rw cons-append (ground (arith, trim_left-append cutset a s))

trim_left_outside : (cutset s : String) → starts_outside cutset s ≡ true → trim_left cutset s ≡ s
unfolding trim_left
trim_left_outside cutset String.[] h = refl
trim_left_outside cutset (String.◌∷◌ c s) h = ground arith

trim_right_outside : (cutset s : String) → ends_outside cutset s ≡ true → trim_right cutset s ≡ s
unfolding ends_outside trim_right
trim_right_outside cutset String.[] h = refl
trim_right_outside cutset (String.◌∷◌ c String.[]) h = ground arith
trim_right_outside cutset (String.◌∷◌ c (String.◌∷◌ d s)) h =
    rw (trim_right_outside cutset (String.◌∷◌ d s) h) refl

trim_right-all_in : (cutset a : String) → all_in cutset a ≡ true → trim_right cutset a ≡ String.[]
unfolding all_in trim_right
trim_right-all_in cutset String.[] h = refl
trim_right-all_in cutset (String.◌∷◌ c a) h =
    let here : has_char cutset c ≡ true = ground arith in
    let there : all_in cutset a ≡ true = ground arith in
    rw (trim_right-all_in cutset a there) (rw here refl)

trim_right-append-none :
    (cutset a s : String)
    → all_in cutset a ≡ true
    → trim_right cutset s ≡ String.[]
    → trim_right cutset (a <> s) ≡ String.[]
unfolding all_in trim_right
trim_right-append-none cutset String.[] s h k = rw nil-append k
trim_right-append-none cutset (String.◌∷◌ c a) s h k =
    let here : has_char cutset c ≡ true = ground arith in
    let there : all_in cutset a ≡ true = ground arith in
    rw cons-append (rw (trim_right-append-none cutset a s there k) (rw here refl))

trim_right-append :
    (cutset a s : String)
    → is_empty (trim_right cutset s) ≡ false
    → trim_right cutset (a <> s) ≡ a <> trim_right cutset s
unfolding trim_right
trim_right-append cutset String.[] s h = rw nil-append (rw nil-append refl)
trim_right-append cutset (String.◌∷◌ c a) s h = rw cons-append (
    rw (trim_right-append cutset a s h)
      (rw (nonempty a (trim_right cutset s) h) (sym (cons-append c a (trim_right cutset s)))))
  where
    nonempty : (a t : String) → is_empty t ≡ false → is_empty (a <> t) ≡ false
    nonempty String.[] t h = rw nil-append h
    nonempty (String.◌∷◌ x a) t h = rw cons-append refl

-- A prefix of characters of the cutset is trimmed off.
pub trim-append :
    (cutset a s : String) → all_in cutset a ≡ true → trim cutset (a <> s) ≡ trim cutset s
unfolding trim
trim-append cutset a s h = elim (Bool-cases (is_empty (trim_right cutset s))) [
  | inl none ↦
      let gone : trim_right cutset s ≡ String.[] = empty (trim_right cutset s) none in
      ap (trim_left cutset) (trim_right-append-none cutset a s h gone ∙ sym gone)
  | inr some ↦
      ap (trim_left cutset) (trim_right-append cutset a s some)
      ∙ trim_left-append cutset a (trim_right cutset s) h
]
  where
    empty : (t : String) → is_empty t ≡ true → t ≡ String.[]
    empty String.[] h = refl
    empty (String.◌∷◌ c t) h = absurd (ground arith)

-- A text that begins and ends outside the cutset is left alone.
pub trim_outside :
    (cutset s : String)
    → starts_outside cutset s ≡ true
    → ends_outside cutset s ≡ true
    → trim cutset s ≡ s
unfolding trim
trim_outside cutset s starts ends =
    ap (trim_left cutset) (trim_right_outside cutset s ends) ∙ trim_left_outside cutset s starts

-- The path of a monitor, taken out of its request.
pub trim_left-get :
    (path : String) → starts_outside "GET " path ≡ true → trim_left "GET " ("GET " <> path) ≡ path
trim_left-get path h =
    trim_left-append "GET " "GET " path (all_in_self "GET ") ∙ trim_left_outside "GET " path h

trim_left-starts : (cutset s : String) → starts_outside cutset (trim_left cutset s) ≡ true
unfolding trim_left
trim_left-starts cutset String.[] = refl
trim_left-starts cutset (String.◌∷◌ c s) = elim (Bool-cases (has_char cutset c)) [
  | inl e ↦ rw e (trim_left-starts cutset s)
  | inr e ↦ rw e (rw e refl)
]

ends_outside-tail :
    (cutset s : String) (c : Char)
    → ends_outside cutset (String.◌∷◌ c s) ≡ true
    → ends_outside cutset s ≡ true
unfolding ends_outside
ends_outside-tail cutset String.[] c h = refl
ends_outside-tail cutset (String.◌∷◌ d s) c h = h

trim_left-ends :
    (cutset s : String)
    → ends_outside cutset s ≡ true
    → ends_outside cutset (trim_left cutset s) ≡ true
unfolding trim_left
trim_left-ends cutset String.[] h = h
trim_left-ends cutset (String.◌∷◌ c s) h = elim (Bool-cases (has_char cutset c)) [
  | inl e ↦ rw e (trim_left-ends cutset s (ends_outside-tail cutset s c h))
  | inr e ↦ rw e h
]

ends_outside-empty : (cutset : String) → ends_outside cutset String.[] ≡ true
unfolding ends_outside
ends_outside-empty cutset = refl

ends_outside-cons :
    (cutset rest : String) (c : Char)
    → ends_outside cutset rest ≡ true
    → ends_outside cutset
        (if is_empty rest && has_char cutset c then String.[] else String.◌∷◌ c rest)
      ≡ true
unfolding ends_outside
ends_outside-cons cutset String.[] c h = elim (Bool-cases (has_char cutset c)) [
  | inl e ↦ rw e refl
  | inr e ↦ rw e (rw e refl)
]
ends_outside-cons cutset (String.◌∷◌ d rest) c h = h

trim_right-ends : (cutset s : String) → ends_outside cutset (trim_right cutset s) ≡ true
unfolding trim_right
trim_right-ends cutset String.[] = ends_outside-empty cutset
trim_right-ends cutset (String.◌∷◌ c s) =
    ends_outside-cons cutset (trim_right cutset s) c (trim_right-ends cutset s)

-- What is trimmed begins and ends outside the cutset.
pub trim-outside :
    (cutset s : String)
    → (starts_outside cutset (trim cutset s) ≡ true) × (ends_outside cutset (trim cutset s) ≡ true)
unfolding trim
trim-outside cutset s = (
  trim_left-starts cutset (trim_right cutset s),
  trim_left-ends cutset (trim_right cutset s) (trim_right-ends cutset s),
)

-- ===== src/Base/Ends.antt =====
-- How a call ends: what holds after it if it returns a value, and what holds if it does not.
use lbconfig_operator.Base.Effects.{
  Outcome, ok, err, panic, Action, ◌>>=◌, resume, wrap, ignore_error, for_each,
}
use Prim.Native.String.{String}
use mathlib.Core.Path.{◌≡◌, refl}
use mathlib.Core.List.{List, [], ◌∷◌}

module _ {S : Type 0} where
  -- The call returned a value with `Q`, or an error or a panic with `E`.
  abbrev pub Ends : {A : Type 0} → (A → S → Type 0) → (S → Type 0) → Outcome A × S → Type 0
  Ends Q E (ok a, s) = Q a s
  Ends Q E (err e, s) = E s
  Ends Q E (panic, s) = E s

  pub Ends-resume :
      {A B : Type 0} (Q : A → S → Type 0) (R : B → S → Type 0) (E : S → Type 0) (r : Outcome A × S)
      (f : A → Action S B)
      → Ends Q E r
      → ((a : A) (s : S) → Q a s → Ends R E (f a s))
      → Ends R E (resume r.0 f r.1)
  Ends-resume Q R E (ok a, s) f h k = k a s h
  Ends-resume Q R E (err e, s) f h k = h
  Ends-resume Q R E (panic, s) f h k = h

  pub Ends-mono :
      {A : Type 0} (Q R : A → S → Type 0) (E F : S → Type 0) (r : Outcome A × S)
      → Ends Q E r
      → ((a : A) (s : S) → Q a s → R a s)
      → ((s : S) → E s → F s)
      → Ends R F r
  Ends-mono Q R E F (ok a, s) h q e = q a s h
  Ends-mono Q R E F (err x, s) h q e = e s h
  Ends-mono Q R E F (panic, s) h q e = e s h

  -- What holds in any case.
  pub Ends-any : {A : Type 0} (I : S → Type 0) (r : Outcome A × S) → Ends (λ _. I) I r → I r.1
  Ends-any I (ok a, s) h = h
  Ends-any I (err e, s) h = h
  Ends-any I (panic, s) h = h

  pub any-Ends : {A : Type 0} (I : S → Type 0) (r : Outcome A × S) → I r.1 → Ends (λ _. I) I r
  any-Ends I (ok a, s) h = h
  any-Ends I (err e, s) h = h
  any-Ends I (panic, s) h = h

  -- The call leaves `I` true, however it ends.
  abbrev pub Guards : {A : Type 0} → (S → Type 0) → Action S A → Type 0
  Guards I m = (s : S) → I s → I (m s).1

  resumed-Guards :
      {A B : Type 0} (I : S → Type 0) (r : Outcome A × S) (f : A → Action S B)
      → I r.1
      → ((a : A) → r.0 ≡ ok a → Guards I (f a))
      → I (resume r.0 f r.1).1
  resumed-Guards I (ok a, s) f h k = k a refl s h
  resumed-Guards I (err e, s) f h k = h
  resumed-Guards I (panic, s) f h k = h

  pub Guards-bind :
      {A B : Type 0} (I : S → Type 0) (m : Action S A) (f : A → Action S B)
      → Guards I m
      → ((a : A) (s : S) → (m s).0 ≡ ok a → Guards I (f a))
      → Guards I (m >>= f)
  Guards-bind I m f h k s i = resumed-Guards I (m s) f (h s i) (λ a. k a s)

  wrapped :
      {A : Type 0} (I : S → Type 0) (f : String → String) (r : Outcome A × S) (s : S)
      → I r.1
      → I (wrap f (λ _. r) s).1
  wrapped I f (ok a, t) s h = h
  wrapped I f (err e, t) s h = h
  wrapped I f (panic, t) s h = h

  pub Guards-wrap :
      {A : Type 0} (I : S → Type 0) (f : String → String) (m : Action S A)
      → Guards I m
      → Guards I (wrap f m)
  Guards-wrap I f m h s i = wrapped I f (m s) s (h s i)

  ignored :
      {A : Type 0} (I : S → Type 0) (r : Outcome A × S) (s : S)
      → I r.1
      → I (ignore_error (λ _. r) s).1
  ignored I (ok a, t) s h = h
  ignored I (err e, t) s h = h
  ignored I (panic, t) s h = h

  pub Guards-ignore_error :
      {A : Type 0} (I : S → Type 0) (m : Action S A) → Guards I m → Guards I (ignore_error m)
  Guards-ignore_error I m h s i = ignored I (m s) s (h s i)

  pub Guards-for_each :
      {A : Type 0} (I : S → Type 0) (f : A → Action S (Unit {0})) (xs : List A)
      → ((a : A) → Guards I (f a))
      → Guards I (for_each f xs)
  unfolding for_each
  Guards-for_each I f [] k s i = i
  Guards-for_each I f (x ∷ xs) k s i =
      Guards-bind I (f x) (λ _. for_each f xs) (k x) (λ _ _ _. Guards-for_each I f xs k) s i

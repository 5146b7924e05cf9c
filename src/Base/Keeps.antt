-- ===== src/Base/Keeps.antt =====
-- Calls that leave a part of the world alone, whether they succeed or not.
use lbconfig_operator.Base.Effects.{
  Outcome, ok, err, panic, Action, ◌>>=◌, ◌>>◌, resume, wrap, ignore_error, for_each,
}
use Prim.Native.String.{String}
use mathlib.Core.Path.{◌≡◌, refl, ◌∙◌}
use mathlib.Core.List.{List, [], ◌∷◌}

module _ {S D : Type 0} (view : S → D) where
  -- The call leaves what `view` shows, whether it succeeds or not.
  pub record Keeps {A : Type 0} (m : Action S A) : Type 0 where
    pub kept : (s : S) → view (m s).1 ≡ view s

  pub resumed :
      {A B : Type 0} (r : Outcome A × S) (f : A → Action S B)
      → ((a : A) → Keeps (f a))
      → view (resume r.0 f r.1).1 ≡ view r.1
  resumed (ok a, s) f k = (k a).kept s
  resumed (err e, s) f k = refl
  resumed (panic, s) f k = refl

  pub Keeps-seq :
      {A B : Type 0} (m : Action S A) (n : Action S B) → Keeps m → Keeps n → Keeps (m >> n)
  Keeps-seq m n h k = record { kept = λ s. resumed (m s) (λ _. n) (λ _. k) ∙ h.kept s }

  view-wrap :
      {A : Type 0} (f : String → String) (r : Outcome A × S) (s : S)
      → view (wrap f (λ s'. r) s).1 ≡ view r.1
  view-wrap f (ok a, t) s = refl
  view-wrap f (err e, t) s = refl
  view-wrap f (panic, t) s = refl

  view-ignore_error :
      {A : Type 0} (r : Outcome A × S) (s : S) → view (ignore_error (λ s'. r) s).1 ≡ view r.1
  view-ignore_error (ok a, t) s = refl
  view-ignore_error (err e, t) s = refl
  view-ignore_error (panic, t) s = refl

  pub wrap-Keeps : {A : Type 0} (f : String → String) (m : Action S A) → Keeps m → Keeps (wrap f m)
  wrap-Keeps f m h = record { kept = λ s. view-wrap f (m s) s ∙ h.kept s }

  pub ignore_error-Keeps : {A : Type 0} (m : Action S A) → Keeps m → Keeps (ignore_error m)
  ignore_error-Keeps m h = record { kept = λ s. view-ignore_error (m s) s ∙ h.kept s }

  pub for_each-Keeps :
      {A : Type 0} (f : A → Action S (Unit {0})) (xs : List A)
      → ((a : A) → Keeps (f a))
      → Keeps (for_each f xs)
  unfolding for_each
  for_each-Keeps f [] k = record { kept = λ s. refl }
  for_each-Keeps f (x ∷ xs) k = Keeps-seq (f x) (for_each f xs) (k x) (for_each-Keeps f xs k)

  resumed-ok :
      {A B : Type 0} (r : Outcome A × S) (f : A → Action S B)
      → ((a : A) → r.0 ≡ ok a → Keeps (f a))
      → view (resume r.0 f r.1).1 ≡ view r.1
  resumed-ok (ok a, s) f k = (k a refl).kept s
  resumed-ok (err e, s) f k = refl
  resumed-ok (panic, s) f k = refl

  pub Keeps-bind :
      {A B : Type 0} (m : Action S A) (f : A → Action S B)
      → Keeps m
      → ((a : A) (s : S) → (m s).0 ≡ ok a → Keeps (f a))
      → Keeps (m >>= f)
  Keeps-bind m f h k = record { kept = λ s. resumed-ok (m s) f (λ a. k a s) ∙ h.kept s }

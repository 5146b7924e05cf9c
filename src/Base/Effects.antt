-- ===== src/Base/Effects.antt =====
-- Go functions that return `error`, may panic, and act on a shared world `S`: the provider's
-- device, the provider object, the Kubernetes API and the metrics registry.
use mathlib.Core.Bool.{Bool, false}
use mathlib.Core.List.{List, [], ◌∷◌}
use Prim.Native.String.{String}

-- `not_found` is what `errors.IsNotFound` reports; `fmt.Errorf` with `%v` forgets it.
pub record Error : Type 0 where
  pub message : String
  pub not_found : Bool

abbrev pub errorf : String → Error
errorf text = record { message = text; not_found = false }

-- `panic` is a nil dereference or an index out of range.
pub data Outcome {ℓ} (A : Type ℓ) : Type ℓ where
  ok : A → Outcome A
  err : Error → Outcome A
  panic : Outcome A

abbrev pub Action : Type 0 → Type 0 → Type 0
Action S A = S → Outcome A × S

module _ {S A : Type 0} where
  abbrev pub pure : A → Action S A
  pure a s = (ok a, s)

  abbrev pub raise : Error → Action S A
  raise e s = (err e, s)

  abbrev pub crash : Action S A
  crash s = (panic, s)

-- `if err != nil { return err }` after a call; a panic unwinds.
module _ {S A B : Type 0} where
  abbrev pub resume : Outcome A → (A → Action S B) → Action S B
  resume (ok a) f s = f a s
  resume (err e) f s = (err e, s)
  resume panic f s = (panic, s)

  infixl 10 ◌>>=◌ ◌>>◌
  abbrev pub ◌>>=◌ : Action S A → (A → Action S B) → Action S B
  ◌>>=◌ m f s = resume (m s).0 f (m s).1

  abbrev pub ◌>>◌ : Action S A → Action S B → Action S B
  m >> n = m >>= λ _. n

module _ {S A : Type 0} where
  abbrev rewrap : (String → String) → Outcome A × S → Outcome A × S
  rewrap f (ok a, s) = (ok a, s)
  rewrap f (err e, s) = (err (errorf (f e.message)), s)
  rewrap f (panic, s) = (panic, s)

  -- `if err != nil { return fmt.Errorf(..., err) }`
  abbrev pub wrap : (String → String) → Action S A → Action S A
  wrap f m s = rewrap f (m s)

  abbrev forget : Outcome A × S → Outcome (Unit {0}) × S
  forget (ok a, s) = (ok tt, s)
  forget (err e, s) = (ok tt, s)
  forget (panic, s) = (panic, s)

  -- A call whose error is only logged or dropped.
  abbrev pub ignore_error : Action S A → Action S (Unit {0})
  ignore_error m s = forget (m s)

-- `for _, x := range xs { if err := f(x); err != nil { return err } }`
module _ {S A : Type 0} where
  unfoldable pub for_each : (A → Action S (Unit {0})) → List A → Action S (Unit {0})
  for_each f [] = pure tt
  for_each f (x ∷ xs) = f x >> for_each f xs

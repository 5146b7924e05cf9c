-- ===== src/Providers/F5/Calls.antt =====
-- How f5_controller.go takes the answers of the BIG-IP client.
use lbconfig_operator.Base.{
  String, Option, none, some, string_eq, Outcome, ok, err, panic, errorf, Action,
}
use lbconfig_operator.Providers.{Reply, Call}

module _ {S : Type 0} where
  abbrev answered : {A : Type 0} → (String → String) → Reply A × S → Outcome (Option A) × S
  answered text (r, s) = elim r.error [
    | none ↦ (ok r.value, s)
    | some e ↦ (err (errorf (text e)), s)
  ]

  -- A call whose answer may be nil: `if err != nil { return ..., fmt.Errorf(..., err) }`.
  unfoldable pub query : {A : Type 0} → (String → String) → Call S A → Action S (Option A)
  query text call s = answered text (call s)

  abbrev done : Outcome (Option (Unit {0})) × S → Outcome (Unit {0}) × S
  done (ok r, s) = (ok tt, s)
  done (err e, s) = (err e, s)
  done (panic, s) = (panic, s)

  -- A call of which only the error counts.
  unfoldable pub expect : (String → String) → Call S (Unit {0}) → Action S (Unit {0})
  expect text call s = done (answered text (call s))

  abbrev pub settle : {A : Type 0} → Outcome A → Action S A
  settle o s = (o, s)

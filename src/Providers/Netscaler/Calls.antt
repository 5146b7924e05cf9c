-- ===== src/Providers/Netscaler/Calls.antt =====
-- How netscaler_controller.go takes the answers of the Nitro client, and `saveConfig`.
use lbconfig_operator.Base.{
  String, ◌<>◌, Option, none, some, [], string_eq, Outcome, ok, err, errorf, Action,
}
use lbconfig_operator.Base.Dict.{Dict}
use lbconfig_operator.Providers.{Reply, Call}
use lbconfig_operator.Providers.Netscaler.{Field, Added, Nitro}

abbrev pub or_empty_map : Option (Dict Field) → Dict Field
or_empty_map none = []
or_empty_map (some m) = m

module _ {S : Type 0} where
  abbrev finished : (String → String) → Reply (Unit {0}) × S → Outcome (Unit {0}) × S
  finished text (r, s) = elim r.error [ none ↦ (ok tt, s) | some e ↦ (err (errorf (text e)), s) ]

  -- A call of which only the error counts.
  unfoldable pub expect : (String → String) → Call S (Unit {0}) → Action S (Unit {0})
  expect text call s = finished text (call s)

  abbrev answer : Reply (Dict Field) × S → Outcome (Dict Field) × S
  answer (r, s) = (ok (or_empty_map r.value), s)

  -- `m, _ := p.client.FindResource(...)`
  unfoldable pub find : Call S (Dict Field) → Action S (Dict Field)
  find call s = answer (call s)

  abbrev answered : Reply (Dict Field) × S → Outcome (Dict Field) × S
  answered (r, s) = elim r.error [
    | none ↦ (ok (or_empty_map r.value), s)
    | some e ↦ (err (errorf e), s)
  ]

  -- `m, err := p.client.FindResource(...); if err != nil { return nil, err }`
  unfoldable pub find_or_fail : Call S (Dict Field) → Action S (Dict Field)
  find_or_fail call s = answered (call s)

  abbrev added : (String → String → String) → Added × S → Outcome (Unit {0}) × S
  added text (r, s) = elim r.error [
    | none ↦ (ok tt, s)
    | some e ↦ (err (errorf (text r.name e)), s)
  ]

  -- A call of `AddResource`, whose error's text may have the name that it returns.
  unfoldable pub add : (String → String → String) → (S → Added × S) → Action S (Unit {0})
  add text call s = added text (call s)

  abbrev pub settle : {A : Type 0} → Outcome A → Action S A
  settle o s = (o, s)

-- `saveConfig`
unfoldable pub save_config : {S : Type 0} → Nitro S → String → Action S (Unit {0})
save_config client msg =
    expect (λ e. "error saving Netscaler - " <> msg <> ": " <> e) (client.save_config)

-- ===== src/Providers/Haproxy/Session.antt =====
-- The session of the HAProxy provider: its creation, the transaction that `Connect` starts and
-- `Close` commits, `CloseError`, and the monitor, which the provider only remembers.
use lbconfig_operator.Base.{
  String, ℤ, pos, true, if◌then◌else◌, Option, none, some, Outcome, ok, err, panic, errorf, Action,
  pure,
}
use lbconfig_operator.Base.Dict.{lookup}
use lbconfig_operator.Api.{Provider, Monitor}
use lbconfig_operator.Nodes.{or_empty}
use lbconfig_operator.Providers.{Cell, Reply, Call}
use lbconfig_operator.Providers.Haproxy.{HaproxyProvider, lb_method_map, DataPlane, has_text}

module _ {S : Type 0} (self : Cell S HaproxyProvider) (dp : DataPlane S) where
  abbrev pub tx : S → String
  tx s = (self.get s).transaction

  abbrev pub update : (HaproxyProvider → HaproxyProvider) → S → S
  update f s = self.set (f (self.get s)) s

  -- `CloseError`, whose own error every caller drops.
  abbrev pub close_error : S → S
  close_error s = (dp.delete_transaction (tx s) s).1

  -- `_ = p.CloseError(); return ...`
  abbrev pub abort : {A : Type 0} → String → Action S A
  abort text s = (err (errorf text), close_error s)

  abbrev pub checked : (String → String) → Reply (Unit {0}) × S → Outcome (Unit {0}) × S
  checked text (r, s) = elim r.error [
    | none ↦ (ok tt, s)
    | some e ↦ (err (errorf (text e)), close_error s)
  ]

  -- A call of which only the error counts.
  unfoldable pub expect : (String → String) → (S → Call S (Unit {0})) → Action S (Unit {0})
  expect text call s = checked text (call s s)

  abbrev pub looked :
      {A : Type 0} → String → (String → String) → Reply A × S → Outcome (Option A) × S
  looked missing text (r, s) = elim r.error [
    | none ↦ (ok r.value, s)
    | some e ↦
        if has_text e missing then (ok r.value, s) else (err (errorf (text e)), close_error s)
  ]

  -- `if err != nil && !strings.Contains(err.Error(), missing)`
  unfoldable pub look_up :
      {A : Type 0} → String → (String → String) → (S → Call S A) → Action S (Option A)
  look_up missing text call s = looked missing text (call s s)

  unfoldable pub create : Provider → String → String → Action S (Unit {0})
  create lb_backend username password s =
      let s' =
        update
          (λ p. record p {
            host = lb_backend.host;
            hostport = lb_backend.port;
            username = username;
            password = password;
            lbmethod = or_empty (lookup lb_backend.lb_method lb_method_map);
          })
          s in
      dp.create lb_backend.host lb_backend.port username password lb_backend.validate_certs
        lb_backend.debug s'

  abbrev pub start : Reply String × S → Outcome (Unit {0}) × S
  start (r, s) = elim r.error [
    | some e ↦ (err (errorf e), close_error s)
    | none ↦ elim r.value [
      | none ↦ (panic, s)
      | some id ↦ (ok tt, update (λ p. record p { transaction = id }) s)
    ]
  ]

  abbrev pub open_site : Reply ℤ × S → Outcome (Unit {0}) × S
  open_site (r, s) = elim r.error [
    | some e ↦ (err (errorf e), s)
    | none ↦ elim r.value [
      | none ↦ (panic, s)
      | some version ↦
          start (dp.start_transaction version (update (λ p. record p { version = version }) s))
    ]
  ]

  unfoldable pub connect : Action S (Unit {0})
  connect s = open_site (dp.get_sites s)

  unfoldable pub close : Action S (Unit {0})
  close = expect (λ e. e) (λ s. dp.commit_transaction (tx s) true)

  -- `GetMonitor` answers an empty monitor, so that the handler edits it.
  unfoldable pub get_monitor : Monitor → Action S (Option Monitor)
  get_monitor monitor =
      pure (some (record { name = ""; path = ""; port = pos 0; monitor_type = "" }))

  -- `CreateMonitor` and `EditMonitor`.
  unfoldable pub set_monitor : Monitor → Action S (Unit {0})
  set_monitor m s = pure tt (update (λ p. record p { monitor = m }) s)

  unfoldable pub delete_monitor : Monitor → Action S (Unit {0})
  delete_monitor m s = pure tt (
      update
        (λ p. record p {
          monitor = record { name = ""; path = ""; port = pos 0; monitor_type = "" };
        })
        s)

-- ===== src/Providers/Netscaler/Methods.antt =====
-- The methods of netscaler_controller.go.
use lbconfig_operator.Base.{
  String, ◌<>◌, Option, none, some, [], ◌∷◌, ◌==◌, string_eq, if◌then◌else◌, Outcome, ok, err,
  panic, Action, pure, ◌>>=◌, ◌>>◌, itoa,
}
use lbconfig_operator.Base.Dict.{Dict, lookup}
use lbconfig_operator.Api.{Provider, Monitor, Pool, PoolMember, Vip}
use lbconfig_operator.Backend.{Backend}
use lbconfig_operator.Providers.{Cell, Reply}
use lbconfig_operator.Providers.Netscaler.{
  NetscalerProvider, Field, NitroParams, Nitro, lbmonitor, servicegroup, servicegroup_binding,
  servicegroup_servicegroupmember_binding, server, lbvserver, lbvserver_servicegroup_binding,
  a_monitor, a_group, a_group_monitor, a_server, a_group_member, a_vserver, a_vserver_group,
}
use lbconfig_operator.Providers.Netscaler.Config.{
  monitor_config, vserver_config, plain, as_text, read_monitor, bound_monitor, read_members,
  read_vip,
}
use lbconfig_operator.Providers.Netscaler.Calls.{
  or_empty_map, expect, find, find_or_fail, add, settle, save_config,
}

module _ {S : Type 0} (self : Cell S NetscalerProvider) (client : Nitro S) where
  -- The fields that `Create` sets; it does not set `validatecerts`.
  abbrev remember : Provider → String → String → S → S
  remember lb_backend username password s =
      self.set
        (record (self.get s) {
          host = lb_backend.host;
          hostport = lb_backend.port;
          username = username;
          password = password;
          lbmethod = lb_backend.lb_method;
        })
        s

  abbrev params : Provider → NetscalerProvider → String × String → NitroParams
  params lb_backend p (scheme, host) = record {
    url = scheme <> "://" <> host <> ":" <> itoa p.hostport;
    username = p.username;
    password = p.password;
    ssl_verify = p.validatecerts;
    log_level = if lb_backend.debug then "debug" else "";
  }

  abbrev open_client : Provider → Option (String × String) → Action S (Unit {0})
  open_client lb_backend none s = (panic, s)
  open_client lb_backend (some u) s =
      expect (λ e. e) (client.new_client (params lb_backend (self.get s) u)) s

  unfoldable pub create : Provider → String → String → Action S (Unit {0})
  create lb_backend username password s =
      open_client lb_backend (client.parse_url lb_backend.host)
        (remember lb_backend username password s)

  unfoldable pub connect : Action S (Unit {0})
  connect = pure tt

  unfoldable pub close : Action S (Unit {0})
  close = save_config client "close connection"

  unfoldable pub get_monitor : Monitor → Action S (Option Monitor)
  get_monitor monitor =
      find (client.find_resource lbmonitor monitor.name) >>= λ m. settle (read_monitor m)

  unfoldable pub create_monitor : Monitor → Action S (Unit {0})
  create_monitor m =
      add (λ name e. "error creating Netscaler monitor " <> name <> ": " <> e)
        (client.add_resource lbmonitor m.name (a_monitor (monitor_config m)))

  unfoldable pub edit_monitor : Monitor → Action S (Unit {0})
  edit_monitor m =
      add (λ name e. "error creating Netscaler monitor " <> name <> ": " <> e)
        (client.add_resource lbmonitor m.name (a_monitor (monitor_config m)))

  unfoldable pub delete_monitor : Monitor → Action S (Unit {0})
  delete_monitor m =
      let t = if m.monitor_type == "https" then "HTTP" else m.monitor_type in
      expect (λ e. "error deleting Netscaler monitor " <> m.name <> ": " <> e)
        (client.delete_resource_with_args lbmonitor m.name
          (("monitorname:" <> m.name) ∷ ("type:" <> t) ∷ []))

  abbrev pool_of : String → Outcome String → Outcome (Option Pool)
  pool_of name (ok monitor) = ok (some (record { name = name; members = []; monitor = monitor }))
  pool_of name (err e) = err e
  pool_of name panic = panic

  abbrev bound : Pool → String → Action S (Option Pool)
  bound pool name =
      find_or_fail (client.find_resource servicegroup_binding pool.name) >>= λ binding.
      settle (pool_of name (bound_monitor (lookup "servicegroup_lbmonitor_binding" binding)))

  abbrev found_pool : Pool → Dict Field → Action S (Option Pool)
  found_pool pool [] = pure none
  found_pool pool (f ∷ fs) =
      settle (as_text (plain (lookup "servicegroupname" (f ∷ fs))) ok) >>= bound pool

  unfoldable pub get_pool : Pool → Action S (Option Pool)
  get_pool pool = find (client.find_resource servicegroup pool.name) >>= found_pool pool

  -- The group, and the binding of the monitor to it, each with the text of its error.
  unfoldable pub put_pool : Pool → (String → String) → (String → String) → Action S (Unit {0})
  put_pool pool group_text monitor_text = do
    add (λ name. group_text)
        (client.add_resource servicegroup pool.name
          (a_group (record { servicegroupname = pool.name; servicetype = "TCP" })))
    expect monitor_text (
        client.bind_resource servicegroup pool.name lbmonitor pool.monitor
          (a_group_monitor (record { servicegroupname = pool.name; monitorname = pool.monitor })))

  unfoldable pub create_pool : Pool → Action S (Unit {0})
  create_pool pool =
      put_pool pool (λ e. "error creating pool " <> pool.name <> ": " <> e)
        (λ e. "error adding monitor " <> pool.monitor <> " to pool " <> pool.name <> ": " <> e)

  unfoldable pub edit_pool : Pool → Action S Pool
  edit_pool pool =
      put_pool pool (λ e. "error editing pool " <> pool.name <> ": " <> e)
        (λ e.
          "error editing pool " <> pool.name <> ", adding monitor " <> pool.monitor <> ": " <> e)
      >> pure pool

  unfoldable pub delete_pool : Pool → Action S (Unit {0})
  delete_pool pool =
      expect (λ e. "error deleting pool " <> pool.name <> ": " <> e)
        (client.delete_resource servicegroup pool.name)

  unfoldable pub get_pool_members : Pool → Action S (Option Pool)
  get_pool_members pool =
      find_or_fail (client.find_resource servicegroup_binding pool.name) >>= λ binding.
      settle (read_members pool (lookup "servicegroup_servicegroupmember_binding" binding))

  unfoldable pub create_pool_member : PoolMember → Pool → Action S (Unit {0})
  create_pool_member m pool = do
    add (λ name e. "error creating node " <> m.node.host <> ": " <> e)
        (client.add_resource server m.node.host
          (a_server (record { name = m.node.host; ipaddress = m.node.host })))
    add (λ name e. "error adding member " <> m.node.host <> " to pool " <> pool.name <> ": " <> e)
        (client.add_resource servicegroup_servicegroupmember_binding pool.name (
          a_group_member
            (record { servicegroupname = pool.name; servername = m.node.host; port = m.port })))

  unfoldable pub edit_pool_member : PoolMember → Pool → String → Action S (Unit {0})
  edit_pool_member m pool status = pure tt

  unfoldable pub delete_pool_member : PoolMember → Pool → Action S (Unit {0})
  delete_pool_member m pool =
      expect
        (λ e. "error deleting member " <> m.node.host <> " from pool " <> pool.name <> ": " <> e)
        (client.delete_resource_with_args servicegroup_servicegroupmember_binding pool.name (
          ("servername:" <> m.node.host)
          ∷ ("servicegroupname:" <> pool.name)
          ∷ ("port:" <> itoa m.port)
          ∷ []))

  -- The binding's pool counts only when the call has an error.
  abbrev rebound : Vip → Reply (Dict Field) × S → Outcome (Option Vip) × S
  rebound vip (r, s) = elim r.error [
    | none ↦ (ok (some vip), s)
    | some e ↦ elim (or_empty_map r.value) [
      | [] ↦ (ok (some vip), s)
      | f ∷ fs ↦ (
        as_text (plain (lookup "servicegroupname" (f ∷ fs)))
            (λ name. ok (some (record vip { pool = name }))),
        s,
      )
    ]
  ]

  abbrev found_vip : Vip → Dict Field → Action S (Option Vip)
  found_vip v [] = pure none
  found_vip v (f ∷ fs) = settle (read_vip v (f ∷ fs)) >>= λ vip s.
      rebound vip (client.find_resource lbvserver_servicegroup_binding v.name s)

  unfoldable pub get_vip : Vip → Action S (Option Vip)
  get_vip v = find (client.find_resource lbvserver v.name) >>= found_vip v

  -- The virtual server, and the binding of the pool to it: the body of `CreateVIP` and of `EditVIP`.
  unfoldable pub put_vip : Vip → Action S (Unit {0})
  put_vip v s =
      let ns_lb = vserver_config (self.get s).lbmethod v in
      let printed = v.name <> ", " <> client.print_vserver ns_lb in
      (do
        add (λ name e. "error creating VIP " <> printed <> ": " <> e)
            (client.add_resource lbvserver v.name (a_vserver ns_lb))
        expect (λ e. "error binding ServiceGroup " <> v.pool <> " to VIP " <> printed <> ": " <> e)
            (client.bind_resource lbvserver v.name servicegroup v.pool
              (a_vserver_group (record { servicegroupname = v.pool; name = v.name }))))
        s

  unfoldable pub create_vip : Vip → Action S (Unit {0})
  create_vip v = put_vip v

  unfoldable pub edit_vip : Vip → Action S (Unit {0})
  edit_vip v = put_vip v

  unfoldable pub delete_vip : Vip → Action S (Unit {0})
  delete_vip v =
      expect (λ e. "error deleting VIP " <> v.name <> ": " <> e)
        (client.delete_resource lbvserver v.name)

  unfoldable pub citrix_adc : Backend S
  citrix_adc = record {
    create = create;
    connect = connect;
    close = close;
    get_monitor = get_monitor;
    create_monitor = create_monitor;
    edit_monitor = edit_monitor;
    delete_monitor = delete_monitor;
    get_pool = get_pool;
    create_pool = create_pool;
    edit_pool = edit_pool;
    delete_pool = delete_pool;
    get_pool_members = get_pool_members;
    create_pool_member = create_pool_member;
    edit_pool_member = edit_pool_member;
    delete_pool_member = delete_pool_member;
    get_vip = get_vip;
    create_vip = create_vip;
    edit_vip = edit_vip;
    delete_vip = delete_vip;
  }

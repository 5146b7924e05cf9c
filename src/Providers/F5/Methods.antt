-- ===== src/Providers/F5/Methods.antt =====
-- The methods of f5_controller.go. All but `Create` only read the provider's object.
use lbconfig_operator.Base.{
  String, ◌<>◌, Option, none, some, List, string_eq, Outcome, ok, err, panic, Action, pure, crash,
  ◌>>=◌, ◌>>◌, itoa,
}
use lbconfig_operator.Base.Dict.{lookup}
use lbconfig_operator.Api.{Provider, Monitor, Pool, PoolMember, Vip}
use lbconfig_operator.Nodes.{or_empty}
use lbconfig_operator.Backend.{Backend}
use lbconfig_operator.Providers.{Cell}
use lbconfig_operator.Providers.F5.{
  F5Provider, lb_method_map, MonitorData, MemberData, NodeData, ServerData, BigIp,
}
use lbconfig_operator.Providers.F5.Config.{
  folder, base_monitor, monitor_config, read_monitor, read_members, member_name, server_config,
  read_vip, found_pool,
}
use lbconfig_operator.Providers.F5.Calls.{query, expect, settle}

module _ {S : Type 0} (set : F5Provider → S → S) where
  unfoldable pub create : Provider → String → String → Action S (Unit {0})
  create lb_backend username password s = (
    ok tt,
    set
        (record {
          host = lb_backend.host;
          hostport = lb_backend.port;
          username = username;
          password = password;
          partition = folder lb_backend.partition;
          validatecerts = lb_backend.validate_certs;
          lbmethod = or_empty (lookup lb_backend.lb_method lb_method_map);
        })
        s,
  )

module _ {S : Type 0} (self : S → F5Provider) (f5 : BigIp S) where
  abbrev partition : S → String
  partition s = (self s).partition

  abbrev open_session : F5Provider → Option String → Action S (Unit {0})
  open_session p none s = (panic, s)
  open_session p (some host) s =
      (ok tt, f5.new_session (host <> ":" <> itoa p.hostport) p.username p.password s)

  unfoldable pub connect : Action S (Unit {0})
  connect s = open_session (self s) (f5.url_host (self s).host) s

  unfoldable pub close : Action S (Unit {0})
  close = pure tt

  abbrev found_monitor : Option MonitorData → Action S (Option Monitor)
  found_monitor none = pure none
  found_monitor (some d) = settle (read_monitor f5.quote d)

  unfoldable pub get_monitor : Monitor → Action S (Option Monitor)
  get_monitor monitor =
      query (λ e. "error getting F5 Monitor " <> monitor.name <> ": " <> e)
        (f5.get_monitor monitor.name monitor.monitor_type)
      >>= found_monitor

  unfoldable pub create_monitor : Monitor → Action S (Unit {0})
  create_monitor m s =
      expect (λ e. "error creating F5 monitor " <> m.name <> ": " <> e)
        (f5.add_monitor (monitor_config (partition s) m) m.monitor_type) s

  -- The port is not sent.
  unfoldable pub edit_monitor : Monitor → Action S (Unit {0})
  edit_monitor m s =
      expect (λ e. "error patching F5 monitor  " <> m.name <> ": " <> e)
        (f5.patch_monitor m.name m.monitor_type (base_monitor (partition s) m)) s

  unfoldable pub delete_monitor : Monitor → Action S (Unit {0})
  delete_monitor m =
      expect (λ e. "error deleting F5 monitor " <> m.name <> ": " <> e)
        (f5.delete_monitor m.name m.monitor_type)

  unfoldable pub get_pool : Pool → Action S (Option Pool)
  get_pool pool s =
      (query (λ e. "error getting F5 pool: " <> e) (f5.get_pool pool.name) >>= λ d.
      pure (found_pool (partition s) d))
        s

  -- The error of the last call is lost: the text prints the `err` of the call before, which is nil.
  unfoldable pub create_pool : Pool → Action S (Unit {0})
  create_pool pool s =
      (do
        expect (λ e. "error creating pool " <> pool.name <> ": " <> e) (f5.create_pool pool.name)
        expect
            (λ e. "error adding monitor " <> pool.monitor <> " to pool " <> pool.name <> ": " <> e)
            (f5.add_monitor_to_pool pool.monitor pool.name)
        expect
            (λ e.
              "error setting pool " <> pool.name <> " to method " <> (self s).lbmethod <> ": <nil>")
            (f5.modify_pool pool.name
              (record { name = ""; monitor = ""; load_balancing_mode = (self s).lbmethod })))
        s

  unfoldable pub edit_pool : Pool → Action S Pool
  edit_pool pool s =
      (expect (λ e. "error editing pool " <> pool.name <> ": " <> e)
            (f5.modify_pool pool.name (record {
              name = pool.name;
              monitor = pool.monitor;
              load_balancing_mode = (self s).lbmethod;
            }))
          >> pure pool)
        s

  unfoldable pub delete_pool : Pool → Action S (Unit {0})
  delete_pool pool =
      expect (λ e. "error deleting pool " <> pool.name <> ": " <> e) (f5.delete_pool pool.name)

  abbrev filled : Pool → Outcome (List PoolMember) → Outcome (Option Pool)
  filled pool (ok members) = ok (some (record pool { members = members }))
  filled pool (err e) = err e
  filled pool panic = panic

  abbrev with_members : Pool → Option (List MemberData) → Action S (Option Pool)
  with_members pool none = crash
  with_members pool (some ds) = settle (filled pool (read_members ds))

  unfoldable pub get_pool_members : Pool → Action S (Option Pool)
  get_pool_members pool =
      query (λ e. "error getting F5 pool members: " <> e) (f5.pool_members pool.name)
      >>= with_members pool

  unfoldable pub put_node : PoolMember → Option NodeData → Action S (Unit {0})
  put_node m none =
      expect (λ e. "error creating node " <> m.node.host <> ": " <> e)
        (f5.create_node m.node.host m.node.host)
  put_node m (some n) =
      expect (λ e. "error modifying node " <> m.node.host <> ": " <> e)
        (f5.modify_node m.node.host (record { name = member_name m; address = m.node.host }))

  unfoldable pub create_pool_member : PoolMember → Pool → Action S (Unit {0})
  create_pool_member m pool = do
    query (λ e. e) (f5.get_node m.node.host) >>= put_node m
    expect (λ e. "error adding member " <> m.node.host <> " to pool " <> pool.name <> ": " <> e)
        (f5.add_pool_member pool.name (member_name m))

  unfoldable pub edit_pool_member : PoolMember → Pool → String → Action S (Unit {0})
  edit_pool_member m pool status =
      expect (λ e. "error editing member " <> m.node.host <> " in pool " <> pool.name <> ": " <> e)
        (f5.pool_member_status pool.name (member_name m) status)

  -- The pool is named with the partition, as in no other call.
  unfoldable pub delete_pool_member : PoolMember → Pool → Action S (Unit {0})
  delete_pool_member m pool s =
      expect
        (λ e. "error removing member " <> m.node.host <> " from pool " <> pool.name <> ": " <> e)
        (f5.delete_pool_member (partition s <> pool.name) (member_name m)) s

  abbrev pub found_server : String → Vip → Option ServerData → Action S (Option Vip)
  found_server partition v none = pure none
  found_server partition v (some d) = settle (read_vip f5.quote partition v d)

  unfoldable pub get_vip : Vip → Action S (Option Vip)
  get_vip v s =
      (query (λ e. "error getting F5 virtualserver " <> v.name <> ": " <> e)
            (f5.get_virtual_server v.name)
          >>= found_server (partition s) v)
        s

  unfoldable pub create_vip : Vip → Action S (Unit {0})
  create_vip v s =
      let config = server_config (partition s) v in
      expect (λ e. "error creating VIP " <> v.name <> ", " <> f5.print_server config <> ": " <> e)
        (f5.add_virtual_server config) s

  unfoldable pub edit_vip : Vip → Action S (Unit {0})
  edit_vip v s =
      expect (λ e. "error editing VIP " <> v.name <> ": " <> e)
        (f5.patch_virtual_server (partition s <> v.name) (server_config (partition s) v)) s

  unfoldable pub delete_vip : Vip → Action S (Unit {0})
  delete_vip v =
      expect (λ e. "error deleting VIP " <> v.name <> ": " <> e) (f5.delete_virtual_server v.name)

  -- The methods, with a given `Create`.
  unfoldable pub methods : (Provider → String → String → Action S (Unit {0})) → Backend S
  methods make = record {
    create = make;
    connect = connect;
    close = close;
    get_monitor = get_monitor;
    create_monitor = create_monitor;
    edit_monitor = edit_monitor;
    delete_monitor = delete_monitor;
    get_pool = get_pool;
    create_pool = create_pool;
    edit_pool = edit_pool;
    delete_pool = delete_pool;
    get_pool_members = get_pool_members;
    create_pool_member = create_pool_member;
    edit_pool_member = edit_pool_member;
    delete_pool_member = delete_pool_member;
    get_vip = get_vip;
    create_vip = create_vip;
    edit_vip = edit_vip;
    delete_vip = delete_vip;
  }

module _ {S : Type 0} (self : Cell S F5Provider) (f5 : BigIp S) where
  unfoldable pub f5_bigip : Backend S
  f5_bigip = methods self.get f5 (create self.set)

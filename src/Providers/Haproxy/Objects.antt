-- ===== src/Providers/Haproxy/Objects.antt =====
-- The pools, their members and the virtual servers of the HAProxy provider: backends, servers, and
-- frontends with their binds.
use lbconfig_operator.Base.{
  String, ◌<>◌, ℤ, pos, Bool, ◌||◌, Option, none, some, List, [], ◌∷◌, ◌==◌, string_eq,
  if◌then◌else◌, Outcome, ok, err, panic, Action, pure, ◌>>=◌, ◌>>◌,
}
use lbconfig_operator.Api.{Monitor, Pool, PoolMember, Vip}
use lbconfig_operator.Backend.{Backend}
use lbconfig_operator.Providers.{Cell, Reply}
use lbconfig_operator.Providers.Haproxy.{
  HaproxyProvider, BackendData, ServerData, FrontendData, BindData, DataPlane,
}
use lbconfig_operator.Providers.Haproxy.Session.{
  tx, close_error, abort, expect, look_up, create, connect, close, get_monitor, set_monitor,
  delete_monitor,
}

abbrev pub is_http : Monitor → Bool
is_http m = m.monitor_type == "http" || m.monitor_type == "https"

abbrev pub backend_data : HaproxyProvider → Pool → BackendData
backend_data p pool = record {
  name = pool.name;
  algorithm = p.lbmethod;
  mode = "tcp";
  adv_check = if is_http p.monitor then "httpchk" else "";
  httpchk_params =
      if is_http p.monitor then some (record { method = "GET"; uri = p.monitor.path }) else none;
}

-- The server that `CreatePoolMember` and `EditPoolMember` send.
abbrev pub server_data : HaproxyProvider → String → PoolMember → ServerData
server_data p maintenance m =
    let https = p.monitor.monitor_type == "https" in
    record {
      name = m.node.name;
      address = m.node.host;
      port = some m.port;
      check = "enabled";
      check_ssl = if https then "enabled" else "";
      verify = if https then "none" else "";
      maintenance = maintenance;
      inter = some (pos 1000);
      health_check_port = some p.monitor.port;
    }

-- The member that a server with a port stands for.
abbrev pub member_of : ServerData → ℤ → PoolMember
member_of d port = record {
  node = record { name = d.name; host = d.address; labels = none };
  port = port;
}

abbrev pub add_server : ServerData → Option ℤ → Option (List PoolMember) → Option (List PoolMember)
add_server d none rest = none
add_server d (some port) none = none
add_server d (some port) (some ms) = some (member_of d port ∷ ms)

-- The loop of `GetPoolMembers`. A server without a port is a nil dereference.
unfoldable pub read_servers : List ServerData → Option (List PoolMember)
read_servers [] = some []
read_servers (d ∷ ds) = add_server d d.port (read_servers ds)

module _ {S : Type 0} (self : Cell S HaproxyProvider) (dp : DataPlane S) where
  -- `GetPool` says of the monitor that it is "changed", so that the handler edits the pool.
  unfoldable pub get_pool : Pool → Action S (Option Pool)
  get_pool pool =
      look_up self dp "getBackendNotFound" (λ e. "error getting pool: " <> e)
        (λ s. dp.get_backend pool.name (tx self dp s))
      >>= λ found. pure (elim found [
        | none ↦ none
        | some d ↦ some (record { name = d.name; members = []; monitor = "changed" })
      ])

  unfoldable pub create_pool : Pool → Action S (Unit {0})
  create_pool pool =
      expect self dp (λ e. "error creating pool " <> pool.name <> ": " <> e)
        (λ s. dp.create_backend (backend_data (self.get s) pool) (tx self dp s))

  abbrev pub with_members : Pool → Option (List PoolMember) → S → Outcome (Option Pool) × S
  with_members pool none s = (panic, s)
  with_members pool (some ms) s = (ok (some (record pool { members = ms })), s)

  abbrev pub members_of : Pool → Option (Option (List ServerData)) → S → Outcome (Option Pool) × S
  members_of pool none s = (panic, s)
  members_of pool (some none) s = (ok none, s)
  members_of pool (some (some ds)) s = with_members pool (read_servers ds) s

  abbrev pub got_servers : Pool → Reply (Option (List ServerData)) × S → Outcome (Option Pool) × S
  got_servers pool (r, s) = elim r.error [
    | some e ↦ abort self dp ("error getting pool members: " <> e) s
    | none ↦ members_of pool r.value s
  ]

  unfoldable pub get_pool_members : Pool → Action S (Option Pool)
  unfolding read_servers
  get_pool_members pool s = got_servers pool (dp.get_servers pool.name (tx self dp s) s)

  unfoldable pub create_pool_member : PoolMember → Pool → Action S (Unit {0})
  create_pool_member m pool =
      expect self dp (λ e. "error creating pool member: " <> e)
        (λ s. dp.create_server pool.name (server_data (self.get s) "" m) (tx self dp s))

  unfoldable pub edit_pool_member : PoolMember → Pool → String → Action S (Unit {0})
  edit_pool_member m pool status =
      let maintenance = if status == "enable" then "disabled" else "enabled" in
      expect self dp (λ e. "error editing pool member: " <> e)
        (λ s.
          dp.replace_server pool.name m.node.name (server_data (self.get s) maintenance m)
            (tx self dp s))

  -- An error of a call that has made its own `CloseError` makes another.
  abbrev pub re_abort : {A : Type 0} → (String → String) → Outcome A × S → Outcome A × S
  re_abort text (ok a, s) = (ok a, s)
  re_abort text (err e, s) = abort self dp (text e.message) s
  re_abort text (panic, s) = (panic, s)

  -- The loop of `EditPool`; the caller's pool then has the members that were read.
  unfoldable pub enable_members : Pool → List PoolMember → Action S (Unit {0})
  unfolding edit_pool_member
  enable_members pool [] = pure tt
  enable_members pool (m ∷ ms) =
      (λ s.
        re_abort (λ e. "error editing pool(editing pool members) " <> pool.name <> ": " <> e)
          (edit_pool_member m pool "enable" s))
      >> enable_members pool ms

  -- On an error the pointer is nil, and the error's text takes its name.
  abbrev pub edit_members : Pool → Outcome (Option Pool) × S → Outcome Pool × S
  edit_members pool (err e, s) = (panic, close_error self dp s)
  edit_members pool (panic, s) = (panic, s)
  edit_members pool (ok none, s) = (ok pool, s)
  edit_members pool (ok (some p), s) = (enable_members p p.members >> pure p) s

  abbrev pub replaced : Pool → Reply (Unit {0}) × S → Outcome Pool × S
  replaced pool (r, s) = elim r.error [
    | some e ↦ abort self dp ("error editing pool(ERR) " <> pool.name <> ": " <> e) s
    | none ↦ elim r.value [
      | none ↦ (ok pool, s)
      | some _ ↦ edit_members pool (get_pool_members pool s)
    ]
  ]

  unfoldable pub edit_pool : Pool → Action S Pool
  unfolding get_pool_members enable_members
  edit_pool pool s =
      replaced pool (dp.replace_backend pool.name (backend_data (self.get s) pool) (tx self dp s) s)

  unfoldable pub delete_pool : Pool → Action S (Unit {0})
  delete_pool pool =
      expect self dp (λ e. "error deleting pool " <> pool.name <> ": " <> e)
        (λ s. dp.delete_backend pool.name (tx self dp s))

  unfoldable pub delete_pool_member : PoolMember → Pool → Action S (Unit {0})
  delete_pool_member m pool =
      expect self dp (λ e. "error deleting pool member: " <> e)
        (λ s. dp.delete_server pool.name m.node.name (tx self dp s))

  abbrev pub bound : Vip → FrontendData → Reply BindData × S → Outcome (Option Vip) × S
  bound v f (r, s) = elim r.error [
    | some e ↦ abort self dp ("error getting haproxy frontend bind " <> v.name <> ": " <> e) s
    | none ↦ elim r.value [
      | none ↦ (panic, s)
      | some b ↦ elim b.port [
        | none ↦ (panic, s)
        | some port ↦ (
          ok (
              some
                (record { name = f.name; pool = f.default_backend; ip = b.address; port = port })),
          s,
        )
      ]
    ]
  ]

  abbrev pub read_bind : Vip → Option FrontendData → Action S (Option Vip)
  read_bind v none s = (ok none, s)
  read_bind v (some f) s = bound v f (dp.get_bind v.name v.name (tx self dp s) s)

  unfoldable pub get_vip : Vip → Action S (Option Vip)
  get_vip v =
      look_up self dp "getFrontendNotFound"
        (λ e. "error getting haproxy frontend " <> v.name <> ": " <> e)
        (λ s. dp.get_frontend v.name (tx self dp s))
      >>= read_bind v

  abbrev bind_data : Vip → BindData
  bind_data v = record { name = v.name; address = v.ip; port = some v.port }

  unfoldable pub create_vip : Vip → Action S (Unit {0})
  create_vip v = do
    expect self dp (λ e. "error creating frontend: " <> e)
        (λ s.
          dp.create_frontend (record { name = v.name; mode = "tcp"; default_backend = v.pool })
            (tx self dp s))
    expect self dp (λ e. "error creating frontend bind: " <> e)
        (λ s. dp.create_bind v.name (bind_data v) (tx self dp s))

  -- The parameters name no frontend and no bind, and the mode is not that of `CreateVIP`.
  unfoldable pub edit_vip : Vip → Action S (Unit {0})
  edit_vip v = do
    expect self dp (λ e. "error editing frontend: " <> e)
        (λ s.
          dp.replace_frontend "" (record { name = v.name; mode = "http"; default_backend = "" })
            (tx self dp s))
    expect self dp (λ e. "error editing frontend bind: " <> e)
        (λ s. dp.replace_bind "" none (bind_data v) (tx self dp s))

  unfoldable pub delete_vip : Vip → Action S (Unit {0})
  delete_vip v =
      expect self dp (λ e. "error deleting VIP " <> v.name <> ": " <> e)
        (λ s. dp.delete_frontend v.name (tx self dp s))

  unfoldable pub haproxy : Backend S
  haproxy = record {
    create = create self dp;
    connect = connect self dp;
    close = close self dp;
    get_monitor = get_monitor self dp;
    create_monitor = set_monitor self dp;
    edit_monitor = set_monitor self dp;
    delete_monitor = delete_monitor self dp;
    get_pool = get_pool;
    create_pool = create_pool;
    edit_pool = edit_pool;
    delete_pool = delete_pool;
    get_pool_members = get_pool_members;
    create_pool_member = create_pool_member;
    edit_pool_member = edit_pool_member;
    delete_pool_member = delete_pool_member;
    get_vip = get_vip;
    create_vip = create_vip;
    edit_vip = edit_vip;
    delete_vip = delete_vip;
  }

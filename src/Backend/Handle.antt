-- ===== src/Backend/Handle.antt =====
-- The handlers of backend_controller.go: `HandleMonitors`, `HandlePool`, `HandleVIP`,
-- `HandleCleanup` and `ContainsMember`. Tracing and logging are left out.
use lbconfig_operator.Base.{
  ◌<>◌, pos, Bool, false, not, ◌&&◌, ◌||◌, Option, none, some, List, [], ◌∷◌, ◌==◌, string_eq,
  int_eq, if◌then◌else◌, Action, pure, crash, ◌>>=◌, ◌>>◌, wrap, ignore_error, for_each,
}
use lbconfig_operator.Api.{Monitor, Pool, PoolMember, Vip, ExternalLoadBalancer}
use lbconfig_operator.Backend.{Backend}

-- The test of `ContainsMember`: a member is its node's host with its port.
abbrev pub same_member : PoolMember → PoolMember → Bool
same_member a m = a.node.host == m.node.host && a.port == m.port

unfoldable pub contains_member : List PoolMember → PoolMember → Bool
contains_member [] m = false
contains_member (a ∷ arr) m = same_member a m || contains_member arr m

-- The members of the first list that the second lacks: the two loops of `HandlePool` that fill
-- `addMembers` and `delMembers`.
unfoldable pub missing : List PoolMember → List PoolMember → List PoolMember
unfolding contains_member
missing [] have = []
missing (m ∷ want) have =
    let rest = missing want have in if contains_member have m then rest else m ∷ rest

abbrev pub monitor_differs : Monitor → Monitor → Bool
monitor_differs want have =
    not (want.port == have.port)
    || not (want.path == have.path)
    || not (want.monitor_type == have.monitor_type)

abbrev pub vip_differs : Vip → Vip → Bool
vip_differs want have =
    not (want.port == have.port) || not (want.ip == have.ip) || not (want.pool == have.pool)

-- `lb.Status.Monitor != (lbv1.Monitor{})`
abbrev pub is_zero_monitor : Monitor → Bool
is_zero_monitor m = m.name == "" && m.path == "" && m.port == pos 0 && m.monitor_type == ""

module _ {S : Type 0} (b : Backend S) where
  open b use {
    get_monitor, create_monitor, edit_monitor, delete_monitor, get_pool, create_pool, edit_pool,
    delete_pool, get_pool_members, create_pool_member, delete_pool_member, get_vip, create_vip,
    edit_vip, delete_vip,
  }

  unfoldable pub update_monitor : Monitor → Option Monitor → Action S (Unit {0})
  update_monitor monitor none = create_monitor monitor
  update_monitor monitor (some m) =
      if monitor_differs monitor m then edit_monitor monitor else pure tt

  unfoldable pub handle_monitors : Monitor → Action S (Unit {0})
  unfolding update_monitor
  handle_monitors monitor =
      wrap (λ e. "error getting monitor: " <> e) (get_monitor monitor) >>= update_monitor monitor

  -- `EditPool` is called if the monitor differs, and the pool is what the pointer then holds.
  unfoldable pub update_pool_monitor : Pool → Pool → Action S Pool
  update_pool_monitor pool configured =
      if pool.monitor == configured.monitor then pure pool else edit_pool pool

  -- The members to add and to delete are computed before `EditPool` is called.
  unfoldable pub update_pool : Pool → Option Pool → Action S Pool
  unfolding missing update_pool_monitor for_each
  update_pool pool none = crash
  update_pool pool (some configured) = do
    let add = missing pool.members configured.members
    let del = missing configured.members pool.members
    pool' ← update_pool_monitor pool configured
    for_each (λ m. create_pool_member m pool') add
    for_each (λ m. delete_pool_member m pool') del
    pure pool'

  unfoldable pub make_pool : Pool → Action S Pool
  unfolding for_each
  make_pool pool = do
    create_pool pool
    for_each (λ m. create_pool_member m pool) pool.members
    pure pool

  -- The result is the caller's pool after the call.
  unfoldable pub handle_found_pool : Pool → Option Pool → Action S Pool
  unfolding update_pool make_pool
  handle_found_pool pool none = make_pool pool
  handle_found_pool pool (some p) = get_pool_members p >>= update_pool pool

  unfoldable pub handle_pool : Pool → Action S Pool
  unfolding handle_found_pool
  handle_pool pool = get_pool pool >>= handle_found_pool pool

  unfoldable pub update_vip : Vip → Option Vip → Action S (Unit {0})
  update_vip v none = create_vip v
  update_vip v (some vs) = if vip_differs v vs then edit_vip v else pure tt

  unfoldable pub handle_vip : Vip → Action S (Unit {0})
  unfolding update_vip
  handle_vip v = get_vip v >>= update_vip v

  -- The four stages of `HandleCleanup`. An error on a pool member is only logged.
  unfoldable pub cleanup_vips : List Vip → Action S (Unit {0})
  unfolding for_each
  cleanup_vips =
      for_each λ v. wrap (λ e. "error in VIP cleanup " <> v.name <> ": " <> e) (delete_vip v)

  unfoldable pub cleanup_members : List Pool → Action S (Unit {0})
  unfolding for_each
  cleanup_members = for_each λ p. for_each (λ m. ignore_error (delete_pool_member m p)) p.members

  unfoldable pub cleanup_pools : List Pool → Action S (Unit {0})
  unfolding for_each
  cleanup_pools =
      for_each λ p. wrap (λ e. "error in pool cleanup " <> p.name <> ": " <> e) (delete_pool p)

  unfoldable pub cleanup_monitor : Monitor → Action S (Unit {0})
  cleanup_monitor m =
      if is_zero_monitor m
      then pure tt
      else wrap (λ e. "error in monitor cleanup " <> m.name <> ": " <> e) (delete_monitor m)

  unfoldable pub handle_cleanup : ExternalLoadBalancer → Action S (Unit {0})
  handle_cleanup lb = do
    cleanup_vips lb.status.vips
    cleanup_members lb.status.pools
    cleanup_pools lb.status.pools
    cleanup_monitor lb.status.monitor

-- ===== src/Examples/OnHaproxy.antt =====
-- The HAProxy provider over a data plane in memory that has one backend.
use text.Mathlib.TextEquality.{eq_iff}
use lbconfig_operator.Backend.Handle.{handle_monitors}
use lbconfig_operator.Providers.Haproxy.Monitored.{handle_monitors-haproxy}
use lbconfig_operator.Base.{
  ◌≢◌, arith, String, pos, ◌≡◌, refl, true, false, Bool, none, some, List, [], ◌∷◌, ◌++◌, ok, pure,
  if◌then◌else◌, string_eq,
}
use lbconfig_operator.Api.{PoolMember}
use lbconfig_operator.Providers.{Cell, Reply}
use lbconfig_operator.Providers.Haproxy.{HaproxyProvider, ServerData, DataPlane}
use lbconfig_operator.Providers.Haproxy.Objects.{
  haproxy, read_servers, get_pool_members, create_pool_member,
}
use lbconfig_operator.Providers.Haproxy.Aborts.{Aborts, haproxy-Aborts}
use lbconfig_operator.Providers.Haproxy.Servers.{
  ServerLaws, serves, get_pool_members-create_pool_member,
}
use lbconfig_operator.Examples.Sample.{host_node, member_at, monitor, new_pool, vip}

-- The provider's object, the servers of the backend, and whether they can be read.
record World : Type 0 where
  object : HaproxyProvider
  servers : List ServerData
  readable : Bool

abbrev object_cell : Cell World HaproxyProvider
object_cell = record {
  get = λ w. w.object;
  set = λ p w. record w { object = p };
  get-set = λ p w. refl;
}

abbrev answer : {A : Type 0} → A → World → Reply A × World
answer a w = (record { value = some a; error = none }, w)

abbrev unknown : {A : Type 0} → String → World → Reply A × World
unknown e w = (record { value = none; error = some e }, w)

abbrev plane : DataPlane World
plane = record {
  create = λ host port user password validate debug. pure tt;
  get_sites = answer (pos 1);
  start_transaction = λ version. answer "transaction";
  commit_transaction = λ t force. answer tt;
  delete_transaction = λ t. answer tt;
  get_backend = λ k t. unknown "getBackendNotFound";
  create_backend = λ d t. answer tt;
  replace_backend = λ k d t. answer tt;
  delete_backend = λ k t. answer tt;
  get_servers = λ k t w. if w.readable then answer (some w.servers) w else unknown "no answer" w;
  create_server = λ k d t w. answer tt (record w { servers = w.servers ++ d ∷ [] });
  replace_server = λ k n d t. answer tt;
  delete_server = λ k n t. answer tt;
  get_frontend = λ k t. unknown "getFrontendNotFound";
  create_frontend = λ d t. answer tt;
  replace_frontend = λ k d t. answer tt;
  delete_frontend = λ k t. answer tt;
  get_bind = λ k f t. unknown "getBindNotFound";
  create_bind = λ f d t. answer tt;
  replace_bind = λ k f d t. answer tt;
}

abbrev server : ServerData
server = record {
  name = "node3";
  address = "10.0.0.3";
  port = some (pos 80);
  check = "enabled";
  check_ssl = "";
  verify = "";
  maintenance = "";
  inter = some (pos 1000);
  health_check_port = some (pos 1936);
}

abbrev world : Bool → World
world readable = record {
  object = record {
    host = "https://10.0.0.6";
    hostport = pos 5555;
    username = "admin";
    password = "pw";
    transaction = "transaction";
    version = pos 1;
    monitor = monitor;
    lbmethod = "roundrobin";
  };
  servers = server ∷ [];
  readable = readable;
}

-- A client that can read its servers.
abbrev readable_plane : DataPlane World
readable_plane = record plane { get_servers = λ k t w. answer (some w.servers) w }

plane-ServerLaws : ServerLaws object_cell readable_plane (λ k w. w.servers)
plane-ServerLaws = record {
  get_servers = λ k t s. refl;
  create_error = λ k t d s h. refl;
  create_server = λ k t d s h. refl;
}

abbrev third : PoolMember
third = record { node = host_node "node3" "10.0.0.3"; port = pos 80 }

read_one : read_servers (server ∷ []) ≡ some (third ∷ [])
unfolding read_servers
read_one = refl

unused : serves (server ∷ []) "node" ≡ false
unfolding string_eq
unused = refl

get_pool_members-create_pool_member_example :
    let t =
      (create_pool_member object_cell readable_plane
        (member_at "10.0.0.1")
        new_pool
        (world true)).1 in
    ((create_pool_member object_cell readable_plane (member_at "10.0.0.1") new_pool (world true)).0
      ≡ ok tt)
    × (get_pool_members object_cell readable_plane new_pool t
        ≡ (ok (some (record new_pool { members = third ∷ member_at "10.0.0.1" ∷ [] })), t))
get_pool_members-create_pool_member_example =
    get_pool_members-create_pool_member object_cell readable_plane (λ k w. w.servers)
      plane-ServerLaws new_pool (member_at "10.0.0.1") (third ∷ []) (world true) read_one unused

haproxy-Aborts_example :
    let b = haproxy object_cell plane in
    Aborts object_cell plane b.close
    × (Aborts object_cell plane (b.get_pool new_pool)
        × Aborts object_cell plane (b.create_pool new_pool)
        × Aborts object_cell plane (b.edit_pool new_pool)
        × Aborts object_cell plane (b.delete_pool new_pool))
    × (Aborts object_cell plane (b.get_pool_members new_pool)
        × Aborts object_cell plane (b.create_pool_member (member_at "10.0.0.1") new_pool)
        × Aborts object_cell plane (b.edit_pool_member (member_at "10.0.0.1") new_pool "enable")
        × Aborts object_cell plane (b.delete_pool_member (member_at "10.0.0.1") new_pool))
    × (Aborts object_cell plane (b.get_vip vip)
        × Aborts object_cell plane (b.create_vip vip)
        × Aborts object_cell plane (b.edit_vip vip)
        × Aborts object_cell plane (b.delete_vip vip))
haproxy-Aborts_example =
    haproxy-Aborts object_cell plane new_pool (member_at "10.0.0.1") vip "enable"

path_there : monitor.path ≢ ""
unfolding string_eq
path_there h = ground (arith, eq_iff "/healthz" "")

handle_monitors-haproxy_example :
    let r = handle_monitors (haproxy object_cell plane) monitor (world true) in
    (r ≡ (
      ok tt,
      object_cell.set (record (object_cell.get (world true)) { monitor = monitor }) (world true),
    ))
    × ((object_cell.get r.1).monitor ≡ monitor)
handle_monitors-haproxy_example =
    handle_monitors-haproxy object_cell plane monitor (world true) path_there

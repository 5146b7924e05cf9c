-- ===== src/Examples/OnHaproxyPools.antt =====
-- `HandlePool` over the HAProxy provider: a pool that gets a member and loses one, and one in which a
-- node has a new address.
use lbconfig_operator.Base.{
  String, pos, ◌≡◌, refl, List, [], ◌∷◌, string_eq, int_eq, ok, err, Error, inl, ◌==◌,
  if◌then◌else◌,
}
use lbconfig_operator.Api.{Pool, PoolMember}
use lbconfig_operator.Backend.Handle.{contains_member, missing, handle_pool}
use lbconfig_operator.Backend.Members.{NodupMembers}
use lbconfig_operator.Providers.Haproxy.Objects.{haproxy}
use lbconfig_operator.Providers.Haproxy.Names.{NodupNames, AllFresh, AnyUsed}
use lbconfig_operator.Providers.Haproxy.Pools.{handle_pool-haproxy, handle_pool-clash}
use lbconfig_operator.Examples.DataPlaneMemory.{
  Entry, Ledger, object_cell, plane, members, plane-Book,
}
use lbconfig_operator.Examples.Sample.{host_node, monitor}

abbrev named : String → String → PoolMember
named name host = record { node = host_node name host; port = pos 80 }

abbrev pool_of : List PoolMember → Pool
pool_of ms = record { name = "Pool-web-80"; members = ms; monitor = "Monitor-web" }

abbrev entry : String → String → Entry
entry name address = record { name = name; address = address; port = pos 80 }

abbrev ledger : Ledger
ledger = record {
  object = record {
    host = "https://10.0.0.6";
    hostport = pos 5555;
    username = "admin";
    password = "pw";
    transaction = "transaction";
    version = pos 1;
    monitor = monitor;
    lbmethod = "roundrobin";
  };
  entries = λ k.
      if k == "Pool-web-80" then entry "node2" "10.0.0.2" ∷ entry "node3" "10.0.0.3" ∷ [] else [];
}

-- The third node is gone, and a first one is new.
abbrev wanted : Pool
wanted = pool_of (named "node1" "10.0.0.1" ∷ named "node2" "10.0.0.2" ∷ [])

wanted-Nodup : NodupMembers wanted.members
unfolding contains_member string_eq int_eq
wanted-Nodup = (refl, (refl, tt))

names : NodupNames (members "Pool-web-80" ledger)
unfolding string_eq
names = (refl, (refl, tt))

hosts : NodupMembers (members "Pool-web-80" ledger)
unfolding contains_member string_eq int_eq
hosts = (refl, (refl, tt))

fresh :
    AllFresh (missing wanted.members (members "Pool-web-80" ledger)) (members "Pool-web-80" ledger)
unfolding missing contains_member string_eq int_eq
fresh = (refl, refl, tt)

handle_pool-haproxy_example :
    (x : Pool) × (t : Ledger) × (handle_pool (haproxy object_cell plane) wanted ledger ≡ (ok x, t))
    × ((m : PoolMember)
        → contains_member (members "Pool-web-80" t) m ≡ contains_member wanted.members m)
handle_pool-haproxy_example =
    handle_pool-haproxy object_cell plane members plane-Book wanted ledger wanted-Nodup names hosts
      fresh

-- The second node has a new address.
abbrev moved : Pool
moved = pool_of (named "node2" "10.0.0.9" ∷ named "node3" "10.0.0.3" ∷ [])

clash :
    AnyUsed (missing moved.members (members "Pool-web-80" ledger)) (members "Pool-web-80" ledger)
unfolding missing contains_member string_eq int_eq
clash = inl refl

handle_pool-clash_example :
    (e : Error) × ((handle_pool (haproxy object_cell plane) moved ledger).0 ≡ err e)
handle_pool-clash_example =
    handle_pool-clash object_cell plane members plane-Book moved ledger clash

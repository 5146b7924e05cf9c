-- ===== src/Providers/F5/Appliance.antt =====
-- What f5_controller.go relies on from BIG-IP's pools, as hypotheses on the client and on the load
-- balancer behind it. An object that is named without a folder is in the folder `home`, and BIG-IP
-- answers a monitor and a member's path with it.
use mathlib.Core.Option
use lbconfig_operator.Base.{
  String, ◌<>◌, ℤ, Bool, true, false, ◌&&◌, ◌||◌, Option, none, some, List, [], ◌∷◌, ◌++◌, map, ◌≡◌,
  ◌==◌, string_eq, int_eq, itoa, if◌then◌else◌,
}
use lbconfig_operator.Base.Decimal.{fits_int}
use lbconfig_operator.Base.Text.{has_char}
use lbconfig_operator.Api.{Monitor, Vip}
use lbconfig_operator.Backend.Device.{put}
use lbconfig_operator.Providers.{Call}
use lbconfig_operator.Providers.F5.{BigIp, PoolData, MemberData, NodeData}

-- A member's address has no colon, which BIG-IP puts in front of its port.
pub record Member : Type 0 where
  pub host : String
  pub port : ℤ
  pub plain : has_char host ":" ≡ false
  pub narrow : fits_int port ≡ true

abbrev pub is_at : String → ℤ → Member → Bool
is_at host port m = m.host == host && m.port == port

unfoldable pub has_member : List Member → String → ℤ → Bool
has_member [] host port = false
has_member (m ∷ ms) host port = is_at host port m || has_member ms host port

unfoldable pub drop_member : String → ℤ → List Member → List Member
drop_member host port [] = []
drop_member host port (m ∷ ms) =
    let rest = drop_member host port ms in if is_at host port m then rest else m ∷ rest

pub record AppliancePool : Type 0 where
  pub monitor : String
  pub load_balancing_mode : String
  pub members : List Member

pub record Appliance : Type 0 where
  pub monitors : String → Option Monitor
  pub pools : String → Option AppliancePool
  pub vips : String → Option Vip
  pub nodes : String → Option NodeData

abbrev pub name_at : String → ℤ → String
name_at host port = host <> ":" <> itoa port

abbrev pub member_data : String → Member → MemberData
member_data home m = record {
  name = name_at m.host m.port;
  address = m.host;
  full_path = home <> name_at m.host m.port;
}

abbrev pub qualified : String → String → String
qualified home monitor = if monitor == "" then "" else home <> monitor

abbrev pub pool_data : String → String → AppliancePool → PoolData
pool_data home k a = record {
  name = k;
  monitor = qualified home a.monitor;
  load_balancing_mode = a.load_balancing_mode;
}

-- A field that is left empty is not sent.
abbrev pub or_kept : String → String → String
or_kept sent kept = if sent == "" then kept else sent

abbrev pub modified : PoolData → AppliancePool → AppliancePool
modified c a = record a {
  monitor = or_kept c.monitor a.monitor;
  load_balancing_mode = or_kept c.load_balancing_mode a.load_balancing_mode;
}

abbrev pub with_pool : Appliance → String → Option AppliancePool → Appliance
with_pool a k v = record a { pools = put a.pools k v }

abbrev pub with_node : Appliance → String → NodeData → Appliance
with_node a k v = record a { nodes = put a.nodes k (some v) }

abbrev pub new_pool : AppliancePool
new_pool = record { monitor = ""; load_balancing_mode = "round-robin"; members = [] }

module _ {S : Type 0} (home : String) (big : S → Appliance) where
  -- The call has no error, answers `v` and leaves the load balancer `a`.
  pub record Answers {A : Type 0} (call : Call S A) (s : S) (v : Option A) (a : Appliance)
      : Type 0 where
    pub value : (call s).0.value ≡ v
    pub error : (call s).0.error ≡ none
    pub leaves : big (call s).1 ≡ a

  -- The call has no error and leaves the load balancer `a`.
  pub record Writes (call : Call S (Unit {0})) (s : S) (a : Appliance) : Type 0 where
    pub error : (call s).0.error ≡ none
    pub leaves : big (call s).1 ≡ a

  pub record BigIpLaws (f5 : BigIp S) : Type 0 where
    pub get_pool :
        (k : String) (s : S)
        → Answers (f5.get_pool k) s (Option.map (pool_data home k) ((big s).pools k)) (big s)
    pub create_pool :
        (k : String) (s : S)
        → (big s).pools k ≡ none
        → Writes (f5.create_pool k) s (with_pool (big s) k (some new_pool))
    pub add_monitor_to_pool :
        (m k : String) (a : AppliancePool) (s : S)
        → (big s).pools k ≡ some a
        → Writes
            (f5.add_monitor_to_pool m k)
            s
            (with_pool (big s) k (some (record a { monitor = m })))
    pub modify_pool :
        (k : String) (c : PoolData) (a : AppliancePool) (s : S)
        → (big s).pools k ≡ some a
        → Writes (f5.modify_pool k c) s (with_pool (big s) k (some (modified c a)))
    pub delete_pool :
        (k : String) (a : AppliancePool) (s : S)
        → (big s).pools k ≡ some a
        → Writes (f5.delete_pool k) s (with_pool (big s) k none)
    pub pool_members :
        (k : String) (a : AppliancePool) (s : S)
        → (big s).pools k ≡ some a
        → Answers (f5.pool_members k) s (some (map (member_data home) a.members)) (big s)
    pub get_node : (k : String) (s : S) → Answers (f5.get_node k) s ((big s).nodes k) (big s)
    pub create_node :
        (k : String) (s : S)
        → (big s).nodes k ≡ none
        → Writes (f5.create_node k k) s (with_node (big s) k (record { name = k; address = k }))
    -- Whatever a change makes of a node.
    pub changed : NodeData → NodeData → NodeData
    pub modify_node :
        (k : String) (c n : NodeData) (s : S)
        → (big s).nodes k ≡ some n
        → Writes (f5.modify_node k c) s (with_node (big s) k (changed c n))
    pub add_pool_member :
        (k : String) (m : Member) (a : AppliancePool) (n : NodeData) (s : S)
        → (big s).pools k ≡ some a
        → (big s).nodes m.host ≡ some n
        → has_member a.members m.host m.port ≡ false
        → Writes
            (f5.add_pool_member k (name_at m.host m.port))
            s
            (with_pool (big s) k (some (record a { members = a.members ++ m ∷ [] })))
    pub delete_pool_member :
        (k host : String) (port : ℤ) (a : AppliancePool) (s : S)
        → (big s).pools k ≡ some a
        → has_member a.members host port ≡ true
        → Writes
            (f5.delete_pool_member (home <> k) (name_at host port))
            s
            (with_pool (big s) k (some (record a { members = drop_member host port a.members })))

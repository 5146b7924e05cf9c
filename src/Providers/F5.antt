-- ===== src/Providers/F5.antt =====
-- internal/controller/backend/f5/f5_controller.go: the provider's object, and the calls of the
-- BIG-IP client that it makes. The client and its load balancer are a parameter; logging is left
-- out. The client's records keep the fields that the provider sets or reads.
pub mod Config
pub mod Calls
pub mod Methods
pub mod RoundTrips
pub mod Appliance
pub mod View
pub mod Runs
pub mod MemberWrites
pub mod Refines
pub mod Synced
pub mod Trimmed
pub mod Servers
pub mod Objects
pub mod Lawful
pub mod Provides
use lbconfig_operator.Base.{String, ℤ, Bool, Option, List, [], ◌∷◌}
use lbconfig_operator.Base.Dict.{Dict}
use lbconfig_operator.Providers.{Call}

pub record F5Provider : Type 0 where
  pub host : String
  pub hostport : ℤ
  pub username : String
  pub password : String
  pub partition : String
  pub validatecerts : Bool
  pub lbmethod : String

abbrev pub lb_method_map : Dict String
lb_method_map =
    ("ROUNDROBIN", "round-robin")
    ∷ ("LEASTCONNECTION", "least-connections-member")
    ∷ ("LEASTRESPONSETIME", "fastest-app-response")
    ∷ []

-- `bigip.Monitor`, `bigip.Pool`, `bigip.PoolMember`, `bigip.Node`, `bigip.VirtualServer` with its
-- address translation, and `bigip.Profile`.
pub record MonitorData : Type 0 where
  pub name : String
  pub parent_monitor : String
  pub interval : ℤ
  pub timeout : ℤ
  pub send_string : String
  pub receive_string : String
  pub destination : String

pub record PoolData : Type 0 where
  pub name : String
  pub monitor : String
  pub load_balancing_mode : String

pub record MemberData : Type 0 where
  pub name : String
  pub address : String
  pub full_path : String

pub record NodeData : Type 0 where
  pub name : String
  pub address : String

pub record TranslationData : Type 0 where
  pub type : String
  pub pool : String

pub record ProfileData : Type 0 where
  pub name : String
  pub full_path : String
  pub partition : String
  pub context : String

pub record ServerData : Type 0 where
  pub name : String
  pub partition : String
  pub destination : String
  pub pool : String
  pub source_address_translation : TranslationData
  pub profiles : List ProfileData

-- The client, and what the provider uses of `net/url`, `strconv` and `fmt` beyond the model.
pub record BigIp (S : Type 0) : Type 0 where
  -- The host of a parsed URL; `none` for a text that is no URL.
  pub url_host : String → Option String
  -- `strconv.Quote`, and the virtual server as `%+v` prints it.
  pub quote : String → String
  pub print_server : ServerData → String
  -- From the address, the user and the password. It does not contact the load balancer.
  pub new_session : String → String → String → S → S
  pub get_monitor : String → String → Call S MonitorData
  pub add_monitor : MonitorData → String → Call S (Unit {0})
  pub patch_monitor : String → String → MonitorData → Call S (Unit {0})
  pub delete_monitor : String → String → Call S (Unit {0})
  pub get_pool : String → Call S PoolData
  pub create_pool : String → Call S (Unit {0})
  -- The monitor comes first.
  pub add_monitor_to_pool : String → String → Call S (Unit {0})
  pub modify_pool : String → PoolData → Call S (Unit {0})
  pub delete_pool : String → Call S (Unit {0})
  pub pool_members : String → Call S (List MemberData)
  pub add_pool_member : String → String → Call S (Unit {0})
  pub pool_member_status : String → String → String → Call S (Unit {0})
  pub delete_pool_member : String → String → Call S (Unit {0})
  pub get_node : String → Call S NodeData
  pub modify_node : String → NodeData → Call S (Unit {0})
  pub create_node : String → String → Call S (Unit {0})
  pub get_virtual_server : String → Call S ServerData
  pub add_virtual_server : ServerData → Call S (Unit {0})
  pub patch_virtual_server : String → ServerData → Call S (Unit {0})
  pub delete_virtual_server : String → Call S (Unit {0})

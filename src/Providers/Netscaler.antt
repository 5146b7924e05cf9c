-- ===== src/Providers/Netscaler.antt =====
-- internal/controller/backend/netscaler/netscaler_controller.go: the provider's object, and the
-- calls of the Nitro client that it makes. The client and its load balancer are a parameter;
-- logging is left out. The client's records keep the fields that the provider sets.
pub mod Config
pub mod Calls
pub mod Methods
pub mod Answers
pub mod Laws
use lbconfig_operator.Base.{String, ℤ, Bool, Option, List}
use lbconfig_operator.Base.Dict.{Dict}
use lbconfig_operator.Providers.{Call}

pub record NetscalerProvider : Type 0 where
  pub host : String
  pub hostport : ℤ
  pub username : String
  pub password : String
  pub validatecerts : Bool
  pub lbmethod : String

-- The client's answers are maps of values of any type. A map in a list of maps holds no further
-- list that the provider reads. Numbers are whole, as ports are.
pub data Scalar : Type 0 where
  text : String → Scalar
  number : ℤ → Scalar
  null : Scalar
  other : Scalar

pub data Row : Type 0 where
  fields : Dict Scalar → Row
  not_a_map : Row

pub data Field : Type 0 where
  scalar : Scalar → Field
  rows : List Row → Field

pub data ResourceType : Type 0 where
  lbmonitor : ResourceType
  servicegroup : ResourceType
  servicegroup_binding : ResourceType
  servicegroup_servicegroupmember_binding : ResourceType
  server : ResourceType
  lbvserver : ResourceType
  lbvserver_servicegroup_binding : ResourceType

pub record MonitorData : Type 0 where
  pub monitorname : String
  pub type : String
  pub interval : ℤ
  pub downtime : ℤ
  pub httprequest : String
  pub destport : Option ℤ
  pub secure : String
  pub sslprofile : String

pub record ServiceGroup : Type 0 where
  pub servicegroupname : String
  pub servicetype : String

pub record GroupMonitor : Type 0 where
  pub servicegroupname : String
  pub monitorname : String

pub record ServerData : Type 0 where
  pub name : String
  pub ipaddress : String

pub record GroupMember : Type 0 where
  pub servicegroupname : String
  pub servername : String
  pub port : ℤ

pub record VserverData : Type 0 where
  pub name : String
  pub ipv46 : String
  pub port : ℤ
  pub servicetype : String
  pub lbmethod : String

pub record VserverGroup : Type 0 where
  pub servicegroupname : String
  pub name : String

-- What the provider gives to `AddResource` and `BindResource`.
pub data Payload : Type 0 where
  a_monitor : MonitorData → Payload
  a_group : ServiceGroup → Payload
  a_group_monitor : GroupMonitor → Payload
  a_server : ServerData → Payload
  a_group_member : GroupMember → Payload
  a_vserver : VserverData → Payload
  a_vserver_group : VserverGroup → Payload

pub record NitroParams : Type 0 where
  pub url : String
  pub username : String
  pub password : String
  pub ssl_verify : Bool
  pub log_level : String

-- The name that `AddResource` returns, and the text of its error, or nil.
pub record Added : Type 0 where
  pub name : String
  pub error : Option String

-- The client, and what the provider uses of `net/url` and `fmt` beyond the model.
pub record Nitro (S : Type 0) : Type 0 where
  -- The scheme and the host of a parsed URL; `none` for a text that is no URL.
  pub parse_url : String → Option (String × String)
  -- The virtual server as `%+v` prints it.
  pub print_vserver : VserverData → String
  pub new_client : NitroParams → Call S (Unit {0})
  pub find_resource : ResourceType → String → Call S (Dict Field)
  pub add_resource : ResourceType → String → Payload → S → Added × S
  -- The type and the name of the bound-to resource, then of the bound one.
  pub bind_resource : ResourceType → String → ResourceType → String → Payload → Call S (Unit {0})
  pub delete_resource : ResourceType → String → Call S (Unit {0})
  pub delete_resource_with_args : ResourceType → String → List String → Call S (Unit {0})
  pub save_config : Call S (Unit {0})

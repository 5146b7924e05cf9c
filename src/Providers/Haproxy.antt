-- ===== src/Providers/Haproxy.antt =====
-- internal/controller/backend/haproxy/haproxy_controller.go: the provider's object, and the calls
-- of the data plane client that it makes. The client and its server are a parameter; logging is
-- left out. The models keep the fields that the provider sets or reads.
pub mod Session
pub mod Objects
pub mod Aborts
pub mod Servers
pub mod Monitored
pub mod Transaction
pub mod Atomic
pub mod Names
pub mod Book
pub mod Pools
use Prim.Native.Nat.{compare, Ordering}
use Prim.Native.String.{len, find}
use lbconfig_operator.Base.{String, ℤ, Bool, true, false, Option, List, [], ◌∷◌, Action}
use lbconfig_operator.Base.Dict.{Dict}
use lbconfig_operator.Api.{Monitor}
use lbconfig_operator.Providers.{Call}

pub record HaproxyProvider : Type 0 where
  pub host : String
  pub hostport : ℤ
  pub username : String
  pub password : String
  pub transaction : String
  pub version : ℤ
  pub monitor : Monitor
  pub lbmethod : String

abbrev pub lb_method_map : Dict String
lb_method_map =
    ("ROUNDROBIN", "roundrobin")
    ∷ ("LEASTCONNECTION", "leastconn")
    ∷ ("LEASTRESPONSETIME", "roundrobin")
    ∷ ("SOURCEIPHASH", "source")
    ∷ []

-- `models.HttpchkParams`, `models.Backend`, `models.Server`, `models.Frontend` and `models.Bind`.
pub record HttpchkParams : Type 0 where
  pub method : String
  pub uri : String

pub record BackendData : Type 0 where
  pub name : String
  pub algorithm : String
  pub mode : String
  pub adv_check : String
  pub httpchk_params : Option HttpchkParams

pub record ServerData : Type 0 where
  pub name : String
  pub address : String
  pub port : Option ℤ
  pub check : String
  pub check_ssl : String
  pub verify : String
  pub maintenance : String
  pub inter : Option ℤ
  pub health_check_port : Option ℤ

pub record FrontendData : Type 0 where
  pub name : String
  pub mode : String
  pub default_backend : String

pub record BindData : Type 0 where
  pub name : String
  pub address : String
  pub port : Option ℤ

-- The client. The text after a name is the transaction.
pub record DataPlane (S : Type 0) : Type 0 where
  -- From the host, the port, the credentials, the validation of certificates and the debug flag. A
  -- host that is no URL is a nil dereference.
  pub create : String → ℤ → String → String → Bool → Bool → Action S (Unit {0})
  pub get_sites : Call S ℤ
  pub start_transaction : ℤ → Call S String
  pub commit_transaction : String → Bool → Call S (Unit {0})
  pub delete_transaction : String → Call S (Unit {0})
  pub get_backend : String → String → Call S BackendData
  pub create_backend : BackendData → String → Call S (Unit {0})
  pub replace_backend : String → BackendData → String → Call S (Unit {0})
  pub delete_backend : String → String → Call S (Unit {0})
  -- The payload's list may be nil.
  pub get_servers : String → String → Call S (Option (List ServerData))
  pub create_server : String → ServerData → String → Call S (Unit {0})
  pub replace_server : String → String → ServerData → String → Call S (Unit {0})
  pub delete_server : String → String → String → Call S (Unit {0})
  pub get_frontend : String → String → Call S FrontendData
  pub create_frontend : FrontendData → String → Call S (Unit {0})
  -- The name of the frontend comes first.
  pub replace_frontend : String → FrontendData → String → Call S (Unit {0})
  pub delete_frontend : String → String → Call S (Unit {0})
  -- The bind and its frontend.
  pub get_bind : String → String → String → Call S BindData
  pub create_bind : String → BindData → String → Call S (Unit {0})
  -- The bind's name, its frontend, which may be nil, and the data.
  pub replace_bind : String → Option String → BindData → String → Call S (Unit {0})

-- `strings.Contains`
abbrev pub has_text : String → String → Bool
has_text s t = elim (compare (find s t) (len s)) [ Ordering.gt ↦ false | _ ↦ true ]

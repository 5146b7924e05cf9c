-- ===== src/Api.antt =====
-- api/v1/externalloadbalancer_types.go: the custom resource and the internal types of the
-- controller. A Go map is an association list under `Option`, where `none` is the nil map; a
-- `nil` slice is the empty list. Of the object's metadata the fields are kept that the code reads.
use lbconfig_operator.Base.{String, ℕ, ℤ, Bool, Option, List}

-- `map[string]string`
abbrev pub Labels : Type 0
Labels = List (String × String)

pub record Monitor : Type 0 where
  pub name : String
  pub path : String
  pub port : ℤ
  pub monitor_type : String

pub record Provider : Type 0 where
  pub vendor : String
  pub host : String
  pub port : ℤ
  pub creds : String
  pub partition : String
  pub validate_certs : Bool
  pub debug : Bool
  pub lb_method : String

pub record Node : Type 0 where
  pub name : String
  pub host : String
  pub labels : Option Labels

pub record PoolMember : Type 0 where
  pub node : Node
  pub port : ℤ

pub record Pool : Type 0 where
  pub name : String
  pub members : List PoolMember
  pub monitor : String

pub record Vip : Type 0 where
  pub name : String
  pub pool : String
  pub ip : String
  pub port : ℤ

pub record ExternalLoadBalancerSpec : Type 0 where
  pub vip : String
  pub type : String
  pub node_labels : Option Labels
  pub ports : List ℤ
  pub monitor : Monitor
  pub provider : Provider

pub record ExternalLoadBalancerStatus : Type 0 where
  pub vips : List Vip
  pub ports : List ℤ
  pub monitor : Monitor
  pub nodes : List Node
  pub pools : List Pool
  pub provider : Provider
  pub labels : Option Labels
  pub num_nodes : ℕ

pub record ExternalLoadBalancer : Type 0 where
  pub name : String
  pub namespace : String
  pub finalizers : List String
  -- `GetDeletionTimestamp() != nil`
  pub deleting : Bool
  pub spec : ExternalLoadBalancerSpec
  pub status : ExternalLoadBalancerStatus

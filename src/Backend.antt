-- ===== src/Backend.antt =====
-- internal/controller/backend/backend_controller/backend_controller.go: the `Provider` interface
-- that each vendor implements, over the world `S` that its calls change. The handlers are in the
-- child modules.
pub mod Handle
pub mod Members
pub mod MemberSync
pub mod Device
pub mod PoolWrites
pub mod Converge
pub mod Loops
pub mod Stages
pub mod Cleanup
pub mod Deletes
pub mod Idle
pub mod Single
pub mod Again
use lbconfig_operator.Base.{String, Option, Action}
use lbconfig_operator.Api.{Provider, Monitor, Pool, PoolMember, Vip}

-- A call that is given a pointer to a pool may write to the pool: `get_pool_members` returns the
-- pool that it was given with its members filled in, and `edit_pool` returns the pool as it stands
-- after the call, since HAProxy's overwrites the members of the caller's pool.
pub record Backend (S : Type 0) : Type 0 where
  pub create : Provider → String → String → Action S (Unit {0})
  pub connect : Action S (Unit {0})
  pub close : Action S (Unit {0})
  pub get_monitor : Monitor → Action S (Option Monitor)
  pub create_monitor : Monitor → Action S (Unit {0})
  pub edit_monitor : Monitor → Action S (Unit {0})
  pub delete_monitor : Monitor → Action S (Unit {0})
  pub get_pool : Pool → Action S (Option Pool)
  pub create_pool : Pool → Action S (Unit {0})
  pub edit_pool : Pool → Action S Pool
  pub delete_pool : Pool → Action S (Unit {0})
  pub get_pool_members : Pool → Action S (Option Pool)
  pub create_pool_member : PoolMember → Pool → Action S (Unit {0})
  pub edit_pool_member : PoolMember → Pool → String → Action S (Unit {0})
  pub delete_pool_member : PoolMember → Pool → Action S (Unit {0})
  pub get_vip : Vip → Action S (Option Vip)
  pub create_vip : Vip → Action S (Unit {0})
  pub edit_vip : Vip → Action S (Unit {0})
  pub delete_vip : Vip → Action S (Unit {0})

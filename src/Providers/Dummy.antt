-- ===== src/Providers/Dummy.antt =====
-- internal/controller/backend/dummy/dummy_controller.go: the provider without a device. Its calls
-- log and return; logging is left out.
pub mod Laws
use lbconfig_operator.Base.{String, pos, ℤ, Option, none, some, Action, pure}
use lbconfig_operator.Api.{Monitor, Provider}
use lbconfig_operator.Backend.{Backend}
use lbconfig_operator.Providers.{Cell}

pub record DummyProvider : Type 0 where
  pub host : String
  pub hostport : ℤ
  pub username : String
  pub password : String

module _ {S : Type 0} (self : Cell S DummyProvider) where
  -- `Create` ends with `Connect`, which only logs.
  abbrev create : Provider → String → String → Action S (Unit {0})
  create lb_backend username password s = pure tt (
      self.set
        (record {
          host = lb_backend.host;
          hostport = lb_backend.port;
          username = username;
          password = password;
        })
        s)

  abbrev dummy_monitor : Monitor
  dummy_monitor = record {
    name = "MonitorName";
    monitor_type = "http";
    path = "/";
    port = pos 1234;
  }

  unfoldable pub dummy : Backend S
  dummy = record {
    create = create;
    connect = pure tt;
    close = pure tt;
    get_monitor = λ monitor. pure (some dummy_monitor);
    create_monitor = λ m. pure tt;
    edit_monitor = λ m. pure tt;
    delete_monitor = λ m. pure tt;
    get_pool = λ pool. pure none;
    create_pool = λ pool. pure tt;
    edit_pool = λ pool. pure pool;
    delete_pool = λ pool. pure tt;
    get_pool_members = λ pool. pure none;
    create_pool_member = λ m pool. pure tt;
    edit_pool_member = λ m pool status. pure tt;
    delete_pool_member = λ m pool. pure tt;
    get_vip = λ v. pure none;
    create_vip = λ v. pure tt;
    edit_vip = λ v. pure tt;
    delete_vip = λ v. pure tt;
  }

-- ===== src/Providers/Netscaler/Laws.antt =====
-- What netscaler_controller.go does in the handlers, and where it panics.
use lbconfig_operator.Base.{
  List, map, String, Bool, true, false, ◌||◌, if◌then◌else◌, Option, none, some, ◌≡◌, refl, ◌==◌,
  string_eq, int_eq, ok, arith, not, pure, Action,
}
use lbconfig_operator.Base.Dict.{Dict, lookup}
use lbconfig_operator.Base.Text.{starts_outside}
use lbconfig_operator.Api.{Monitor, Pool, PoolMember, Vip}
use lbconfig_operator.Backend.Handle.{
  handle_monitors, handle_vip, update_monitor, monitor_differs, vip_differs,
}
use lbconfig_operator.Providers.{Cell}
use lbconfig_operator.Providers.Netscaler.{
  rows, NetscalerProvider, Field, Nitro, lbmonitor, servicegroup_binding, lbvserver,
  lbvserver_servicegroup_binding,
}
use lbconfig_operator.Providers.Netscaler.Config.{read_members, monitor_config, vserver_config}
use lbconfig_operator.Providers.Netscaler.Methods.{
  get_monitor, edit_monitor, get_pool_members, get_vip, citrix_adc,
}
use lbconfig_operator.Providers.Netscaler.Calls.{find, find_or_fail}
use lbconfig_operator.Providers.Netscaler.Answers.{
  row, read_member, read_rows-row, monitor_answer, read_type, vserver_answer,
  read_monitor-monitor_answer, read_vip-vserver_config,
}

differs_self : (v : Vip) → vip_differs v v ≡ false
differs_self v = ground arith

differs_read :
    (m : Monitor)
    → monitor_differs m (record m { monitor_type = read_type m.monitor_type })
      ≡ not (m.monitor_type == "https" || m.monitor_type == "HTTP")
differs_read m = ground arith

swapped :
    {S : Type 0} (b : Bool) (m : Action S (Unit {0})) (t : S)
    → (if not b then m else pure tt) t ≡ (if b then (ok tt, t) else m t)
swapped true m t = refl
swapped false m t = refl

module _ {S : Type 0} (self : Cell S NetscalerProvider) (client : Nitro S) where
  -- For a monitor whose path does not begin with a character of "GET ", on a Netscaler that has it as
  -- the provider configured it, `HandleMonitors` makes no change if the type is "https" or "HTTP", and edits the monitor, on every run, if it is another.
  pub handle_monitors-citrix_adc :
      (m : Monitor) (e : Option String) (s t : S)
      → starts_outside "GET " m.path ≡ true
      → client.find_resource lbmonitor m.name s
        ≡ (record { value = some (monitor_answer (monitor_config m)); error = e }, t)
      → handle_monitors (citrix_adc self client) m s ≡ (
          if m.monitor_type == "https" || m.monitor_type == "HTTP"
          then (ok tt, t)
          else edit_monitor self client m t)
  unfolding handle_monitors update_monitor citrix_adc get_monitor find
  handle_monitors-citrix_adc m e s t path got =
      rw (got, read_monitor-monitor_answer m path, differs_read m)
        (swapped (m.monitor_type == "https" || m.monitor_type == "HTTP")
          (edit_monitor self client m) t)

  -- For a Netscaler that has the virtual server's name, address and port, and whose binding is read
  -- without an error, `HandleVIP` makes no change, whatever pool is bound.
  pub handle_vip-citrix_adc :
      (v : Vip) (lbmethod : String) (e : Option String) (binding : Option (Dict Field)) (s t u : S)
      → client.find_resource lbvserver v.name s
        ≡ (record { value = some (vserver_answer (vserver_config lbmethod v)); error = e }, t)
      → client.find_resource lbvserver_servicegroup_binding v.name t
        ≡ (record { value = binding; error = none }, u)
      → handle_vip (citrix_adc self client) v s ≡ (ok tt, u)
  unfolding handle_vip citrix_adc get_vip find
  handle_vip-citrix_adc v lbmethod e binding s t u got bound =
      rw (got, read_vip-vserver_config lbmethod v, bound, differs_self v) refl

  -- For a pool whose binding has members, `GetPoolMembers` returns the pool with exactly these, each
  -- with its host and its port and named by both.
  pub get_pool_members-citrix_adc :
      (pool : Pool) (ms : List PoolMember) (binding : Dict Field) (s t : S)
      → client.find_resource servicegroup_binding pool.name s
        ≡ (record { value = some binding; error = none }, t)
      → lookup "servicegroup_servicegroupmember_binding" binding ≡ some (rows (map row ms))
      → get_pool_members self client pool s
        ≡ (ok (some (record pool { members = map read_member ms })), t)
  unfolding get_pool_members find_or_fail read_members
  get_pool_members-citrix_adc pool ms binding s t bound members =
      rw (bound, members, read_rows-row ms) refl

-- ===== src/Backend/Idle.antt =====
-- The handlers of backend_controller.go when the provider reports what is wanted.
use lbconfig_operator.Base.{◌≡◌, sym, some, arith, string_eq, int_eq, ok}
use lbconfig_operator.Api.{Monitor, Pool, PoolMember, Vip}
use lbconfig_operator.Backend.{Backend}
use lbconfig_operator.Backend.Handle.{
  contains_member, handle_monitors, handle_found_pool, handle_pool, handle_vip,
}
use lbconfig_operator.Backend.MemberSync.{missing-eq-nil}

module _ {S : Type 0} (b : Backend S) where
  -- If the provider reports the monitor's port, path and type, `HandleMonitors` makes no other call.
  pub handle_monitors_idle :
      (m have : Monitor) (s t : S)
      → b.get_monitor m s ≡ (ok (some have), t)
      → have.port ≡ m.port
      → have.path ≡ m.path
      → have.monitor_type ≡ m.monitor_type
      → handle_monitors b m s ≡ (ok tt, t)
  unfolding handle_monitors
  handle_monitors_idle m have s t got p q r = ground arith

  -- If the provider reports the VIP's port, address and pool, `HandleVIP` makes no other call.
  pub handle_vip_idle :
      (v have : Vip) (s t : S)
      → b.get_vip v s ≡ (ok (some have), t)
      → have.port ≡ v.port
      → have.ip ≡ v.ip
      → have.pool ≡ v.pool
      → handle_vip b v s ≡ (ok tt, t)
  unfolding handle_vip
  handle_vip_idle v have s t got p q r = ground arith

  -- If the provider reports the pool's monitor and the same members by host and port, `HandlePool`
  -- makes the two reads and no other call, and leaves the caller's pool alone.
  pub handle_pool_idle :
      (p q have : Pool) (s t u : S)
      → b.get_pool p s ≡ (ok (some q), t)
      → b.get_pool_members q t ≡ (ok (some have), u)
      → p.monitor ≡ have.monitor
      → ((m : PoolMember) → contains_member have.members m ≡ contains_member p.members m)
      → handle_pool b p s ≡ (ok p, u)
  unfolding handle_pool
  handle_pool_idle p q have s t u got members same_monitor same =
      rw (got, handle_found_pool)
        (rw members (
          rw
            (
              missing-eq-nil p.members have.members (λ m. sym (same m)),
              missing-eq-nil have.members p.members same,
            )
            (ground arith)))

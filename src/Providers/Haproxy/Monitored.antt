-- ===== src/Providers/Haproxy/Monitored.antt =====
-- `HandleMonitors` over the HAProxy provider, which has no monitors of its own: it remembers the
-- last one for the backends and servers that it writes.
use lbconfig_operator.Base.{pos, ◌≡◌, ◌≢◌, refl, ap, true, ok, arith, string_eq, int_eq}
use lbconfig_operator.Api.{Monitor}
use lbconfig_operator.Backend.Handle.{monitor_differs, update_monitor, handle_monitors}
use lbconfig_operator.Providers.{Cell}
use lbconfig_operator.Providers.Haproxy.{HaproxyProvider, DataPlane}
use lbconfig_operator.Providers.Haproxy.Session.{get_monitor, set_monitor}
use lbconfig_operator.Providers.Haproxy.Objects.{haproxy}

abbrev empty_monitor : Monitor
empty_monitor = record { name = ""; path = ""; port = pos 0; monitor_type = "" }

differs_from_empty : (m : Monitor) → m.path ≢ "" → monitor_differs m empty_monitor ≡ true
differs_from_empty m h = ground (arith, h)

module _ {S : Type 0} (self : Cell S HaproxyProvider) (dp : DataPlane S) where
  -- For a monitor whose path is not empty, which the API demands, `HandleMonitors` over the HAProxy
  -- provider succeeds without a call of the client, and the provider then has this monitor for the
  -- pools and the members that it writes, whatever monitor it had before.
  pub handle_monitors-haproxy :
      (m : Monitor) (s : S)
      → m.path ≢ ""
      → let r = handle_monitors (haproxy self dp) m s in
        (r ≡ (ok tt, self.set (record (self.get s) { monitor = m }) s))
        × ((self.get r.1).monitor ≡ m)
  unfolding handle_monitors update_monitor haproxy get_monitor set_monitor
  handle_monitors-haproxy m s h =
      rw (differs_from_empty m h)
        (refl, ap (λ p. p.monitor) (self.get-set (record (self.get s) { monitor = m }) s))

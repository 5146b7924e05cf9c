-- ===== src/Backend/Single.antt =====
-- `HandleMonitors` and `HandleVIP` of backend_controller.go on a lawful device.
use lbconfig_operator.Base.{
  String, ◌<>◌, ◌≡◌, refl, sym, ap, fun_ext, true, false, Option, none, some, arith, string_eq,
  int_eq, wrap, Bool-cases, inl, inr,
}
use lbconfig_operator.Api.{Monitor, Vip}
use lbconfig_operator.Backend.{Backend}
use lbconfig_operator.Backend.Handle.{
  monitor_differs, vip_differs, update_monitor, update_vip, handle_monitors, handle_vip,
}
use lbconfig_operator.Backend.Device.{
  Device, SameMonitor, SameVip, Does, Does-bind, Does-cast, Does-wrap, MonitorLaws, VipLaws,
  put_monitor, put_vip,
}

put_monitor_self :
    (d : Device) (k : String) (v : Option Monitor) → d.monitors k ≡ v → put_monitor d k v ≡ d
put_monitor_self d k v h = ap (λ f. record d { monitors = f }) (fun_ext λ j. ground (arith, h))

put_vip_self : (d : Device) (k : String) (v : Option Vip) → d.vips k ≡ v → put_vip d k v ≡ d
put_vip_self d k v h = ap (λ f. record d { vips = f }) (fun_ext λ j. ground (arith, h))

monitor_differs_same : (m have : Monitor) → monitor_differs m have ≡ false → SameMonitor have m
monitor_differs_same m have e = ground arith

vip_differs_same : (v have : Vip) → vip_differs v have ≡ false → SameVip have v
vip_differs_same v have e = ground arith

module _ {S : Type 0} (view : S → Device) (b : Backend S) where
  update_monitor-Does :
      (laws : MonitorLaws view b) (m : Monitor) (t : S) (o : Option Monitor)
      → (view t).monitors m.name ≡ o
      → laws.suits o m ≡ true
      → (found : Monitor) × SameMonitor found m
        × Does view (update_monitor b m o) t tt (put_monitor (view t) m.name (some found))
  unfolding update_monitor
  update_monitor-Does laws m t none h fit = (m, (refl, refl, refl), laws.create_monitor m t h fit)
  update_monitor-Does laws m t (some have) h fit = elim (Bool-cases (monitor_differs m have)) [
    | inl e ↦ (m, (refl, refl, refl), rw e (laws.edit_monitor m have t h fit))
    | inr e ↦ (
      have,
      monitor_differs_same m have e,
      rw e (record {
        returns = refl;
        leaves = sym (put_monitor_self (view t) m.name (some have) h);
      }),
    )
  ]

  -- On a device that obeys the laws, if the provider can bring what it has under the monitor's name
  -- to what is asked for, `HandleMonitors` succeeds; the device then holds a monitor with the port,
  -- path and type that were asked for under that name, and is otherwise what it was.
  pub handle_monitors-Does :
      (laws : MonitorLaws view b) (m : Monitor) (s : S)
      → laws.suits ((view s).monitors m.name) m ≡ true
      → (found : Monitor) × SameMonitor found m
        × Does view (handle_monitors b m) s tt (put_monitor (view s) m.name (some found))
  unfolding handle_monitors
  handle_monitors-Does laws m s fit =
      let read = wrap (λ e. "error getting monitor: " <> e) (b.get_monitor m) in
      let got = Does-wrap view _ (b.get_monitor m) s (laws.get_monitor m s fit) in
      let t = (read s).1 in
      let o = (view s).monitors m.name in
      let (found, same, done) =
        update_monitor-Does laws m t o (ap (λ d. d.monitors m.name) got.leaves) fit in
      (
        found,
        same,
        Does-bind view read _ s got
            (Does-cast view _ t (ap (λ d. put_monitor d m.name (some found)) got.leaves) done),
      )

  update_vip-Does :
      (laws : VipLaws view b) (v : Vip) (t : S) (o : Option Vip)
      → (view t).vips v.name ≡ o
      → laws.suits o v ≡ true
      → (found : Vip) × SameVip found v
        × Does view (update_vip b v o) t tt (put_vip (view t) v.name (some found))
  unfolding update_vip
  update_vip-Does laws v t none h fit = (v, (refl, refl, refl), laws.create_vip v t h fit)
  update_vip-Does laws v t (some have) h fit = elim (Bool-cases (vip_differs v have)) [
    | inl e ↦ (v, (refl, refl, refl), rw e (laws.edit_vip v have t h fit))
    | inr e ↦ (
      have,
      vip_differs_same v have e,
      rw e (record { returns = refl; leaves = sym (put_vip_self (view t) v.name (some have) h) }),
    )
  ]

  -- On a device that obeys the laws, if the provider can bring what it has under the VIP's name to
  -- what is asked for, `HandleVIP` succeeds; the device then holds a virtual server with the port,
  -- address and pool that were asked for under that name, and is otherwise what it was.
  pub handle_vip-Does :
      (laws : VipLaws view b) (v : Vip) (s : S)
      → laws.suits ((view s).vips v.name) v ≡ true
      → (found : Vip) × SameVip found v
        × Does view (handle_vip b v) s tt (put_vip (view s) v.name (some found))
  unfolding handle_vip
  handle_vip-Does laws v s fit =
      let got = laws.get_vip v s fit in
      let t = (b.get_vip v s).1 in
      let o = (view s).vips v.name in
      let (found, same, done) =
        update_vip-Does laws v t o (ap (λ d. d.vips v.name) got.leaves) fit in
      (
        found,
        same,
        Does-bind view _ _ s got
            (Does-cast view _ t (ap (λ d. put_vip d v.name (some found)) got.leaves) done),
      )

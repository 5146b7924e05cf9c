-- ===== src/Providers/F5/Lawful.antt =====
-- The provider of f5_controller.go obeys the handlers' laws on monitors and virtual servers, on a
-- BIG-IP that obeys its own.
use mathlib.Core.Option
use lbconfig_operator.Base.{
  String, ◌<>◌, ℤ, pos, true, false, Bool, ◌&&◌, Option, none, some, ◌≡◌, refl, sym, ap, subst, ◌∙◌,
  ◌==◌, string_eq, int_eq, arith, ok, Action, Option-cases, inl, inr,
}
use lbconfig_operator.Base.Text.{has_char, starts_outside, ends_outside}
use lbconfig_operator.Base.Decimal.{fits_int}
use lbconfig_operator.Api.{Provider, Monitor, Vip}
use lbconfig_operator.Backend.{Backend}
use lbconfig_operator.Backend.Device.{
  Device, Does, MonitorLaws, VipLaws, SameMonitor, SameVip, put_monitor,
}
use lbconfig_operator.Providers.F5.{F5Provider, BigIp}
use lbconfig_operator.Providers.F5.Config.{
  folder, monitor_config, read_monitor, server_config, read_vip,
}
use lbconfig_operator.Providers.F5.Calls.{query}
use lbconfig_operator.Providers.F5.Methods.{
  methods, found_server, get_monitor, create_monitor, edit_monitor, delete_monitor, get_vip,
  create_vip, edit_vip, delete_vip,
}
use lbconfig_operator.Providers.F5.RoundTrips.{read_monitor-monitor_config, read_vip-server_config}
use lbconfig_operator.Providers.F5.Appliance.{Appliance, BigIpLaws, Answers, Writes}
use lbconfig_operator.Providers.F5.Objects.{
  ObjectLaws, reads_monitor, reads_vip, with_vip, with_monitor,
}
use lbconfig_operator.Providers.F5.Runs.{Runs, Runs-Does, Runs-bind, Runs-query, Runs-expect}
use lbconfig_operator.Providers.F5.Servers.{located}
use lbconfig_operator.Providers.F5.View.{device_of}

-- An edit does not send the port, and a monitor is found under its type.
abbrev pub suits_monitor : Option Monitor → Monitor → Bool
suits_monitor none m = reads_monitor m
suits_monitor (some w) m =
    reads_monitor m && reads_monitor w && w.port == m.port && w.monitor_type == m.monitor_type

-- The pool of a virtual server is not read.
abbrev pub suits_vip : String → Option Vip → Vip → Bool
suits_vip home none v = reads_vip home v
suits_vip home (some w) v = reads_vip home v && reads_vip home w && w.pool == v.pool

suits_monitor_fresh :
    (o : Option Monitor) (m : Monitor) → suits_monitor o m ≡ true → suits_monitor none m ≡ true
suits_monitor_fresh none m h = h
suits_monitor_fresh (some w) m h = ground arith

suits_vip_fresh :
    (home : String) (o : Option Vip) (v : Vip)
    → suits_vip home o v ≡ true
    → suits_vip home none v ≡ true
suits_vip_fresh home none v h = h
suits_vip_fresh home (some w) v h = ground arith

suits_monitor_same :
    (w m : Monitor)
    → suits_monitor none m ≡ true
    → SameMonitor w m
    → suits_monitor (some w) m ≡ true
suits_monitor_same w m h (port, path, type) = rw (port, path, type) (ground arith)

suits_vip_same :
    (home : String) (w v : Vip)
    → suits_vip home none v ≡ true
    → SameVip w v
    → suits_vip home (some w) v ≡ true
suits_vip_same home w v h (port, ip, pool) = rw (port, ip, pool) (ground arith)

module _ (quote : String → String) (partition : String)
    (slashless : has_char partition "/" ≡ false) where
  reads_back :
      (m : Monitor)
      → reads_monitor m ≡ true
      → read_monitor quote (monitor_config (folder partition) m) ≡ ok (some m)
  reads_back m h =
      let kind : has_char m.monitor_type "/" ≡ false = ground arith in
      let port : m.port == pos 0 ≡ false = ground arith in
      let narrow : fits_int m.port ≡ true = ground arith in
      let path : starts_outside "GET " m.path ≡ true = ground arith in
      read_monitor-monitor_config quote partition m slashless kind port narrow path

reads_vip_back :
    (quote : String → String) (home : String) (v w : Vip)
    → has_char home ":" ≡ false
    → suits_vip home (some w) v ≡ true
    → read_vip quote home v (located home (server_config home w)) ≡ ok (some w)
unfolding read_vip
reads_vip_back quote home v w colonless h =
    let plain : has_char w.ip ":" ≡ false = ground arith in
    let narrow : fits_int w.port ≡ true = ground arith in
    let starts : starts_outside home w.ip ≡ true = ground arith in
    let ends : ends_outside home w.ip ≡ true = ground arith in
    let pool : v.pool ≡ w.pool = ground arith in
    let u : Vip = record w { pool = v.pool } in
    read_vip-server_config quote home u colonless plain narrow starts ends
    ∙ ap {A = String} (λ p. ok (some (record w { pool = p }))) pool

module _ {S : Type 0} (partition : String) (slashless : has_char partition "/" ≡ false)
    (colonless : has_char (folder partition) ":" ≡ false) (big : S → Appliance)
    (self : S → F5Provider) (at_home : (s : S) → (self s).partition ≡ folder partition)
    (f5 : BigIp S) (laws : BigIpLaws (folder partition) big f5)
    (objects : ObjectLaws (folder partition) big f5)
    (make : Provider → String → String → Action S (Unit {0})) where
  abbrev home : String
  home = folder partition

  abbrev provider : Backend S
  provider = methods self f5 make

  abbrev view : S → Device
  view s = device_of home (big s)

  wrote :
      (m : Action S (Unit {0})) (s : S) (a : Appliance) (d : Device)
      → Runs big (m s) tt a
      → device_of home a ≡ d
      → Does view m s tt d
  wrote m s a d h e = Runs-Does big home m s h refl e

  refine_get_monitor :
      (m : Monitor) (s : S)
      → suits_monitor ((view s).monitors m.name) m ≡ true
      → Does view (provider.get_monitor m) s ((view s).monitors m.name) (view s)
  unfolding methods get_monitor
  refine_get_monitor m s fit = elim (Option-cases ((big s).monitors m.name)) [
    | inl gone ↦
        let asked =
          Runs-query big home _ (f5.get_monitor m.name m.monitor_type) s
            (objects.get_monitor_none m.name m.monitor_type s gone) in
        Runs-Does big home (provider.get_monitor m) s
          (Runs-bind big (query _ (f5.get_monitor m.name m.monitor_type)) _ s asked
            (record { returns = refl; leaves = asked.leaves }))
          (sym gone) refl
    | inr (w, there) ↦
        let kept : suits_monitor (some w) m ≡ true =
          subst (λ o. suits_monitor o m ≡ true) there fit in
        let kind : w.monitor_type ≡ m.monitor_type = ground arith in
        let read : reads_monitor w ≡ true = ground arith in
        let asked =
          Runs-query big home (λ e. "error getting F5 Monitor " <> m.name <> ": " <> e)
            (f5.get_monitor m.name m.monitor_type) s
            (subst
              (λ k.
                Answers home big (f5.get_monitor m.name k) s (some (monitor_config home w)) (big s))
              kind (objects.get_monitor m.name w s there)) in
        Runs-Does big home (provider.get_monitor m) s
          (Runs-bind big (query _ (f5.get_monitor m.name m.monitor_type)) _ s asked (record {
            returns = reads_back f5.quote partition slashless w read;
            leaves = asked.leaves;
          }))
          (sym there) refl
  ]

  refine_get_vip :
      (v : Vip) (s : S)
      → suits_vip home ((view s).vips v.name) v ≡ true
      → Does view (provider.get_vip v) s ((view s).vips v.name) (view s)
  unfolding methods get_vip
  refine_get_vip v s fit =
      let text : String → String = λ e. "error getting F5 virtualserver " <> v.name <> ": " <> e in
      let asked =
        Runs-query big home text (f5.get_virtual_server v.name) s
          (objects.get_virtual_server v.name s) in
      let runs : Runs big (provider.get_vip v s) ((big s).vips v.name) (big s) = rw (at_home s) (
        Runs-bind big (query text (f5.get_virtual_server v.name)) (found_server self f5 home v) s
          asked
          (found ((big s).vips v.name) fit (query text (f5.get_virtual_server v.name) s).1
            asked.leaves)) in
      Runs-Does big home (provider.get_vip v) s runs refl refl
    where
      found :
          (o : Option Vip)
          → suits_vip home o v ≡ true
          → (t : S) → big t ≡ big s
          → Runs big
              (found_server self f5 home v
                (Option.map (λ w. located home (server_config home w)) o)
                t)
              o
              (big s)
      found none h t same = record { returns = refl; leaves = same }
      found (some w) h t same = record {
        returns = reads_vip_back f5.quote home v w colonless h;
        leaves = same;
      }

  pub monitor_laws : MonitorLaws view provider
  unfolding methods create_monitor edit_monitor delete_monitor
  monitor_laws = record {
    suits = suits_monitor;
    suits_fresh = suits_monitor_fresh;
    suits_same = suits_monitor_same;
    get_monitor = refine_get_monitor;
    create_monitor = λ m s gone fit.
        wrote (provider.create_monitor m) s (with_monitor (big s) m.name (some m)) _
          (rw (at_home s) (Runs-expect big home _ _ s (objects.add_monitor m s gone fit))) refl;
    edit_monitor = λ m old s there fit.
        let kind : old.monitor_type ≡ m.monitor_type = ground arith in
        let port : old.port ≡ m.port = ground arith in
        let sent =
          objects.patch_monitor m old s there kind (suits_monitor_fresh (some old) m fit) in
        wrote (provider.edit_monitor m) s
          (with_monitor (big s) m.name (some (record m { port = old.port }))) _
          (rw (at_home s) (Runs-expect big home _ _ s sent))
          (ap {A = ℤ} (λ p. put_monitor (view s) m.name (some (record m { port = p }))) port);
    delete_monitor = λ m old s there fit.
        let kind : old.monitor_type ≡ m.monitor_type = ground arith in
        wrote (provider.delete_monitor m) s (with_monitor (big s) m.name none) _
          (Runs-expect big home _ (f5.delete_monitor m.name m.monitor_type) s (
            subst
              (λ k.
                Writes home big (f5.delete_monitor m.name k) s (with_monitor (big s) m.name none))
              kind (objects.delete_monitor m.name old s there)))
          refl;
  }

  pub vip_laws : VipLaws view provider
  unfolding methods create_vip edit_vip delete_vip
  vip_laws = record {
    suits = suits_vip home;
    suits_fresh = suits_vip_fresh home;
    suits_same = suits_vip_same home;
    get_vip = refine_get_vip;
    create_vip = λ v s gone fit.
        wrote (provider.create_vip v) s (with_vip (big s) v.name (some v)) _
          (rw (at_home s) (Runs-expect big home _ _ s (objects.add_virtual_server v s gone fit)))
          refl;
    edit_vip = λ v old s there fit.
        let sent =
          objects.patch_virtual_server v old s there (suits_vip_fresh home (some old) v fit) in
        wrote (provider.edit_vip v) s (with_vip (big s) v.name (some v)) _
          (rw (at_home s) (Runs-expect big home _ _ s sent)) refl;
    delete_vip = λ v old s there.
        wrote (provider.delete_vip v) s (with_vip (big s) v.name none) _
          (Runs-expect big home _ _ s (objects.delete_virtual_server v.name old s there)) refl;
  }

  pub monitor_laws-suits : monitor_laws.suits ≡ suits_monitor
  unfolding monitor_laws
  monitor_laws-suits = refl

  pub vip_laws-suits : vip_laws.suits ≡ suits_vip home
  unfolding vip_laws
  vip_laws-suits = refl

-- ===== src/Providers/F5/Objects.antt =====
-- What f5_controller.go relies on from BIG-IP's monitors and virtual servers, as hypotheses on the
-- client and on the load balancer behind it. They are kept as the provider configures them, and a
-- monitor is asked for with its type.
use mathlib.Core.Option
use lbconfig_operator.Base.{
  String, ◌<>◌, ℤ, pos, Bool, true, not, ◌&&◌, Option, none, some, List, ◌≡◌, ◌==◌, string_eq,
  int_eq,
}
use lbconfig_operator.Base.Decimal.{fits_int}
use lbconfig_operator.Base.Text.{has_char, starts_outside, ends_outside}
use lbconfig_operator.Api.{Monitor, Vip}
use lbconfig_operator.Backend.Device.{put}
use lbconfig_operator.Providers.F5.{BigIp}
use lbconfig_operator.Providers.F5.Config.{base_monitor, monitor_config, server_config}
use lbconfig_operator.Providers.F5.Appliance.{
  Member, AppliancePool, Appliance, Answers, Writes, name_at, with_pool,
}
use lbconfig_operator.Providers.F5.Servers.{located}

abbrev pub with_monitor : Appliance → String → Option Monitor → Appliance
with_monitor a k v = record a { monitors = put a.monitors k v }

abbrev pub with_vip : Appliance → String → Option Vip → Appliance
with_vip a k v = record a { vips = put a.vips k v }

-- The monitors that the provider reads back as it wrote them.
abbrev pub reads_monitor : Monitor → Bool
reads_monitor m =
    not (has_char m.monitor_type "/")
    && not (m.port == pos 0)
    && fits_int m.port
    && starts_outside "GET " m.path

-- The virtual servers that it reads back.
abbrev pub reads_vip : String → Vip → Bool
reads_vip home v =
    not (has_char v.ip ":") && fits_int v.port && starts_outside home v.ip && ends_outside home v.ip

module _ {S : Type 0} (home : String) (big : S → Appliance) where
  pub record ObjectLaws (f5 : BigIp S) : Type 0 where
    pub new_session :
        (host user password : String) (s : S) → big (f5.new_session host user password s) ≡ big s
    pub get_monitor_none :
        (k kind : String) (s : S)
        → (big s).monitors k ≡ none
        → Answers home big (f5.get_monitor k kind) s none (big s)
    pub get_monitor :
        (k : String) (m : Monitor) (s : S)
        → (big s).monitors k ≡ some m
        → Answers home big
            (f5.get_monitor k m.monitor_type)
            s
            (some (monitor_config home m))
            (big s)
    pub add_monitor :
        (m : Monitor) (s : S)
        → (big s).monitors m.name ≡ none
        → reads_monitor m ≡ true
        → Writes home big
            (f5.add_monitor (monitor_config home m) m.monitor_type)
            s
            (with_monitor (big s) m.name (some m))
    -- No port is sent, and the port stays.
    pub patch_monitor :
        (m old : Monitor) (s : S)
        → (big s).monitors m.name ≡ some old
        → old.monitor_type ≡ m.monitor_type
        → reads_monitor m ≡ true
        → Writes home big
            (f5.patch_monitor m.name m.monitor_type (base_monitor home m))
            s
            (with_monitor (big s) m.name (some (record m { port = old.port })))
    pub delete_monitor :
        (k : String) (old : Monitor) (s : S)
        → (big s).monitors k ≡ some old
        → Writes home big (f5.delete_monitor k old.monitor_type) s (with_monitor (big s) k none)
    pub get_virtual_server :
        (k : String) (s : S)
        → Answers home big
            (f5.get_virtual_server k)
            s
            (Option.map (λ v. located home (server_config home v)) ((big s).vips k))
            (big s)
    pub add_virtual_server :
        (v : Vip) (s : S)
        → (big s).vips v.name ≡ none
        → reads_vip home v ≡ true
        → Writes home big
            (f5.add_virtual_server (server_config home v))
            s
            (with_vip (big s) v.name (some v))
    pub patch_virtual_server :
        (v old : Vip) (s : S)
        → (big s).vips v.name ≡ some old
        → reads_vip home v ≡ true
        → Writes home big
            (f5.patch_virtual_server (home <> v.name) (server_config home v))
            s
            (with_vip (big s) v.name (some v))
    pub delete_virtual_server :
        (k : String) (old : Vip) (s : S)
        → (big s).vips k ≡ some old
        → Writes home big (f5.delete_virtual_server k) s (with_vip (big s) k none)
    -- A deletion of a member, also one that fails, touches the members of its pool only.
    pub left : String → String → ℤ → S → List Member
    pub delete_frame :
        (k host : String) (port : ℤ) (s : S)
        → big (f5.delete_pool_member (home <> k) (name_at host port) s).1
          ≡ with_pool (big s) k (
              Option.map {A = AppliancePool}
                (λ a. record a { members = left k host port s })
                ((big s).pools k))

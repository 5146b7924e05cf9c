-- ===== src/Examples/BigIpWhole.antt =====
-- A BIG-IP in memory with its monitors and virtual servers, with all the laws that f5_controller.go
-- relies on.
use mathlib.Core.Option
use lbconfig_operator.Base.{
  String, pos, ◌==◌, true, false, Option, none, some, ◌≡◌, refl, subst, string_eq, int_eq, arith,
  Outcome, ok, err, panic,
}
use lbconfig_operator.Base.Decimal.{fits_int}
use lbconfig_operator.Base.Text.{has_char, trim_left, starts_outside, ends_outside}
use lbconfig_operator.Base.Text.Cutset.{trim_left-get}
use lbconfig_operator.Api.{Monitor, Vip}
use lbconfig_operator.Providers.{Call}
use lbconfig_operator.Providers.F5.{BigIp, MonitorData, ServerData}
use lbconfig_operator.Providers.F5.Config.{
  folder, monitor_config, read_monitor, server_config, read_vip,
}
use lbconfig_operator.Providers.F5.RoundTrips.{read_monitor-monitor_config, read_vip-server_config}
use lbconfig_operator.Providers.F5.Appliance.{Appliance, BigIpLaws}
use lbconfig_operator.Providers.F5.Objects.{
  ObjectLaws, reads_monitor, reads_vip, with_monitor, with_vip,
}
use lbconfig_operator.Providers.F5.Servers.{located}
use lbconfig_operator.Examples.BigIpMemory.{
  common, itself, big_ip, big_ip_laws, left_in, big_ip-delete_frame, big_ip-new_session,
}

abbrev succeed : Call Appliance (Unit {0})
succeed a = (record { value = some tt; error = none }, a)

abbrev refuse : {A : Type 0} → Call Appliance A
refuse a = (record { value = none; error = some "01020036: not found" }, a)

abbrev answer : {A : Type 0} → Option A → Call Appliance A
answer o a = (record { value = o; error = none }, a)

abbrev keep_monitor : String → Outcome (Option Monitor) → Call Appliance (Unit {0})
keep_monitor k (ok (some m)) a = succeed (with_monitor a k (some m))
keep_monitor k (ok none) a = refuse a
keep_monitor k (err e) a = refuse a
keep_monitor k panic a = refuse a

-- A change keeps the port.
abbrev change_monitor : String → MonitorData → Option Monitor → Call Appliance (Unit {0})
change_monitor kind d none a = refuse a
change_monitor kind d (some old) a = succeed (
    with_monitor a d.name (
      some (record {
        name = d.name;
        monitor_type = kind;
        path = trim_left "GET " d.send_string;
        port = old.port;
      })))

abbrev keep_vip : String → Outcome (Option Vip) → Call Appliance (Unit {0})
keep_vip k (ok (some v)) a = succeed (with_vip a k (some v))
keep_vip k (ok none) a = refuse a
keep_vip k (err e) a = refuse a
keep_vip k panic a = refuse a

-- The virtual server that is sent.
abbrev sent_vip : ServerData → Outcome (Option Vip)
sent_vip d =
    read_vip (λ t. t) common (record { name = d.name; ip = ""; port = pos 0; pool = d.pool })
      (located common d)

abbrev pub whole : BigIp Appliance
whole = record big_ip {
  get_monitor = λ k kind a. answer (Option.map (monitor_config common) (a.monitors k)) a;
  add_monitor = λ d kind. keep_monitor d.name (read_monitor (λ t. t) d);
  patch_monitor = λ k kind d a. change_monitor kind d (a.monitors k) a;
  delete_monitor = λ k kind a. succeed (with_monitor a k none);
  get_virtual_server =
      λ k a. answer (Option.map (λ v. located common (server_config common v)) (a.vips k)) a;
  add_virtual_server = λ d. keep_vip d.name (sent_vip d);
  patch_virtual_server = λ path d. keep_vip d.name (sent_vip d);
  delete_virtual_server = λ k a. succeed (with_vip a k none);
}

pub whole_laws : BigIpLaws common itself whole
whole_laws = record {
  get_pool = big_ip_laws.get_pool;
  create_pool = big_ip_laws.create_pool;
  add_monitor_to_pool = big_ip_laws.add_monitor_to_pool;
  modify_pool = big_ip_laws.modify_pool;
  delete_pool = big_ip_laws.delete_pool;
  pool_members = big_ip_laws.pool_members;
  get_node = big_ip_laws.get_node;
  create_node = big_ip_laws.create_node;
  changed = big_ip_laws.changed;
  modify_node = big_ip_laws.modify_node;
  add_pool_member = big_ip_laws.add_pool_member;
  delete_pool_member = big_ip_laws.delete_pool_member;
}

pub folder-common : folder "" ≡ common
unfolding string_eq
folder-common = refl

pub slashless : has_char "" "/" ≡ false
unfolding has_char
slashless = refl

pub colonless : has_char common ":" ≡ false
unfolding has_char
colonless = refl

sent_monitor :
    (m : Monitor)
    → reads_monitor m ≡ true
    → read_monitor (λ t. t) (monitor_config common m) ≡ ok (some m)
sent_monitor m h =
    let kind : has_char m.monitor_type "/" ≡ false = ground arith in
    let port : m.port == pos 0 ≡ false = ground arith in
    let narrow : fits_int m.port ≡ true = ground arith in
    let path : starts_outside "GET " m.path ≡ true = ground arith in
    subst (λ f. read_monitor (λ t. t) (monitor_config f m) ≡ ok (some m)) folder-common
      (read_monitor-monitor_config (λ t. t) "" m slashless kind port narrow path)

sent_server :
    (v : Vip) → reads_vip common v ≡ true → sent_vip (server_config common v) ≡ ok (some v)
unfolding read_vip
sent_server v h =
    let plain : has_char v.ip ":" ≡ false = ground arith in
    let narrow : fits_int v.port ≡ true = ground arith in
    let starts : starts_outside common v.ip ≡ true = ground arith in
    let ends : ends_outside common v.ip ≡ true = ground arith in
    read_vip-server_config (λ t. t) common v colonless plain narrow starts ends

pub whole-ObjectLaws : ObjectLaws common itself whole
whole-ObjectLaws = record {
  new_session = big_ip-new_session;
  get_monitor_none = λ k kind s h. record { value = rw h refl; error = refl; leaves = refl };
  get_monitor = λ k m s h. record { value = rw h refl; error = refl; leaves = refl };
  add_monitor = λ m s gone fit.
      let port : m.port == pos 0 ≡ false = ground arith in
      record { error = rw (sent_monitor m fit) refl; leaves = rw (sent_monitor m fit, port) refl };
  patch_monitor = λ m old s there kind fit.
      let path : starts_outside "GET " m.path ≡ true = ground arith in
      record { error = rw there refl; leaves = rw (there, trim_left-get m.path path) refl };
  delete_monitor = λ k old s there. record { error = refl; leaves = refl };
  get_virtual_server = λ k s. record { value = refl; error = refl; leaves = refl };
  add_virtual_server = λ v s gone fit. record {
    error = rw (sent_server v fit) refl;
    leaves = rw (sent_server v fit) refl;
  };
  patch_virtual_server = λ v old s there fit. record {
    error = rw (sent_server v fit) refl;
    leaves = rw (sent_server v fit) refl;
  };
  delete_virtual_server = λ k old s there. record { error = refl; leaves = refl };
  left = left_in;
  delete_frame = λ k host port s. big_ip-delete_frame k host port s;
}

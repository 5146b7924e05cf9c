-- ===== src/Examples/OnF5Servers.antt =====
-- `HandleVIP` on the provider of f5_controller.go for a virtual server that BIG-IP has with another
-- pool, over a BIG-IP in memory that keeps virtual servers only.
use mathlib.Core.Option
use lbconfig_operator.Base.{
  String, pos, true, false, Option, none, some, ◌≡◌, refl, ◌==◌, string_eq, int_eq, itoa,
  if◌then◌else◌, pure,
}
use lbconfig_operator.Base.Text.{has_char, starts_outside, ends_outside}
use lbconfig_operator.Api.{Vip}
use lbconfig_operator.Backend.Device.{put}
use lbconfig_operator.Backend.Handle.{handle_vip}
use lbconfig_operator.Providers.{Call}
use lbconfig_operator.Providers.F5.{F5Provider, BigIp}
use lbconfig_operator.Providers.F5.Config.{server_config}
use lbconfig_operator.Providers.F5.Methods.{methods}
use lbconfig_operator.Providers.F5.Servers.{
  Servers, located, ServerLaws, Leaves, handle_vip-methods,
}
use lbconfig_operator.Examples.BigIpMemory.{common}

abbrev succeed : Call Servers (Unit {0})
succeed s = (record { value = some tt; error = none }, s)

abbrev answer : {A : Type 0} → Option A → Call Servers A
answer o s = (record { value = o; error = none }, s)

abbrev big_ip : BigIp Servers
big_ip = record {
  url_host = λ text. some text;
  quote = λ text. text;
  print_server = λ d. d.name;
  new_session = λ host user password s. s;
  get_monitor = λ name kind. answer none;
  add_monitor = λ d kind. succeed;
  patch_monitor = λ name kind d. succeed;
  delete_monitor = λ name kind. succeed;
  get_pool = λ k. answer none;
  create_pool = λ k. succeed;
  add_monitor_to_pool = λ m k. succeed;
  modify_pool = λ k c. succeed;
  delete_pool = λ k. succeed;
  pool_members = λ k. answer none;
  add_pool_member = λ k text. succeed;
  pool_member_status = λ k text status. succeed;
  delete_pool_member = λ path text. succeed;
  get_node = λ k. answer none;
  modify_node = λ k c. succeed;
  create_node = λ name address. succeed;
  get_virtual_server = λ k s. answer (Option.map (located common) (s k)) s;
  add_virtual_server = λ d s. succeed (put s d.name (some d));
  patch_virtual_server = λ path d s. succeed (put s d.name (some d));
  delete_virtual_server = λ k s. succeed (put s k none);
}

big_ip-ServerLaws : ServerLaws common (λ s. s) big_ip
big_ip-ServerLaws = record {
  value = λ k s. refl;
  error = λ k s. refl;
  leaves = λ k s. refl;
  add = λ d s h. record { error = refl; leaves = refl };
  patch = λ d old s h. record { error = refl; leaves = refl };
}

abbrev object : Servers → F5Provider
object s = record {
  host = "https://10.0.0.1";
  hostport = pos 443;
  username = "admin";
  password = "admin";
  partition = "/Common/";
  validatecerts = false;
  lbmethod = "round-robin";
}

abbrev vip_to : String → Vip
vip_to pool = record { name = "VIP-web-80"; pool = pool; ip = "10.0.0.100"; port = pos 80 }

abbrev servers : Servers
servers k = if k == "VIP-web-80" then some (server_config common (vip_to "Pool-old")) else none

colonless : has_char common ":" ≡ false
unfolding has_char
colonless = refl

there : servers "VIP-web-80" ≡ some (server_config common (vip_to "Pool-old"))
unfolding string_eq
there = refl

plain : has_char "10.0.0.100" ":" ≡ false
unfolding has_char
plain = refl

starts : starts_outside common "10.0.0.100" ≡ true
unfolding has_char
starts = refl

ends : ends_outside common "10.0.0.100" ≡ true
unfolding ends_outside has_char
ends = refl

-- The pool stays.
handle_vip-methods_example :
    Leaves common colonless
      (λ s. s)
      object
      (λ s. refl)
      big_ip
      big_ip-ServerLaws
      (λ b u p. pure tt)
      (handle_vip (methods object big_ip (λ b u p. pure tt)) (vip_to "Pool-web-80") servers)
      (put servers "VIP-web-80" (some (server_config common (vip_to "Pool-old"))))
unfolding int_eq string_eq itoa
handle_vip-methods_example =
    handle_vip-methods common colonless (λ s. s) object (λ s. refl) big_ip big_ip-ServerLaws
      (λ b u p. pure tt) (vip_to "Pool-web-80") servers (some (vip_to "Pool-old")) there
      (refl, record { plain = plain; narrow = refl; starts = starts; ends = ends })

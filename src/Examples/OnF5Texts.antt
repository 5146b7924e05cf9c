-- ===== src/Examples/OnF5Texts.antt =====
-- What f5_controller.go reads in the texts of BIG-IP, at concrete inputs.
use lbconfig_operator.Base.{
  String, ◌<>◌, ℤ, pos, true, false, none, some, List, [], ◌∷◌, ◌≡◌, refl, ◌==◌, string_eq, int_eq,
  ok, atoi_value,
}
use lbconfig_operator.Base.Text.{
  has_char, trim, trim_left, trim_right, split, starts_outside, ends_outside,
}
use lbconfig_operator.Api.{Monitor, PoolMember, Vip}
use lbconfig_operator.Providers.F5.{MemberData}
use lbconfig_operator.Providers.F5.Config.{
  folder, monitor_config, read_monitor, read_members, server_config, read_vip,
}
use lbconfig_operator.Providers.F5.RoundTrips.{read_monitor-monitor_config, read_vip-server_config}
use lbconfig_operator.Examples.BigIpMemory.{common}

colonless : has_char common ":" ≡ false
unfolding has_char
colonless = refl

-- The monitor of a load balancer that is called `lemon` is read without its last three letters.
lemon_monitor : trim common (common <> "Monitor-lemon") ≡ "Monitor-le"
unfolding trim trim_left trim_right has_char
lemon_monitor = refl

abbrev monitor : Monitor
monitor = record { name = "Monitor-web"; path = "/healthz"; port = pos 1936; monitor_type = "http" }

slashless : (has_char "team" "/" ≡ false) × (has_char "http" "/" ≡ false)
unfolding has_char
slashless = (refl, refl)

has_port : monitor.port == pos 0 ≡ false
unfolding int_eq
has_port = refl

rooted : starts_outside "GET " monitor.path ≡ true
unfolding has_char
rooted = refl

read_monitor-monitor_config_example :
    read_monitor (λ t. t) (monitor_config (folder "team") monitor) ≡ ok (some monitor)
read_monitor-monitor_config_example =
    read_monitor-monitor_config (λ t. t) "team" monitor slashless.0 slashless.1 has_port refl rooted

abbrev vip : Vip
vip = record { name = "VIP-web-80"; pool = "Pool-web-80"; ip = "10.0.0.3"; port = pos 80 }

plain_vip : has_char vip.ip ":" ≡ false
unfolding has_char
plain_vip = refl

ends : (starts_outside common vip.ip ≡ true) × (ends_outside common vip.ip ≡ true)
unfolding has_char ends_outside
ends = (refl, refl)

read_back_vip :
    read_vip
      (λ t. t)
      common
      vip
      (record (server_config common vip) {
        destination = common <> (server_config common vip).destination;
      })
    ≡ ok (some vip)
read_back_vip = read_vip-server_config (λ t. t) common vip colonless plain_vip refl ends.0 ends.1

abbrev answers : List MemberData
answers =
    record { name = "a"; address = "10.0.0.1"; full_path = "/Common/10.0.0.1:80" }
    ∷ record { name = "b"; address = "10.0.0.2"; full_path = "/Common/10.0.0.2:any" }
    ∷ record {
      name = "c";
      address = "10.0.0.3";
      full_path = "/Common/10.0.0.3:99999999999999999999";
    }
    ∷ []

abbrev member_of : String → String → ℤ → PoolMember
member_of name host port = record {
  node = record { name = name; host = host; labels = none };
  port = port;
}

abbrev read : List PoolMember
read =
    member_of "a" "10.0.0.1" (pos 80)
    ∷ member_of "b" "10.0.0.2" (pos 0)
    ∷ member_of "c" "10.0.0.3" (pos 9223372036854775807)
    ∷ []

parsed : read_members answers ≡ ok read
unfolding read_members split atoi_value
parsed = refl

-- ===== src/Examples/OnF5.antt =====
-- The theorems on f5_controller.go over a BIG-IP in memory.
use lbconfig_operator.Base.{
  String, pos, true, false, none, some, [], ◌∷◌, map, ◌≡◌, ◌↔◌, refl, if◌then◌else◌, ◌==◌,
  string_eq, int_eq, ok, pure, sym, subst, ◌∙◌,
}
use lbconfig_operator.Base.Text.{
  has_char, trim, trim_left, trim_right, starts_outside, ends_outside,
}
use lbconfig_operator.Api.{Pool, PoolMember}
use lbconfig_operator.Backend.Handle.{contains_member, handle_pool}
use lbconfig_operator.Backend.Members.{NodupMembers, AllFit}
use lbconfig_operator.Providers.F5.{F5Provider}
use lbconfig_operator.Providers.F5.Methods.{methods, get_pool}
use lbconfig_operator.Providers.F5.Appliance.{Member, has_member, AppliancePool, Appliance}
use lbconfig_operator.Providers.F5.RoundTrips.{member_at}
use mathlib.Core.Option.{some-injective}
use lbconfig_operator.Providers.F5.View.{keeps_monitor, keeps_member, device_of}
use lbconfig_operator.Providers.F5.Synced.{Holds, handle_pool-Holds, handle_pool-settled}
use lbconfig_operator.Providers.F5.Trimmed.{get_pool-monitor}
use lbconfig_operator.Examples.BigIpMemory.{common, itself, big_ip, big_ip_laws}

abbrev object : Appliance → F5Provider
object a = record {
  host = "https://10.0.0.1";
  hostport = pos 443;
  username = "admin";
  password = "admin";
  partition = "/Common/";
  validatecerts = false;
  lbmethod = "round-robin";
}

abbrev worker : String → PoolMember
worker host = record { node = record { name = "node"; host = host; labels = none }; port = pos 80 }

abbrev wanted : Pool
wanted = record {
  name = "Pool-web-80";
  members = worker "10.0.0.1" ∷ worker "10.0.0.2" ∷ [];
  monitor = "Monitor-web";
}

plain_old : has_char "10.0.0.9" ":" ≡ false
unfolding has_char
plain_old = refl

-- BIG-IP has the pool with another monitor and another member.
abbrev old_member : Member
old_member = record { host = "10.0.0.9"; port = pos 80; plain = plain_old; narrow = refl }

abbrev stale : AppliancePool
stale = record {
  monitor = "Monitor-lemon";
  load_balancing_mode = "round-robin";
  members = old_member ∷ [];
}

abbrev appliance : Appliance
appliance = record {
  monitors = λ k. none;
  pools = λ k. if k == "Pool-web-80" then some stale else none;
  vips = λ k. none;
  nodes = λ k. none;
}

colonless : has_char common ":" ≡ false
unfolding has_char
colonless = refl

there : appliance.pools "Pool-web-80" ≡ some stale
unfolding string_eq
there = refl

wanted-Nodup : NodupMembers wanted.members
unfolding contains_member string_eq int_eq
wanted-Nodup = (refl, (refl, tt))

wanted-AllFit : AllFit keeps_member wanted.members
unfolding has_char
wanted-AllFit = (refl, (refl, tt))

keeps : keeps_monitor common "Monitor-web" ≡ true
unfolding string_eq ends_outside has_char
keeps = refl

stale-Nodup :
    (a : AppliancePool)
    → appliance.pools "Pool-web-80" ≡ some a
    → NodupMembers (map member_at a.members)
unfolding contains_member
stale-Nodup a h =
    subst (λ x. NodupMembers (map member_at x.members)) (some-injective stale a (sym there ∙ h))
      (refl, tt)

handle_pool-Holds_example :
    ((result : Pool) × (handle_pool (methods object big_ip (λ b u p. pure tt)) wanted appliance).0
        ≡ ok result)
    × Holds common
        (handle_pool (methods object big_ip (λ b u p. pure tt)) wanted appliance).1
        wanted
handle_pool-Holds_example =
    handle_pool-Holds common colonless itself object (λ s. refl) big_ip big_ip_laws
      (λ b u p. pure tt) wanted appliance keeps wanted-AllFit wanted-Nodup stale-Nodup

-- BIG-IP has the pool as it is wanted.
abbrev member : (host : String) → has_char host ":" ≡ false → Member
member host plain = record { host = host; port = pos 80; plain = plain; narrow = refl }

plain_hosts : (has_char "10.0.0.1" ":" ≡ false) × (has_char "10.0.0.2" ":" ≡ false)
unfolding has_char
plain_hosts = (refl, refl)

abbrev synced : AppliancePool
synced = record {
  monitor = "Monitor-web";
  load_balancing_mode = "round-robin";
  members = member "10.0.0.1" plain_hosts.0 ∷ member "10.0.0.2" plain_hosts.1 ∷ [];
}

abbrev settled : Appliance
settled = record appliance { pools = λ k. if k == "Pool-web-80" then some synced else none }

there_settled : settled.pools "Pool-web-80" ≡ some synced
unfolding string_eq
there_settled = refl

settled-Holds : Holds common settled wanted
unfolding string_eq trim trim_left trim_right has_char has_member contains_member
settled-Holds = record { pool = synced; there = there_settled; monitor = refl; members = λ m. refl }

handle_pool-settled_example :
    ((handle_pool (methods object big_ip (λ b u p. pure tt)) wanted settled).0 ≡ ok wanted)
    × (device_of common (handle_pool (methods object big_ip (λ b u p. pure tt)) wanted settled).1
        ≡ device_of common settled)
handle_pool-settled_example =
    handle_pool-settled common colonless itself object (λ s. refl) big_ip big_ip_laws
      (λ b u p. pure tt) wanted settled settled-Holds

named : stale.monitor == "" ≡ false
unfolding string_eq
named = refl

get_pool-monitor_example :
    (found : Pool) × ((get_pool object big_ip wanted appliance).0 ≡ ok (some found))
    × ((found.monitor ≡ "Monitor-lemon") ↔ (
        (starts_outside common "Monitor-lemon" ≡ true)
        × (ends_outside common "Monitor-lemon" ≡ true)))
get_pool-monitor_example =
    get_pool-monitor common itself object big_ip big_ip_laws wanted stale appliance refl there named

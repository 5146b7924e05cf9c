-- ===== src/Providers/F5/RoundTrips.antt =====
-- What f5_controller.go reads back of what it wrote to BIG-IP.
use text.Mathlib.TextLemmas.{append_assoc, nil-append}
use lbconfig_operator.Base.{
  if◌then◌else◌, Bool-cases, inl, inr, String, ◌<>◌, ℤ, pos, true, false, none, some, List, [], ◌∷◌,
  map, ◌≡◌, refl, sym, ap, ◌∙◌, ◌==◌, string_eq, int_eq, itoa, ok,
}
use lbconfig_operator.Base.Decimal.{fits_int, atoi-itoa}
use lbconfig_operator.Base.Decimal.Clamp.{atoi_value-itoa}
use lbconfig_operator.Base.Decimal.Digits.{has_char-itoa}
use lbconfig_operator.Base.Text.{has_char, split, trim, starts_outside, ends_outside}
use lbconfig_operator.Base.Text.Parts.{split-none, split-append, has_char-append}
use lbconfig_operator.Base.Text.Cutset.{all_in_self, trim-append, trim_outside, trim_left-get}
use lbconfig_operator.Api.{Monitor, PoolMember, Vip}
use lbconfig_operator.Providers.F5.Config.{
  monitor_config, read_monitor, read_members, server_config, read_vip, folder,
}
use lbconfig_operator.Providers.F5.Appliance.{Member, member_data, name_at}

pub split-name_at :
    (host : String) (port : ℤ)
    → has_char host ":" ≡ false
    → split ":" (name_at host port) ≡ host ∷ itoa port ∷ []
split-name_at host port h =
    split-append ":" host (itoa port) h
    ∙ ap (λ ps. host ∷ ps) (split-none ":" (itoa port) (has_char-itoa port ":" refl))

-- A member as the provider reads it.
abbrev pub member_at : Member → PoolMember
member_at m = record {
  node = record { name = name_at m.host m.port; host = m.host; labels = none };
  port = m.port;
}

-- `GetPoolMembers` reads the address and the port of each member of a pool on BIG-IP, when the
-- folder has no colon.
pub read_members-member_data :
    (home : String)
    → has_char home ":" ≡ false
    → (ms : List Member) → read_members (map (member_data home) ms) ≡ ok (map member_at ms)
unfolding read_members
read_members-member_data home h [] = refl
read_members-member_data home h (m ∷ ms) =
    rw
      (
        split-none ":" m.host m.plain,
        sym (append_assoc home m.host (":" <> itoa m.port)),
        split-name_at (home <> m.host) m.port (rw (has_char-append, h, m.plain) refl),
        atoi_value-itoa m.port m.narrow,
        read_members-member_data home h ms,
      )
      refl

-- `Trim` with the folder as the cutset takes the folder off a name, and leaves the name whole if it
-- neither begins nor ends with a character of the folder.
pub trim_qualified :
    (home s : String)
    → starts_outside home s ≡ true
    → ends_outside home s ≡ true
    → trim home (home <> s) ≡ s
trim_qualified home s starts ends =
    trim-append home home s (all_in_self home) ∙ trim_outside home s starts ends

-- `GetVIP` reads the name, the IP and the port of what `CreateVIP` wrote.
pub read_vip-server_config :
    (quote : String → String) (partition : String) (v : Vip)
    → has_char partition ":" ≡ false
    → has_char v.ip ":" ≡ false
    → fits_int v.port ≡ true
    → starts_outside partition v.ip ≡ true
    → ends_outside partition v.ip ≡ true
    → read_vip quote partition v (record (server_config partition v) {
      destination = partition <> (server_config partition v).destination;
    })
      ≡ ok (some v)
unfolding read_vip
read_vip-server_config quote partition v colonless plain narrow starts ends =
    rw
      (
        sym (append_assoc partition v.ip (":" <> itoa v.port)),
        split-name_at (partition <> v.ip) v.port (rw (has_char-append, colonless, plain) refl),
        atoi-itoa v.port narrow,
        trim_qualified partition v.ip starts ends,
      )
      refl

split-slashes :
    (name rest : String)
    → has_char name "/" ≡ false
    → has_char rest "/" ≡ false
    → split "/" ("/" <> name <> "/" <> rest) ≡ "" ∷ name ∷ rest ∷ []
unfolding has_char
split-slashes name rest h k =
    ap (split "/") (sym (nil-append ("/" <> name <> "/" <> rest)))
    ∙ split-append "/" "" (name <> "/" <> rest) refl
    ∙ ap (λ ps. "" ∷ ps)
        (split-append "/" name rest h ∙ ap (λ ps. name ∷ ps) (split-none "/" rest k))

-- The folder's name in front of a name without a slash.
split-folder :
    (name rest : String)
    → has_char name "/" ≡ false
    → has_char rest "/" ≡ false
    → split "/" (folder name <> rest) ≡ "" ∷ (if name == "" then "Common" else name) ∷ rest ∷ []
unfolding has_char
split-folder name rest h k = elim (Bool-cases (name == "")) [
  | inl e ↦ rw e (
      ap (split "/")
        (append_assoc "/" "Common/" rest ∙ ap (λ t. "/" <> t) (append_assoc "Common" "/" rest))
      ∙ split-slashes "Common" rest refl k)
  | inr e ↦ rw e (
      ap (split "/")
        (append_assoc "/" (name <> "/") rest ∙ ap (λ t. "/" <> t) (append_assoc name "/" rest))
      ∙ split-slashes name rest h k)
]

split-destination : (port : ℤ) → split "." ("*." <> itoa port) ≡ "*" ∷ itoa port ∷ []
unfolding has_char
split-destination port =
    ap (split ".") (append_assoc "*" "." (itoa port))
    ∙ split-append "." "*" (itoa port) refl
    ∙ ap (λ ps. "*" ∷ ps) (split-none "." (itoa port) (has_char-itoa port "." refl))

-- `GetMonitor` reads what `CreateMonitor` wrote, for a partition and a type without a slash, a port
-- that is a Go int and not 0, and a path that does not begin with a character of "GET ".
pub read_monitor-monitor_config :
    (quote : String → String) (partition : String) (m : Monitor)
    → has_char partition "/" ≡ false
    → has_char m.monitor_type "/" ≡ false
    → m.port == pos 0 ≡ false
    → fits_int m.port ≡ true
    → starts_outside "GET " m.path ≡ true
    → read_monitor quote (monitor_config (folder partition) m) ≡ ok (some m)
unfolding read_monitor
read_monitor-monitor_config quote partition m h k port narrow path = rw port (
    rw
      (
        split-destination m.port,
        atoi-itoa m.port narrow,
        split-folder partition m.monitor_type h k,
        trim_left-get m.path path,
      )
      refl)

-- ===== src/Providers/Netscaler/Answers.antt =====
-- How a Netscaler answers for what netscaler_controller.go configured, and what the provider reads
-- of such answers.
use lbconfig_operator.Base.{
  String, ◌<>◌, ℤ, pos, Bool, true, false, if◌then◌else◌, Option, none, some, List, [], ◌∷◌, map,
  ◌≡◌, refl, ◌==◌, string_eq, int_eq, ok, arith, itoa,
}
use lbconfig_operator.Base.Dict.{Dict}
use lbconfig_operator.Base.Text.{starts_outside}
use lbconfig_operator.Base.Text.Cutset.{trim_left-get}
use lbconfig_operator.Api.{Monitor, PoolMember, Vip}
use lbconfig_operator.Providers.Netscaler.{
  text, number, Row, fields, Field, scalar, MonitorData, VserverData,
}
use lbconfig_operator.Providers.Netscaler.Config.{
  monitor_config, vserver_config, read_monitor, read_rows, read_vip,
}

abbrev port_of : Option ℤ → ℤ
port_of none = pos 0
port_of (some p) = p

-- A monitor that is not secure says so.
abbrev answered_secure : String → String
answered_secure secure = if secure == "" then "NO" else secure

-- The fields of a monitor that the provider reads. A port that is not set is 0.
abbrev pub monitor_answer : MonitorData → Dict Field
monitor_answer c =
    ("monitorname", scalar (text c.monitorname))
    ∷ ("type", scalar (text c.type))
    ∷ ("httprequest", scalar (text c.httprequest))
    ∷ ("destport", scalar (number (port_of c.destport)))
    ∷ ("secure", scalar (text (answered_secure c.secure)))
    ∷ []

abbrev pub row : PoolMember → Row
row m = fields (("servername", text m.node.host) ∷ ("port", number m.port) ∷ [])

abbrev pub vserver_answer : VserverData → Dict Field
vserver_answer c =
    ("name", scalar (text c.name))
    ∷ ("ipv46", scalar (text c.ipv46))
    ∷ ("port", scalar (number c.port))
    ∷ []

abbrev kind_of : Bool → String
kind_of https = if https then "https" else "HTTP"

-- The type that a monitor is read back with.
abbrev pub read_type : String → String
read_type type = kind_of (type == "https")

secure-read :
    (https : Bool)
    → kind_of (answered_secure (if https then "YES" else "") == "YES") ≡ kind_of https
unfolding string_eq
secure-read true = refl
secure-read false = refl

port_of-set : (port : ℤ) → port_of (if port == pos 0 then none else some port) ≡ port
port_of-set port = ground arith

-- `GetMonitor` reads the name, the path and the port that `CreateMonitor` configured, if the path
-- does not begin with a character of "GET ". It reads the type "https" as that, and every other
-- type as "HTTP".
pub read_monitor-monitor_answer :
    (m : Monitor)
    → starts_outside "GET " m.path ≡ true
    → read_monitor (monitor_answer (monitor_config m))
      ≡ ok (some (record m { monitor_type = read_type m.monitor_type }))
unfolding read_monitor string_eq
read_monitor-monitor_answer m path =
    rw (trim_left-get m.path path, port_of-set m.port, secure-read (m.monitor_type == "https")) refl

-- A member as the provider reads it.
abbrev pub read_member : PoolMember → PoolMember
read_member m = record m {
  node = record { name = m.node.host <> ":" <> itoa m.port; host = m.node.host; labels = none };
}

-- `GetPoolMembers` reads the host and the port of every member of the binding, and names the
-- member by both.
pub read_rows-row : (ms : List PoolMember) → read_rows (map row ms) ≡ ok (map read_member ms)
unfolding read_rows string_eq
read_rows-row [] = refl
read_rows-row (m ∷ ms) = rw (read_rows-row ms) refl

-- `GetVIP` reads the name, the address and the port that `CreateVIP` configured.
pub read_vip-vserver_config :
    (lbmethod : String) (v : Vip) → read_vip v (vserver_answer (vserver_config lbmethod v)) ≡ ok v
unfolding read_vip string_eq
read_vip-vserver_config lbmethod v = refl

-- ===== src/Providers/Netscaler/Config.antt =====
-- The records that netscaler_controller.go sends, and what it reads in the client's answers: a type
-- assertion on a missing value or on one of another type is a panic.
use lbconfig_operator.Base.{
  String, ◌<>◌, ℤ, pos, Bool, false, if◌then◌else◌, Option, none, some, List, [], ◌∷◌, ◌==◌,
  string_eq, int_eq, Outcome, ok, err, panic, itoa,
}
use lbconfig_operator.Base.Dict.{Dict, lookup}
use lbconfig_operator.Base.Text.{trim_left}
use lbconfig_operator.Api.{Monitor, Pool, PoolMember, Vip}
use lbconfig_operator.Providers.Netscaler.{
  Scalar, text, number, null, other, Row, fields, not_a_map, Field, scalar, rows, MonitorData,
  VserverData,
}

-- The configuration of `CreateMonitor` and of `EditMonitor`.
abbrev pub monitor_config : Monitor → MonitorData
monitor_config m =
    let secure = m.monitor_type == "https" in
    record {
      monitorname = m.name;
      type = "HTTP";
      interval = pos 5;
      downtime = pos 16;
      httprequest = "GET " <> m.path;
      destport = if m.port == pos 0 then none else some m.port;
      secure = if secure then "YES" else "";
      sslprofile = if secure then "ns_default_ssl_profile_backend" else "";
    }

-- The configuration of `CreateVIP` and of `EditVIP`.
abbrev pub vserver_config : String → Vip → VserverData
vserver_config lbmethod v = record {
  name = v.name;
  ipv46 = v.ip;
  port = v.port;
  servicetype = "TCP";
  lbmethod = lbmethod;
}

-- `v.(string)` and `int(v.(float64))`, and what is done with them.
module _ {A : Type 0} where
  abbrev pub as_text : Option Scalar → (String → Outcome A) → Outcome A
  as_text (some (text t)) k = k t
  as_text (some (number n)) k = panic
  as_text (some null) k = panic
  as_text (some other) k = panic
  as_text none k = panic

  abbrev pub as_number : Option Scalar → (ℤ → Outcome A) → Outcome A
  as_number (some (number n)) k = k n
  as_number (some (text t)) k = panic
  as_number (some null) k = panic
  as_number (some other) k = panic
  as_number none k = panic

  abbrev pub as_map : Row → (Dict Scalar → Outcome A) → Outcome A
  as_map (fields d) k = k d
  as_map not_a_map k = panic

-- A value of an answer that is no list.
abbrev pub plain : Option Field → Option Scalar
plain (some (scalar v)) = some v
plain (some (rows rs)) = some other
plain none = none

abbrev pub is_yes : Option Scalar → Bool
is_yes (some (text t)) = t == "YES"
is_yes (some (number n)) = false
is_yes (some null) = false
is_yes (some other) = false
is_yes none = false

-- What `GetMonitor` returns for an answer; none for one without fields.
unfoldable pub read_monitor : Dict Field → Outcome (Option Monitor)
read_monitor [] = ok none
read_monitor (f ∷ fs) =
    let m = f ∷ fs in
    as_text (plain (lookup "httprequest" m)) λ request.
      as_text (plain (lookup "monitorname" m)) λ name. as_text (plain (lookup "type" m)) λ type.
        as_number (plain (lookup "destport" m)) λ port. ok (
          some (record {
            name = name;
            monitor_type = if is_yes (plain (lookup "secure" m)) then "https" else type;
            path = trim_left "GET " request;
            port = port;
          }))

-- The name of the monitor in the first row of the binding of a pool.
abbrev pub bound_name : Dict Scalar → Outcome String
bound_name [] = ok ""
bound_name (f ∷ fs) = as_text (lookup "monitor_name" (f ∷ fs)) ok

unfoldable pub bound_monitor : Option Field → Outcome String
bound_monitor (some (rows (r ∷ rs))) = as_map r bound_name
bound_monitor (some (rows [])) = panic
bound_monitor (some (scalar v)) = panic
bound_monitor none = panic

abbrev pub with_member : PoolMember → Outcome (List PoolMember) → Outcome (List PoolMember)
with_member m (ok ms) = ok (m ∷ ms)
with_member m (err e) = err e
with_member m panic = panic

-- The loop of `GetPoolMembers`.
unfoldable pub read_rows : List Row → Outcome (List PoolMember)
read_rows [] = ok []
read_rows (r ∷ rs) =
    let rest = read_rows rs in
    as_map r λ mem. as_text (lookup "servername" mem) λ ip. as_number (lookup "port" mem) λ port.
      with_member
        (record {
          node = record { name = ip <> ":" <> itoa port; host = ip; labels = none };
          port = port;
        })
        rest

abbrev pub filled : Pool → Outcome (List PoolMember) → Outcome (Option Pool)
filled pool (ok members) = ok (some (record pool { members = members }))
filled pool (err e) = err e
filled pool panic = panic

-- What `GetPoolMembers` makes of the members in the binding: a pool without any is left as it is.
unfoldable pub read_members : Pool → Option Field → Outcome (Option Pool)
read_members pool none = ok (some pool)
read_members pool (some (scalar null)) = ok (some pool)
read_members pool (some (rows rs)) = filled pool (read_rows rs)
read_members pool (some (scalar (text t))) = panic
read_members pool (some (scalar (number n))) = panic
read_members pool (some (scalar other)) = panic

-- What `GetVIP` reads of a virtual server, before its binding: the pool is that of the argument.
unfoldable pub read_vip : Vip → Dict Field → Outcome Vip
read_vip v vs = as_text (plain (lookup "name" vs)) λ name. as_text (plain (lookup "ipv46" vs)) λ ip.
    as_number (plain (lookup "port" vs))
      λ port. ok (record { name = name; ip = ip; port = port; pool = v.pool })

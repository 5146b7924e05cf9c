-- ===== src/Providers/F5/Config.antt =====
-- The records that f5_controller.go sends to BIG-IP, and what it reads in BIG-IP's answers. Each
-- function is a part of the method that builds or reads the record.
use lbconfig_operator.Base.{
  String, ◌<>◌, ℕ, zero, suc, ℤ, pos, Option, none, some, List, [], ◌∷◌, ◌==◌, int_eq, string_eq,
  if◌then◌else◌, itoa, atoi, atoi_value, atoi_reason, Outcome, ok, err, panic, errorf,
}
use lbconfig_operator.Base.Text.{split, trim, trim_left}
use lbconfig_operator.Api.{Monitor, Pool, PoolMember, Vip}
use lbconfig_operator.Providers.F5.{MonitorData, PoolData, MemberData, ServerData}

-- `parts[i]`: a panic when it is out of range.
abbrev pub part : {A : Type 0} → ℕ → List String → (String → Outcome A) → Outcome A
part i [] k = panic
part zero (p ∷ ps) k = k p
part (suc i) (p ∷ ps) k = part i ps k

-- `p.partition` as `Create` sets it.
abbrev pub folder : String → String
folder partition = if partition == "" then "/Common/" else "/" <> partition <> "/"

-- The configuration of `EditMonitor`, and of `CreateMonitor` without its destination.
abbrev pub base_monitor : String → Monitor → MonitorData
base_monitor partition m = record {
  name = m.name;
  parent_monitor = partition <> m.monitor_type;
  interval = pos 5;
  timeout = pos 16;
  send_string = "GET " <> m.path;
  receive_string = "";
  destination = "";
}

abbrev pub monitor_config : String → Monitor → MonitorData
monitor_config partition m =
    let config = base_monitor partition m in
    if m.port == pos 0 then config else record config { destination = "*." <> itoa m.port }

abbrev pub atoi_error : (String → String) → String → String
atoi_error quote s = "strconv.Atoi: parsing " <> quote s <> ": " <> atoi_reason s

-- `port, err := strconv.Atoi(s); if err != nil { return nil, fmt.Errorf(text + ": %v", err) }`
abbrev pub port_or : {A : Type 0} → String → String → Option ℤ → (ℤ → Outcome A) → Outcome A
port_or text reason none k = err (errorf (text <> ": " <> reason))
port_or text reason (some port) k = k port

-- What `GetMonitor` returns for a monitor that BIG-IP has.
unfoldable pub read_monitor : (String → String) → MonitorData → Outcome (Option Monitor)
read_monitor quote d = part 1 (split "." d.destination) λ s.
    port_or "error converting F5 monitor port" (atoi_error quote s) (atoi s) λ port.
      part 2 (split "/" d.parent_monitor) λ parent. ok (
        some (record {
          name = d.name;
          monitor_type = parent;
          path = trim_left "GET " d.send_string;
          port = port;
        }))

-- What `GetPool` returns.
abbrev pub found_pool : String → Option PoolData → Option Pool
found_pool partition none = none
found_pool partition (some d) =
    some (record { name = d.name; members = []; monitor = trim partition d.monitor })

abbrev pub with_member : PoolMember → Outcome (List PoolMember) → Outcome (List PoolMember)
with_member m (ok ms) = ok (m ∷ ms)
with_member m (err e) = err e
with_member m panic = panic

-- The loop of `GetPoolMembers`.
unfoldable pub read_members : List MemberData → Outcome (List PoolMember)
read_members [] = ok []
read_members (d ∷ ds) =
    let rest = read_members ds in
    part 0 (split ":" d.address) λ ip. part 1 (split ":" d.full_path) λ port.
      with_member
        (record {
          node = record { name = d.name; host = ip; labels = none };
          port = atoi_value port;
        })
        rest

-- The name of a member on BIG-IP.
abbrev pub member_name : PoolMember → String
member_name m = m.node.host <> ":" <> itoa m.port

-- The configuration of `CreateVIP` and of `EditVIP`.
abbrev pub server_config : String → Vip → ServerData
server_config partition v = record {
  name = v.name;
  partition = partition;
  destination = v.ip <> ":" <> itoa v.port;
  pool = v.pool;
  source_address_translation = record { type = "automap"; pool = "" };
  profiles =
      record {
        name = "fastL4";
        full_path = partition <> "fastL4";
        partition = trim "/" partition;
        context = "all";
      }
      ∷ [];
}

-- What `GetVIP` returns for a virtual server that BIG-IP has: the pool is that of the argument.
unfoldable pub read_vip : (String → String) → String → Vip → ServerData → Outcome (Option Vip)
read_vip quote partition v d = part 0 (split ":" d.destination) λ address.
    part 1 (split ":" d.destination) λ s.
      port_or "error reading F5 VS port" (atoi_error quote s) (atoi s) λ port.
        ok
          (some (record { name = d.name; ip = trim partition address; port = port; pool = v.pool }))

-- ===== src/Examples/OnNetscaler.antt =====
-- The theorems on netscaler_controller.go over a Netscaler with one monitor, one virtual server and
-- a pool that no monitor is bound to.
use lbconfig_operator.Base.{
  map, List, pos, true, false, ◌||◌, if◌then◌else◌, none, some, [], ◌∷◌, ◌≡◌, refl, ◌==◌, string_eq,
  int_eq, ok,
}
use lbconfig_operator.Base.Dict.{Dict, lookup}
use lbconfig_operator.Base.Text.{has_char, starts_outside}
use lbconfig_operator.Api.{Provider, Monitor, Pool, PoolMember, Vip}
use lbconfig_operator.Backend.Handle.{handle_monitors, handle_vip}
use lbconfig_operator.Providers.{Cell, Call}
use lbconfig_operator.Providers.Netscaler.{
  rows, NetscalerProvider, text, Field, scalar, ResourceType, Nitro, lbmonitor, servicegroup,
  lbvserver, lbvserver_servicegroup_binding, servicegroup_binding,
  servicegroup_servicegroupmember_binding, server,
}
use lbconfig_operator.Providers.Netscaler.Config.{monitor_config, vserver_config}
use lbconfig_operator.Providers.Netscaler.Methods.{get_pool_members, edit_monitor, citrix_adc}
use lbconfig_operator.Providers.Netscaler.Answers.{row, read_member, monitor_answer, vserver_answer}
use lbconfig_operator.Providers.Netscaler.Laws.{
  get_pool_members-citrix_adc, handle_monitors-citrix_adc, handle_vip-citrix_adc,
}

abbrev object : NetscalerProvider
object = record {
  host = "https://10.0.0.1";
  hostport = pos 443;
  username = "admin";
  password = "admin";
  validatecerts = false;
  lbmethod = "ROUNDROBIN";
}

abbrev self : Cell NetscalerProvider NetscalerProvider
self = record { get = λ s. s; set = λ p s. p; get-set = λ p s. refl }

abbrev monitor : Monitor
monitor = record { name = "Monitor-web"; path = "/healthz"; port = pos 1936; monitor_type = "http" }

abbrev vip : Vip
vip = record { name = "VIP-web-80"; pool = "Pool-web-80"; ip = "10.0.0.3"; port = pos 80 }

abbrev pool : Pool
pool = record { name = "Pool-web-80"; members = []; monitor = "Monitor-web" }

-- The virtual server has another pool than the one that is wanted.
abbrev found : ResourceType → Dict Field
found lbmonitor = monitor_answer (monitor_config monitor)
found servicegroup = ("servicegroupname", scalar (text "Pool-web-80")) ∷ []
found servicegroup_binding = ("servicegroupname", scalar (text "Pool-web-80")) ∷ []
found servicegroup_servicegroupmember_binding = []
found server = []
found lbvserver = vserver_answer (vserver_config "ROUNDROBIN" vip)
found lbvserver_servicegroup_binding = ("servicegroupname", scalar (text "Pool-other-80")) ∷ []

abbrev succeed : Call NetscalerProvider (Unit {0})
succeed s = (record { value = some tt; error = none }, s)

abbrev client : Nitro NetscalerProvider
client = record {
  parse_url = λ url. some ("https", url);
  print_vserver = λ d. d.name;
  new_client = λ params. succeed;
  find_resource = λ type name s. (record { value = some (found type); error = none }, s);
  add_resource = λ type name payload s. (record { name = name; error = none }, s);
  bind_resource = λ to to_name type name payload. succeed;
  delete_resource = λ type name. succeed;
  delete_resource_with_args = λ type name args. succeed;
  save_config = succeed;
}

abbrev provider : Provider
provider = record {
  vendor = "Citrix_ADC";
  host = "10.0.0.1";
  port = pos 443;
  creds = "creds";
  partition = "";
  validate_certs = false;
  debug = false;
  lb_method = "ROUNDROBIN";
}

named : lookup "servicegroupname" (found servicegroup) ≡ some (scalar (text "Pool-web-80"))
unfolding string_eq
named = refl

unbound : lookup "servicegroup_lbmonitor_binding" (found servicegroup_binding) ≡ none
unfolding string_eq
unbound = refl

rooted : starts_outside "GET " monitor.path ≡ true
unfolding has_char
rooted = refl

handle_monitors-citrix_adc_example : handle_monitors (citrix_adc self client) monitor object ≡ (
    if monitor.monitor_type == "https" || monitor.monitor_type == "HTTP"
    then (ok tt, object)
    else edit_monitor self client monitor object)
handle_monitors-citrix_adc_example =
    handle_monitors-citrix_adc self client monitor none object object rooted refl

handle_vip-citrix_adc_example : handle_vip (citrix_adc self client) vip object ≡ (ok tt, object)
handle_vip-citrix_adc_example =
    handle_vip-citrix_adc self client vip "ROUNDROBIN" none
      (some (found lbvserver_servicegroup_binding)) object object object refl refl

abbrev workers : List PoolMember
workers =
    record { node = record { name = "node"; host = "10.0.0.1"; labels = none }; port = pos 80 }
    ∷ record { node = record { name = "node"; host = "10.0.0.2"; labels = none }; port = pos 80 }
    ∷ []

abbrev with_rows : Nitro NetscalerProvider
with_rows = record client {
  find_resource = λ type name s. (
    record {
      value = some (("servicegroup_servicegroupmember_binding", rows (map row workers)) ∷ []);
      error = none;
    },
    s,
  );
}

has_rows :
    lookup "servicegroup_servicegroupmember_binding"
      (("servicegroup_servicegroupmember_binding", rows (map row workers)) ∷ [])
    ≡ some (rows (map row workers))
unfolding string_eq
has_rows = refl

get_pool_members-citrix_adc_example :
    get_pool_members self with_rows pool object
    ≡ (ok (some (record pool { members = map read_member workers })), object)
get_pool_members-citrix_adc_example =
    get_pool_members-citrix_adc self with_rows pool workers
      (("servicegroup_servicegroupmember_binding", rows (map row workers)) ∷ []) object object refl
      has_rows

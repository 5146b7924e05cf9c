-- ===== src/Examples/Sample.antt =====
-- Two nodes, a load balancer over them, and a device that holds an outdated pool of it.
use lbconfig_operator.Base.{
  String, pos, true, false, none, some, List, [], ◌∷◌, ◌==◌, string_eq, if◌then◌else◌,
}
use lbconfig_operator.Base.Dict.{Dict}
use lbconfig_operator.Api.{
  Node, Monitor, PoolMember, Pool, Vip, ExternalLoadBalancer, ExternalLoadBalancerStatus,
}
use lbconfig_operator.Backend.Device.{Device}
use lbconfig_operator.Nodes.{KubeNode}
use lbconfig_operator.Reconcile.{NamespacedName, finalizer}

abbrev pub host_node : String → String → Node
host_node name host = record { name = name; host = host; labels = none }

abbrev pub member_at : String → PoolMember
member_at host = record { node = host_node "node" host; port = pos 80 }

abbrev pub pool_of : List PoolMember → Pool
pool_of members = record { name = "Pool-web-80"; members = members; monitor = "Monitor-web" }

abbrev pub new_pool : Pool
new_pool = pool_of (member_at "10.0.0.1" ∷ member_at "10.0.0.2" ∷ [])

abbrev pub old_pool : Pool
old_pool = record {
  name = "Pool-web-80";
  members = member_at "10.0.0.2" ∷ member_at "10.0.0.3" ∷ [];
  monitor = "Monitor-old";
}

abbrev pub monitor : Monitor
monitor = record { name = "Monitor-web"; path = "/healthz"; port = pos 1936; monitor_type = "http" }

abbrev pub vip : Vip
vip = record { name = "VIP-web-80"; pool = "Pool-web-80"; ip = "10.0.0.100"; port = pos 80 }

-- A device with the outdated pool, the monitor and the virtual server.
abbrev pub busy_device : Device
busy_device = record {
  monitors = λ k. if k == "Monitor-web" then some monitor else none;
  pools = λ k. if k == "Pool-web-80" then some old_pool else none;
  vips = λ k. if k == "VIP-web-80" then some vip else none;
}

abbrev pub kube_node : String → String → KubeNode
kube_node name ip = record {
  name = name;
  labels = some (("node-role.kubernetes.io/worker", "") ∷ []);
  conditions = record { type = "Ready"; status = "True" } ∷ [];
  addresses = record { type = "InternalIP"; address = ip } ∷ [];
}

abbrev pub kube_nodes : List KubeNode
kube_nodes = kube_node "node1" "10.0.0.1" ∷ kube_node "node2" "10.0.0.2" ∷ []

abbrev pub zero_status : ExternalLoadBalancerStatus
zero_status = record {
  vips = [];
  ports = [];
  monitor = record { name = ""; path = ""; port = pos 0; monitor_type = "" };
  nodes = [];
  pools = [];
  provider = record {
    vendor = "";
    host = "";
    port = pos 0;
    creds = "";
    partition = "";
    validate_certs = false;
    debug = false;
    lb_method = "";
  };
  labels = none;
  num_nodes = 0;
}

abbrev pub balancer : ExternalLoadBalancer
balancer = record {
  name = "web";
  namespace = "default";
  finalizers = [];
  deleting = false;
  spec = record {
    vip = "10.0.0.100";
    type = "worker";
    node_labels = none;
    ports = pos 80 ∷ pos 443 ∷ [];
    monitor = record { name = ""; path = "/healthz"; port = pos 1936; monitor_type = "http" };
    provider = record {
      vendor = "F5_BigIP";
      host = "https://10.0.0.5";
      port = pos 443;
      creds = "f5-creds";
      partition = "";
      validate_certs = false;
      debug = false;
      lb_method = "ROUNDROBIN";
    };
  };
  status = zero_status;
}

abbrev pub doomed : ExternalLoadBalancer
doomed = record balancer { deleting = true; finalizers = finalizer ∷ [] }

-- A load balancer whose status names what `busy_device` holds.
abbrev pub installed : ExternalLoadBalancer
installed = record balancer {
  status = record zero_status { vips = vip ∷ []; pools = old_pool ∷ []; monitor = monitor };
}

abbrev pub secret : Dict String
secret = ("username", "admin") ∷ ("password", "pw") ∷ []

abbrev pub name_of_balancer : NamespacedName
name_of_balancer = record { name = "web"; namespace = "default" }

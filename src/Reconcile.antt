-- ===== src/Reconcile.antt =====
-- internal/controller/externalloadbalancer_controller.go: the reconcile loop of a load balancer.
-- The Kubernetes client, the finalizer helpers of controller-runtime and the metrics registry are
-- the fields of `Cluster`; tracing and logging are left out.
pub mod Loop
pub mod Pools
pub mod Vips
pub mod Configure
pub mod Served
pub mod Whole
pub mod Settled
pub mod Deleted
pub mod Refused
pub mod Again
pub mod Kept
pub mod Isolated
pub mod Answers
pub mod Cleaned
pub mod Guarded
pub mod Untouched
pub mod Atomic
use lbconfig_operator.Base.{
  String, ◌<>◌, ℕ, suc, ℤ, Bool, true, false, not, ◌&&◌, Option, none, some, List, [], ◌∷◌, map,
  ◌==◌, string_eq, contains, if◌then◌else◌, Outcome, ok, err, panic, Error, errorf, Action, pure,
  raise, ◌>>=◌, ◌>>◌, wrap, itoa,
}
use lbconfig_operator.Base.Dict.{Dict, lookup}
use lbconfig_operator.Api.{
  Labels, Monitor, Provider, Node, PoolMember, Pool, Vip, ExternalLoadBalancer,
  ExternalLoadBalancerSpec, ExternalLoadBalancerStatus,
}
use lbconfig_operator.Backend.{Backend}
use lbconfig_operator.Backend.Handle.{handle_monitors, handle_pool, handle_vip, handle_cleanup}
use lbconfig_operator.Labels.{compute_labels}
use lbconfig_operator.Nodes.{KubeNode, select_nodes, or_empty}
use lbconfig_operator.Registry.{Registry, create_backend}

pub record NamespacedName : Type 0 where
  pub name : String
  pub namespace : String

-- The label values of the gauge `externallb_nodes`.
pub record MetricKey : Type 0 where
  pub name : String
  pub namespace : String
  pub type : String
  pub vip : String
  pub ports : String
  pub vendor : String

-- What `Reconcile` calls besides the provider. A `Get` writes the whole object or leaves it alone;
-- an `Update` writes the server's answer into the object that it is given.
pub record Cluster (S : Type 0) : Type 0 where
  pub list_balancers : Action S (List ExternalLoadBalancer)
  pub get_balancer : NamespacedName → Action S ExternalLoadBalancer
  -- The secret's `Data`.
  pub get_secret : NamespacedName → Action S (Dict String)
  pub list_nodes : Labels → Action S (List KubeNode)
  pub update_status : ExternalLoadBalancer → Action S ExternalLoadBalancer
  pub update : ExternalLoadBalancer → Action S ExternalLoadBalancer
  pub add_finalizer : String → ExternalLoadBalancer → ExternalLoadBalancer
  pub remove_finalizer : String → ExternalLoadBalancer → ExternalLoadBalancer
  pub set_balancers : ℕ → Action S (Unit {0})
  pub set_nodes : MetricKey → ℕ → Action S (Unit {0})
  pub delete_nodes : MetricKey → Action S (Unit {0})

abbrev pub finalizer : String
finalizer = "lb.lbconfig.carlosedp.com/finalizer"

abbrev pub length {ℓ} : {A : Type ℓ} → List A → ℕ
length [] = 0
length (x ∷ xs) = suc (length xs)

-- What `Sprint`, `Fields`, `Join` and `Trim` make of the ports: their digits, joined by commas.
unfoldable pub print_ports : List ℤ → String
print_ports [] = ""
print_ports (p ∷ []) = itoa p
print_ports (p ∷ ports) = itoa p <> "," <> print_ports ports

unfoldable pub metric_key : ExternalLoadBalancer → MetricKey
metric_key lb = record {
  name = lb.name;
  namespace = lb.namespace;
  type = lb.spec.type;
  vip = lb.spec.vip;
  ports = print_ports lb.spec.ports;
  vendor = lb.spec.provider.vendor;
}

abbrev pub monitor_for : ExternalLoadBalancer → Monitor
monitor_for lb = record lb.spec.monitor { name = "Monitor-" <> lb.name }

abbrev pub pool_name : ExternalLoadBalancer → ℤ → String
pool_name lb p = "Pool-" <> lb.name <> "-" <> itoa p

unfoldable pub pool_for : ExternalLoadBalancer → List Node → Monitor → ℤ → Pool
pool_for lb nodes monitor p = record {
  name = pool_name lb p;
  members = map {B = PoolMember} (λ n. record { node = n; port = p }) nodes;
  monitor = monitor.name;
}

unfoldable pub vip_for : ExternalLoadBalancer → ℤ → Vip
vip_for lb p = record {
  name = "VIP-" <> lb.name <> "-" <> itoa p;
  pool = pool_name lb p;
  ip = lb.spec.vip;
  port = p;
}

module _ {S : Type 0} where
  abbrev absent : Outcome ExternalLoadBalancer × S → Outcome (Option ExternalLoadBalancer) × S
  absent (ok lb, s) = (ok (some lb), s)
  absent (err e, s) = if e.not_found then (ok none, s) else (err e, s)
  absent (panic, s) = (panic, s)

  -- `if errors.IsNotFound(err) { return ctrl.Result{}, nil }`
  abbrev pub find : Action S ExternalLoadBalancer → Action S (Option ExternalLoadBalancer)
  find m s = absent (m s)

  abbrev kept :
      ExternalLoadBalancer → Outcome ExternalLoadBalancer × S → Outcome ExternalLoadBalancer × S
  kept lb (ok fresh, s) = (ok fresh, s)
  kept lb (err e, s) = (ok lb, s)
  kept lb (panic, s) = (panic, s)

  -- `_ = r.Get(ctx, req.NamespacedName, lb)`
  abbrev pub refresh :
      ExternalLoadBalancer → Action S ExternalLoadBalancer → Action S ExternalLoadBalancer
  refresh lb m s = kept lb (m s)

module _ {S : Type 0} (b : Backend S) (lb : ExternalLoadBalancer) where
  -- The loops over the ports. The result lists the pools as the calls left them.
  unfoldable pub handle_pools : List Node → Monitor → List ℤ → Action S (List Pool)
  handle_pools nodes monitor [] = pure []
  handle_pools nodes monitor (p ∷ ports) = do
    pool ← handle_pool b (pool_for lb nodes monitor p)
    pools ← handle_pools nodes monitor ports
    pure (pool ∷ pools)

  unfoldable pub handle_vips : List ℤ → Action S (List Vip)
  handle_vips [] = pure []
  handle_vips (p ∷ ports) = do
    handle_vip b (vip_for lb p)
    vips ← handle_vips ports
    pure (vip_for lb p ∷ vips)

-- ===== src/Examples/OnRefused.antt =====
-- A run of `Reconcile` for a load balancer of a vendor that is not registered.
use lbconfig_operator.Base.{
  ap, subst, inr, Outcome, ok, err, panic, pos, ◌≡◌, refl, false, none, [], ◌∷◌, string_eq, int_eq,
  to_lower,
}
use lbconfig_operator.Base.Dict.{lookup}
use lbconfig_operator.Api.{Provider, ExternalLoadBalancer}
use lbconfig_operator.Backend.Device.{Device}
use lbconfig_operator.Registry.{Registry}
use lbconfig_operator.Reconcile.Loop.{reconcile}
use lbconfig_operator.Reconcile.Refused.{ClusterFrame, Refused, Refuses, reconcile-Refuses}
use lbconfig_operator.Examples.Memory.{view, memory, cluster}
use lbconfig_operator.Examples.Sample.{balancer, busy_device, kube_nodes, secret, name_of_balancer}

abbrev providers : Registry Device
providers = ("f5_bigip", memory) ∷ []

abbrev nobody : Provider
nobody = record {
  vendor = "Unknown";
  host = "";
  port = pos 443;
  creds = "creds";
  partition = "";
  validate_certs = false;
  debug = false;
  lb_method = "";
}

-- A load balancer of a vendor that nobody registers.
abbrev nameless : ExternalLoadBalancer
nameless = record balancer { spec = record balancer.spec { provider = nobody } }

cluster-ClusterFrame : ClusterFrame view (cluster nameless kube_nodes secret)
cluster-ClusterFrame = record {
  list_balancers = λ s. refl;
  get_balancer = λ r s. refl;
  get_secret = λ r s. refl;
  list_nodes = λ l s. refl;
  set_balancers = λ n s. refl;
  set_nodes = λ k n s. refl;
}

unregistered : lookup (to_lower "Unknown") providers ≡ none
unfolding to_lower string_eq
unregistered = refl

abbrev taken : Outcome ExternalLoadBalancer → ExternalLoadBalancer
taken (ok x) = x
taken (err e) = nameless
taken panic = nameless

all-Refused :
    (t : Device) (lb : ExternalLoadBalancer)
    → ((cluster nameless kube_nodes secret).get_balancer name_of_balancer t).0 ≡ ok lb
    → Refused view
        (cluster nameless kube_nodes secret)
        cluster-ClusterFrame
        providers
        name_of_balancer
        lb
all-Refused t lb h =
    let same : nameless ≡ lb = ok-injective h in
    subst
      (Refused view (cluster nameless kube_nodes secret) cluster-ClusterFrame providers
        name_of_balancer)
      same (inr unregistered)
  where
    ok-injective : ok nameless ≡ ok lb → nameless ≡ lb
    ok-injective p = ap taken p

reconcile-Refuses_example :
    Refuses view
      (cluster nameless kube_nodes secret)
      cluster-ClusterFrame
      providers
      name_of_balancer
      busy_device
      (reconcile (cluster nameless kube_nodes secret) providers name_of_balancer busy_device)
reconcile-Refuses_example =
    reconcile-Refuses view (cluster nameless kube_nodes secret) cluster-ClusterFrame providers
      name_of_balancer all-Refused busy_device

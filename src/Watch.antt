-- ===== src/Watch.antt =====
-- internal/controller/externalloadbalancer_controller.go: the two functions that `SetupWithManager`
-- gives to the manager: what a watched node enqueues, and which updates pass the filter.
pub mod Laws
use lbconfig_operator.Base.{
  String, Bool, true, not, ◌&&◌, Option, some, List, [], ◌∷◌, ◌==◌, string_eq, contains,
  if◌then◌else◌, Outcome, ok, err, panic, Action,
}
use lbconfig_operator.Api.{Labels, ExternalLoadBalancer}
use lbconfig_operator.Labels.{compute_labels, contains_labels}
use lbconfig_operator.Nodes.{KubeNode, has_node_changed}
use lbconfig_operator.Reconcile.{NamespacedName}

-- A `client.Object` under the type assertions of the code.
pub data Object : Type 0 where
  node : KubeNode → Object
  other : Object

abbrev pub request : ExternalLoadBalancer → NamespacedName
request lb = record { name = lb.name; namespace = lb.namespace }

abbrev pub matches : Option Labels → ExternalLoadBalancer → Bool
matches held lb = contains_labels held (some (compute_labels lb))

-- The loop over the load balancers; `seen` is the set `lbToReconcile`.
unfoldable pub enqueue :
    Option Labels → List ExternalLoadBalancer → List String → List NamespacedName
enqueue held [] seen = []
enqueue held (lb ∷ lbs) seen =
    let takes = matches held lb && not (contains seen lb.name) in
    let rest = enqueue held lbs (if takes then lb.name ∷ seen else seen) in
    if takes then request lb ∷ rest else rest

module _ {S : Type 0} where
  abbrev enqueue_for :
      Object → Outcome (List ExternalLoadBalancer) × S → Outcome (List NamespacedName) × S
  enqueue_for obj (err e, s) = (ok [], s)
  enqueue_for obj (panic, s) = (panic, s)
  enqueue_for other (ok items, s) = (ok [], s)
  enqueue_for (node n) (ok items, s) = (ok (enqueue n.labels items []), s)

  -- The map function of `EnqueueRequestsFromMapFunc`, over the client's `List`.
  unfoldable pub map_node :
      Action S (List ExternalLoadBalancer) → Object → Action S (List NamespacedName)
  unfolding enqueue
  map_node list_balancers obj s = enqueue_for obj (list_balancers s)

-- `UpdateFunc`. The assertion on the old object is not checked.
unfoldable pub update_filter : Object → Object → Outcome Bool
update_filter old other = ok true
update_filter other (node n) = panic
update_filter (node o) (node n) = ok (has_node_changed o n)

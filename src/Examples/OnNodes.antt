-- ===== src/Examples/OnNodes.antt =====
-- Labels, nodes and the watch of nodes, with the inputs of internal/controller/utility_functions_test.go.
use lbconfig_operator.Base.{
  String, ◌≡◌, ◌≢◌, ◌↔◌, refl, true, false, none, some, [], ◌∷◌, string_eq, contains, map, arith,
}
use lbconfig_operator.Base.Dict.{lookup, NodupKeys, deep_equal}
use lbconfig_operator.Api.{Labels, ExternalLoadBalancer}
use lbconfig_operator.Labels.{copy_labels, compute_labels, read, has_key, common, contains_labels}
use lbconfig_operator.Labels.Laws.{wanted_label, lookup-compute_labels, contains_labels_iff}
use lbconfig_operator.Nodes.{
  any_ready, collect_ips, get_node_ip, ready_status, has_node_changed, select_nodes,
}
use lbconfig_operator.Nodes.Laws.{
  last_address, address_spec, AllOneReady, ready_nodes, get_node_ip_lem, has_node_changed_iff,
  select_nodes-ready,
}
use lbconfig_operator.Watch.{enqueue}
use lbconfig_operator.Watch.Laws.{
  names_matching, all_matching, request_names, NodupTexts, enqueue-names, enqueue-all_matching,
}
use lbconfig_operator.Examples.Sample.{balancer, kube_node, kube_nodes}

abbrev worker : Labels
worker = ("node-role.kubernetes.io/worker", "") ∷ []

abbrev routers : ExternalLoadBalancer
routers = record balancer {
  name = "routers";
  spec = record balancer.spec { type = "infra"; node_labels = some (("zone", "a") ∷ []) };
}

-- A role and a listed label give two labels.
test_compute_labels :
    compute_labels routers ≡ ("node-role.kubernetes.io/infra", "") ∷ ("zone", "a") ∷ []
unfolding compute_labels copy_labels string_eq
test_compute_labels = refl

-- The values of the node's labels are not compared.
test_contains_labels :
    contains_labels (some (("zone", "b") ∷ [])) (some (("zone", "a") ∷ [])) ≡ true
unfolding contains_labels common string_eq deep_equal
test_contains_labels = refl

test_get_node_ip : get_node_ip (kube_node "node1" "10.0.0.1") ≡ "10.0.0.1"
unfolding get_node_ip any_ready collect_ips string_eq
test_get_node_ip = refl

lookup-compute_labels_example :
    ((k : String) → lookup k (compute_labels routers) ≡ wanted_label routers k)
    × NodupKeys (compute_labels routers)
lookup-compute_labels_example = lookup-compute_labels routers (refl, tt)

contains_labels_iff_example :
    (contains_labels (some worker) (some worker) ≡ true)
    ↔ ((k : String) → lookup k worker ≢ none → read k (some worker) ≢ none)
contains_labels_iff_example = contains_labels_iff (some worker) worker (refl, tt)

same_keys :
    (k : String) → has_key k (some (("zone", "a") ∷ [])) ≡ has_key k (some (("zone", "b") ∷ []))
same_keys k = ground arith

get_node_ip_lem_example :
    get_node_ip (kube_node "node1" "10.0.0.1")
    ≡ address_spec
        (any_ready (kube_node "node1" "10.0.0.1").conditions)
        (last_address "ExternalIP" (kube_node "node1" "10.0.0.1").addresses none)
        (last_address "InternalIP" (kube_node "node1" "10.0.0.1").addresses none)
get_node_ip_lem_example = get_node_ip_lem (kube_node "node1" "10.0.0.1")

has_node_changed_iff_example :
    (has_node_changed (kube_node "node1" "10.0.0.1") (kube_node "node1" "10.0.0.2") ≡ false) ↔ (
      (ready_status (kube_node "node1" "10.0.0.1").conditions ""
        ≡ ready_status (kube_node "node1" "10.0.0.2").conditions "")
      × (get_node_ip (kube_node "node1" "10.0.0.1") ≡ get_node_ip (kube_node "node1" "10.0.0.2"))
      × ((k : String) → lookup k worker ≡ lookup k worker))
has_node_changed_iff_example =
    has_node_changed_iff (kube_node "node1" "10.0.0.1") (kube_node "node1" "10.0.0.2") worker worker
      refl refl (refl, tt) (refl, tt)

one_ready_each : AllOneReady kube_nodes
unfolding string_eq any_ready
one_ready_each = (refl, (refl, tt))

select_nodes-ready_example : select_nodes worker kube_nodes ≡ ready_nodes worker kube_nodes
select_nodes-ready_example = select_nodes-ready worker kube_nodes one_ready_each

enqueue-names_example :
    NodupTexts (request_names (enqueue (some worker) (balancer ∷ routers ∷ balancer ∷ []) []))
    × ((k : String)
        → contains (request_names (enqueue (some worker) (balancer ∷ routers ∷ balancer ∷ []) [])) k
          ≡ names_matching (some worker) (balancer ∷ routers ∷ balancer ∷ []) k)
enqueue-names_example = enqueue-names (some worker) (balancer ∷ routers ∷ balancer ∷ [])

distinct_names : NodupTexts (map (λ lb. lb.name) (balancer ∷ routers ∷ []))
unfolding string_eq
distinct_names = (refl, (refl, tt))

enqueue-all_matching_example :
    enqueue (some worker) (balancer ∷ routers ∷ []) []
    ≡ all_matching (some worker) (balancer ∷ routers ∷ [])
enqueue-all_matching_example =
    enqueue-all_matching (some worker) (balancer ∷ routers ∷ []) distinct_names

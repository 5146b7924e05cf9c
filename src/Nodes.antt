-- ===== src/Nodes.antt =====
-- The nodes of the cluster: `getNodeIP` and `hasNodeChanged` of
-- internal/controller/utility_functions.go, and the loop of `Reconcile` that selects the ready
-- nodes. `KubeNode` has the fields of corev1.Node that the code reads.
pub mod Laws
use lbconfig_operator.Base.{
  String, Bool, true, false, not, ◌&&◌, ◌||◌, Option, none, some, List, [], ◌∷◌, ◌++◌, ◌==◌,
  string_eq, if◌then◌else◌,
}
use lbconfig_operator.Base.Dict.{Dict, lookup, insert, deep_equal}
use lbconfig_operator.Api.{Labels, Node}

pub record NodeCondition : Type 0 where
  pub type : String
  pub status : String

pub record NodeAddress : Type 0 where
  pub type : String
  pub address : String

pub record KubeNode : Type 0 where
  pub name : String
  pub labels : Option Labels
  pub conditions : List NodeCondition
  pub addresses : List NodeAddress

abbrev pub is_ready : NodeCondition → Bool
is_ready cond = cond.type == "Ready" && cond.status == "True"

-- `nodeReady`
unfoldable pub any_ready : List NodeCondition → Bool
any_ready [] = false
any_ready (cond ∷ conds) = is_ready cond || any_ready conds

-- The loop over the addresses, which fills `nodeIPs` if the node is ready.
unfoldable pub collect_ips : Bool → List NodeAddress → Dict String → Dict String
collect_ips ready [] ips = ips
collect_ips ready (addr ∷ addrs) ips =
    collect_ips ready addrs (if ready then insert addr.type addr.address ips else ips)

abbrev pub or_empty : Option String → String
or_empty none = ""
or_empty (some v) = v

abbrev pub preferred_ip : Dict String → String
preferred_ip ips = elim (lookup "ExternalIP" ips) [
  | some v ↦ v
  | none ↦ or_empty (lookup "InternalIP" ips)
]

unfoldable pub get_node_ip : KubeNode → String
unfolding any_ready collect_ips
get_node_ip node = preferred_ip (collect_ips (any_ready node.conditions) node.addresses [])

-- The loops for `oldCond` and `newCond`: the status of the last `Ready` condition.
unfoldable pub ready_status : List NodeCondition → String → String
ready_status [] found = found
ready_status (cond ∷ conds) found =
    ready_status conds (if cond.type == "Ready" then cond.status else found)

unfoldable pub has_node_changed : KubeNode → KubeNode → Bool
has_node_changed o n = not (
    ready_status o.conditions "" == ready_status n.conditions ""
    && get_node_ip o == get_node_ip n
    && deep_equal o.labels n.labels)

-- `Reconcile` appends the node once for each condition that says it is ready.
unfoldable pub select_node : Labels → KubeNode → List NodeCondition → List Node
select_node labels n [] = []
select_node labels n (cond ∷ conds) =
    let rest = select_node labels n conds in
    if is_ready cond
    then record { name = n.name; host = get_node_ip n; labels = some labels } ∷ rest
    else rest

unfoldable pub select_nodes : Labels → List KubeNode → List Node
unfolding select_node
select_nodes labels [] = []
select_nodes labels (n ∷ items) = select_node labels n n.conditions ++ select_nodes labels items

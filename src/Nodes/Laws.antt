-- ===== src/Nodes/Laws.antt =====
-- Which address a node gets, which updates are let through, and which nodes are selected.
use lbconfig_operator.Base.{
  String, ◌≡◌, ◌↔◌, refl, ap, ◌∙◌, Bool, true, false, not, Option, none, some, List, [], ◌∷◌, arith,
  ◌==◌, string_eq, if◌then◌else◌, Bool-cases, inl, inr,
}
use lbconfig_operator.Base.Dict.{
  Dict, lookup, insert, NodupKeys, lookup-insert, deep_equal_iff, deep_equal_comm,
}
use lbconfig_operator.Api.{Labels, Node}
use lbconfig_operator.Nodes.{
  NodeCondition, NodeAddress, KubeNode, is_ready, any_ready, collect_ips, or_empty, preferred_ip,
  get_node_ip, ready_status, has_node_changed, select_node, select_nodes,
}

-- The last address of a type.
abbrev pub last_address : String → List NodeAddress → Option String → Option String
last_address type [] found = found
last_address type (a ∷ addrs) found =
    last_address type addrs (if type == a.type then some a.address else found)

abbrev pub address_spec : Bool → Option String → Option String → String
address_spec false external internal = ""
address_spec true (some ip) internal = ip
address_spec true none internal = or_empty internal

lookup-collect_ips :
    (addrs : List NodeAddress) (ips : Dict String) (type : String)
    → lookup type (collect_ips true addrs ips) ≡ last_address type addrs (lookup type ips)
unfolding collect_ips
lookup-collect_ips [] ips type = refl
lookup-collect_ips (a ∷ addrs) ips type =
    lookup-collect_ips addrs (insert a.type a.address ips) type
    ∙ ap (last_address type addrs) (lookup-insert type a.type a.address ips)

collect_ips_unready :
    (addrs : List NodeAddress) (ips : Dict String) → collect_ips false addrs ips ≡ ips
unfolding collect_ips
collect_ips_unready [] ips = refl
collect_ips_unready (a ∷ addrs) ips = collect_ips_unready addrs ips

preferred_ip_lem :
    (ips : Dict String)
    → preferred_ip ips ≡ address_spec true (lookup "ExternalIP" ips) (lookup "InternalIP" ips)
preferred_ip_lem ips = ground arith

-- A node with no condition that says it is ready has the empty address. A ready node has its last
-- external address, if it has one, else its last internal address, and else the empty one.
pub get_node_ip_lem :
    (n : KubeNode)
    → get_node_ip n
      ≡ address_spec
          (any_ready n.conditions)
          (last_address "ExternalIP" n.addresses none)
          (last_address "InternalIP" n.addresses none)
unfolding get_node_ip
get_node_ip_lem n = elim (Bool-cases (any_ready n.conditions)) [
  | inl e ↦ rw e (
      preferred_ip_lem (collect_ips true n.addresses []) ∙ λ i.
      address_spec true (lookup-collect_ips n.addresses [] "ExternalIP" i)
        (lookup-collect_ips n.addresses [] "InternalIP" i))
  | inr e ↦ rw (e, collect_ips_unready) refl
]

-- For two states of a node whose labels are not nil and have no key twice, `hasNodeChanged` is false
-- exactly if the status of the last `Ready` condition, the address and the labels are the same.
pub has_node_changed_iff :
    (o n : KubeNode) (a b : Labels)
    → o.labels ≡ some a
    → n.labels ≡ some b
    → NodupKeys a
    → NodupKeys b
    → (has_node_changed o n ≡ false) ↔ (
        (ready_status o.conditions "" ≡ ready_status n.conditions "")
        × (get_node_ip o ≡ get_node_ip n)
        × ((k : String) → lookup k a ≡ lookup k b))
unfolding has_node_changed
has_node_changed_iff o n a b p q ua ub =
    rw (p, q)
      (
        λ h.
            let same = (deep_equal_iff a b ua ub).0 (ground arith) in
            (ground arith, ground arith, same),
        λ (c, ip, labels). let same = (deep_equal_iff a b ua ub).1 labels in ground arith,
      )

-- Whether a node has changed does not depend on which of the two states is the old one.
has_node_changed_comm : (o n : KubeNode) → has_node_changed o n ≡ has_node_changed n o
unfolding has_node_changed
has_node_changed_comm o n = ground (arith, deep_equal_comm o.labels n.labels)

-- No two conditions say that the node is ready. Kubernetes keeps one condition of each type.
abbrev pub one_ready : List NodeCondition → Bool
one_ready [] = true
one_ready (c ∷ conds) = if is_ready c then not (any_ready conds) else one_ready conds

abbrev pub AllOneReady : List KubeNode → Type 0
AllOneReady [] = Unit
AllOneReady (n ∷ items) = (one_ready n.conditions ≡ true) × AllOneReady items

-- The ready nodes, in order, each once.
abbrev pub ready_nodes : Labels → List KubeNode → List Node
ready_nodes labels [] = []
ready_nodes labels (n ∷ items) =
    let rest = ready_nodes labels items in
    if any_ready n.conditions
    then record { name = n.name; host = get_node_ip n; labels = some labels } ∷ rest
    else rest

select_node_unready :
    (labels : Labels) (n : KubeNode) (conds : List NodeCondition)
    → any_ready conds ≡ false
    → select_node labels n conds ≡ []
unfolding select_node any_ready
select_node_unready labels n [] h = refl
select_node_unready labels n (c ∷ conds) h = ground (arith, select_node_unready labels n conds)

select_node_lem :
    (labels : Labels) (n : KubeNode) (conds : List NodeCondition)
    → one_ready conds ≡ true
    → select_node labels n conds ≡ (
        if any_ready conds
        then record { name = n.name; host = get_node_ip n; labels = some labels } ∷ []
        else [])
unfolding select_node any_ready
select_node_lem labels n [] h = refl
select_node_lem labels n (c ∷ conds) h =
    ground (arith, select_node_lem labels n conds, select_node_unready labels n conds)

-- If no node has two conditions that say it is ready, `Reconcile` selects exactly the ready nodes,
-- each once and in the order of the list, with the address of `getNodeIP` and the computed labels.
pub select_nodes-ready :
    (labels : Labels) (items : List KubeNode)
    → AllOneReady items
    → select_nodes labels items ≡ ready_nodes labels items
unfolding select_nodes
select_nodes-ready labels [] h = refl
select_nodes-ready labels (n ∷ items) (one, h) =
    rw (select_node_lem labels n n.conditions one, select_nodes-ready labels items h) (ground arith)

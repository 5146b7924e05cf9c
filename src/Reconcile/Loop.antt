-- ===== src/Reconcile/Loop.antt =====
-- `Reconcile`, `finalizeLoadBalancer` and `addFinalizer`.
use lbconfig_operator.Base.{
  String, ◌<>◌, Bool, ◌&&◌, Option, none, some, List, ◌==◌, string_eq, contains, if◌then◌else◌,
  errorf, Action, pure, raise, ◌>>=◌, ◌>>◌, wrap,
}
use lbconfig_operator.Base.Dict.{Dict, lookup}
use lbconfig_operator.Api.{
  Labels, Monitor, Node, Pool, Vip, ExternalLoadBalancer, ExternalLoadBalancerStatus,
}
use lbconfig_operator.Backend.{Backend}
use lbconfig_operator.Backend.Handle.{handle_monitors, handle_cleanup}
use lbconfig_operator.Labels.{compute_labels}
use lbconfig_operator.Nodes.{select_nodes, or_empty}
use lbconfig_operator.Registry.{Registry, create_backend}
use lbconfig_operator.Reconcile.{
  NamespacedName, Cluster, finalizer, length, metric_key, monitor_for, find, refresh, handle_pools,
  handle_vips,
}

-- `lb.Spec.Type == "" && lb.Spec.NodeLabels == nil`
abbrev pub is_unselective : ExternalLoadBalancer → Bool
is_unselective lb =
    lb.spec.type == "" && (elim lb.spec.node_labels [ none ↦ Bool.true | some _ ↦ Bool.false ])

abbrev pub status_of :
    ExternalLoadBalancer
    → List Vip
    → Monitor
    → List Node
    → List Pool
    → Labels
    → ExternalLoadBalancerStatus
status_of lb vips monitor nodes pools labels = record {
  vips = vips;
  ports = lb.spec.ports;
  monitor = monitor;
  nodes = nodes;
  pools = pools;
  provider = lb.spec.provider;
  labels = some labels;
  num_nodes = length nodes;
}

-- From `Connect` to `Close`: the monitor, the pools and the VIPs.
unfoldable pub configure :
    {S : Type 0} → Backend S → ExternalLoadBalancer → List Node → Action S (List Pool × List Vip)
configure b lb nodes = do
  b.connect
  wrap (λ e. "unable to handle ExternalLoadBalancer monitors: " <> e)
      (handle_monitors b (monitor_for lb))
  pools ← handle_pools b lb nodes (monitor_for lb) lb.spec.ports
  vips ← handle_vips b lb lb.spec.ports
  b.close
  pure (pools, vips)

module _ {S : Type 0} (c : Cluster S) where
  unfoldable pub finalize_load_balancer : Backend S → ExternalLoadBalancer → Action S (Unit {0})
  finalize_load_balancer b lb = do
    b.connect
    handle_cleanup b lb
    b.close
    c.delete_nodes (metric_key lb)

  unfoldable pub add_finalizer : ExternalLoadBalancer → Action S (Unit {0})
  add_finalizer lb = c.update (c.add_finalizer finalizer lb) >> pure tt

  -- The end of `Reconcile`, from the test of the deletion timestamp.
  unfoldable pub finish : Backend S → ExternalLoadBalancer → Action S (Unit {0})
  finish b lb =
      if lb.deleting
      then (if contains lb.finalizers finalizer
          then finalize_load_balancer b lb
            >> (c.update (c.remove_finalizer finalizer lb) >> pure tt)
          else pure tt)
      else if contains lb.finalizers finalizer
      then pure tt
      else add_finalizer lb

  -- The fresh read and the update of the status. A failed read leaves the object that the loop has.
  unfoldable pub save_status :
      NamespacedName
      → ExternalLoadBalancer
      → List Vip
      → List Node
      → List Pool
      → Labels
      → Action S ExternalLoadBalancer
  save_status req lb vips nodes pools labels = do
    fresh ←
        refresh (record lb { spec = record lb.spec { monitor = monitor_for lb } })
          (c.get_balancer req)
    c.update_status
        (record fresh { status = status_of fresh vips (monitor_for lb) nodes pools labels })

  unfoldable pub reconcile_on :
      NamespacedName → ExternalLoadBalancer → List Node → Labels → Backend S → Action S (Unit {0})
  reconcile_on req lb nodes labels b = do
    (pools, vips) ← configure b lb nodes
    saved ← save_status req lb vips nodes pools labels
    finish b saved

  module _ (providers : Registry S) (req : NamespacedName) where
    -- From the nodes on, with the secret's data.
    unfoldable pub reconcile_selected : ExternalLoadBalancer → Dict String → Action S (Unit {0})
    reconcile_selected lb secret = do
      let labels = compute_labels lb
      items ← c.list_nodes labels
      let nodes = select_nodes labels items
      c.set_nodes (metric_key lb) (length nodes)
      b ←
          create_backend providers lb.spec.provider (or_empty (lookup "username" secret))
            (or_empty (lookup "password" secret))
      reconcile_on req lb nodes labels b

    abbrev pub check_selection : ExternalLoadBalancer → Action S (Unit {0}) → Action S (Unit {0})
    check_selection lb rest =
        if is_unselective lb
        then raise (errorf "undefined loadbalancer type or no nodelabels defined")
        else rest

    -- `Reconcile` on what the read of the load balancer found, from the credentials on.
    unfoldable pub reconcile_found : Option ExternalLoadBalancer → Action S (Unit {0})
    reconcile_found none = pure tt
    reconcile_found (some lb) = do
      secret ←
          wrap (λ e. "provider credentials secret not found " <> e)
            (c.get_secret (record { name = lb.spec.provider.creds; namespace = lb.namespace }))
      check_selection lb (reconcile_selected lb secret)

    unfoldable pub reconcile : Action S (Unit {0})
    reconcile = do
      items ← wrap (λ e. "failed to list ExternalLoadBalancers: " <> e) c.list_balancers
      c.set_balancers (length items)
      found ← find (c.get_balancer req)
      reconcile_found found

-- ===== src/Reconcile/Settled.antt =====
-- A run of `Reconcile` of externalloadbalancer_controller.go for a load balancer that is served
-- already.
use lbconfig_operator.Base.{String, ◌≡◌, refl, sym, subst, ◌∙◌, false, some, List, map, to_lower}
use lbconfig_operator.Base.Dict.{Dict, lookup}
use lbconfig_operator.Api.{ExternalLoadBalancer}
use lbconfig_operator.Backend.{Backend}
use lbconfig_operator.Backend.Device.{Device, Does, Does-bind, Does-cast}
use lbconfig_operator.Labels.{compute_labels}
use lbconfig_operator.Nodes.{KubeNode, select_nodes}
use lbconfig_operator.Registry.{Registry}
use lbconfig_operator.Reconcile.{NamespacedName, Cluster, monitor_for, pool_for, vip_for}
use lbconfig_operator.Reconcile.Loop.{
  is_unselective, configure, save_status, finish, reconcile_on, reconcile,
}
use lbconfig_operator.Reconcile.Configure.{ProviderLaws, Suits, Configured}
use lbconfig_operator.Reconcile.Served.{Serves, reconcile-Does}
use lbconfig_operator.Reconcile.Again.{configure-again}
use lbconfig_operator.Reconcile.Whole.{saved, Does-save, Does-finish}

module _ {S : Type 0} (view : S → Device) (c : Cluster S) (providers : Registry S)
    (req : NamespacedName) (lb : ExternalLoadBalancer) (items : List KubeNode)
    (secret : Dict String) (serves : Serves view c req lb items secret) (b : Backend S)
    (laws : ProviderLaws view b)
    (registered : lookup (to_lower lb.spec.provider.vendor) providers ≡ some b)
    (selective : is_unselective lb ≡ false) where
  -- For a load balancer that the cluster serves and that is not being deleted, with a registered
  -- vendor whose provider and device obey the laws, with a type or node labels, and with a device
  -- that already holds what a run of `Reconcile` leaves, as objects that the provider can bring to
  -- what is wanted, a run returns no error and changes nothing on the device.
  pub reconcile-settled :
      (before : Device) (s : S)
      → lb.deleting ≡ false
      → Suits view b laws lb (select_nodes (compute_labels lb) items) (view s)
      → Configured lb (select_nodes (compute_labels lb) items) before (view s)
      → Does view (reconcile c providers req) s tt (view s)
  unfolding reconcile_on
  reconcile-settled before s stays suits holds =
      let nodes = select_nodes (compute_labels lb) items in
      let (d, does, e) =
        reconcile-Does view c providers req lb items secret serves b laws registered selective s
          (λ d. d ≡ view s)
          λ t same.
            let pools = map (pool_for lb nodes (monitor_for lb)) lb.spec.ports in
            let held = subst (Configured lb nodes before) (sym same) holds in
            let configured =
              configure-again view b laws lb nodes before t
                (subst (Suits view b laws lb nodes) (sym same) suits) held in
            let t1 = (configure b lb nodes t).1 in
            let save =
              save_status c req lb (map (vip_for lb) lb.spec.ports) nodes pools
                (compute_labels lb) in
            let kept = Does-save view c providers req lb items secret serves b laws pools t1 in
            let t2 = (save t1).1 in
            let x = saved view c providers req lb items secret serves b laws pools in
            let last =
              Does-cast view (finish c b x) t2 (kept.leaves ∙ configured.leaves ∙ same)
                (Does-finish view c providers req lb items secret serves b laws x t2 stays) in
            (
              view s,
              Does-bind view (configure b lb nodes) _ t configured
                  (Does-bind view save _ t1 kept last),
              refl,
            ) in
      Does-cast view (reconcile c providers req) s e does

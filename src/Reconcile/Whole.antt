-- ===== src/Reconcile/Whole.antt =====
-- The whole of `Reconcile` of externalloadbalancer_controller.go, for a load balancer that stays.
use lbconfig_operator.Base.{
  String, ◌≡◌, refl, sym, subst, ◌∙◌, false, some, List, map, string_eq, contains, to_lower,
  Bool-cases, inl, inr,
}
use lbconfig_operator.Base.Dict.{Dict, lookup}
use lbconfig_operator.Api.{Pool, ExternalLoadBalancer}
use lbconfig_operator.Backend.{Backend}
use lbconfig_operator.Backend.Device.{Device, Does, Does-bind, Does-cast, Does-return, Unique}
use lbconfig_operator.Labels.{compute_labels}
use lbconfig_operator.Nodes.{KubeNode, select_nodes}
use lbconfig_operator.Registry.{Registry}
use lbconfig_operator.Reconcile.{NamespacedName, Cluster, finalizer, monitor_for, vip_for, refresh}
use lbconfig_operator.Reconcile.Loop.{
  is_unselective, status_of, configure, save_status, finish, add_finalizer, reconcile_on, reconcile,
}
use lbconfig_operator.Reconcile.Pools.{NodupHosts}
use lbconfig_operator.Reconcile.Configure.{ProviderLaws, Suits, Configured, configure-Configured}
use lbconfig_operator.Reconcile.Served.{Serves, reconcile-Does}

module _ {S : Type 0} (view : S → Device) (c : Cluster S) (providers : Registry S)
    (req : NamespacedName) (lb : ExternalLoadBalancer) (items : List KubeNode)
    (secret : Dict String) (serves : Serves view c req lb items secret) (b : Backend S)
    (laws : ProviderLaws view b) where
  -- The object that `Reconcile` saves.
  abbrev pub saved : List Pool → ExternalLoadBalancer
  saved pools =
      let nodes = select_nodes (compute_labels lb) items in
      record lb {
        status =
            status_of lb (map (vip_for lb) lb.spec.ports) (monitor_for lb) nodes pools
              (compute_labels lb);
      }

  Does-refresh :
      (old : ExternalLoadBalancer) (s : S)
      → Does view (refresh old (c.get_balancer req)) s lb (view s)
  Does-refresh old s =
      let h = serves.get_balancer s in
      record { returns = rw h.returns refl; leaves = rw h.returns h.leaves }

  pub Does-save :
      (pools : List Pool) (s : S)
      → Does view
          (save_status c req lb
            (map (vip_for lb) lb.spec.ports)
            (select_nodes (compute_labels lb) items)
            pools
            (compute_labels lb))
          s
          (saved pools)
          (view s)
  unfolding save_status
  Does-save pools s =
      let read = refresh _ (c.get_balancer req) in
      let got = Does-refresh _ s in
      let t = (read s).1 in
      Does-bind view read _ s got
        (Does-cast view _ t got.leaves (serves.update_status (saved pools) t))

  pub Does-finish :
      (x : ExternalLoadBalancer) (s : S)
      → x.deleting ≡ false
      → Does view (finish c b x) s tt (view s)
  unfolding finish add_finalizer
  Does-finish x s stays = elim (Bool-cases (contains x.finalizers finalizer)) [
    | inl held ↦ simp (stays, held) (record { returns = refl; leaves = refl })
    | inr new ↦
        simp (stays, new)
          (Does-return view (c.update (c.add_finalizer finalizer x)) s tt
            (serves.update (c.add_finalizer finalizer x) s))
  ]

  module _ (registered : lookup (to_lower lb.spec.provider.vendor) providers ≡ some b)
      (selective : is_unselective lb ≡ false)
      (hosts : NodupHosts (select_nodes (compute_labels lb) items)) where
    -- For a load balancer that the cluster serves and that is not being deleted, with a registered
    -- vendor whose provider and device obey the laws, with a type or node labels, with selected nodes
    -- of distinct hosts, and with a device on which no pool has a member twice and whose objects under
    -- the load balancer's names the provider can bring to what is wanted, `Reconcile` returns no
    -- error. Afterwards the device holds its monitor and, for each port, its pool with exactly the
    -- selected nodes and its virtual server; all else on the device is unchanged.
    pub reconcile-Configured :
        (s : S)
        → lb.deleting ≡ false
        → Suits view b laws lb (select_nodes (compute_labels lb) items) (view s)
        → Unique (view s)
        → (d : Device) × Does view (reconcile c providers req) s tt d
          × Configured lb (select_nodes (compute_labels lb) items) (view s) d
    unfolding reconcile_on
    reconcile-Configured s stays suits u =
        reconcile-Does view c providers req lb items secret serves b laws registered selective s _
          λ t same.
            let nodes = select_nodes (compute_labels lb) items in
            let (pools, d, configured, names, holds) =
              configure-Configured view b laws lb nodes t hosts
                (subst (Suits view b laws lb nodes) (sym same) suits) (subst Unique (sym same) u) in
            let t1 = (configure b lb nodes t).1 in
            let save =
              save_status c req lb (map (vip_for lb) lb.spec.ports) nodes pools
                (compute_labels lb) in
            let kept = Does-save pools t1 in
            let t2 = (save t1).1 in
            let last =
              Does-cast view _ t2 (kept.leaves ∙ configured.leaves)
                (Does-finish (saved pools) t2 stays) in
            (
              d,
              Does-bind view (configure b lb nodes) _ t configured
                  (Does-bind view save _ t1 kept last),
              subst (λ before. Configured lb nodes before d) same holds,
            )

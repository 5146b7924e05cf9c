-- ===== src/Reconcile/Served.antt =====
-- `Reconcile` up to the provider's session, for a load balancer that the cluster serves.
use lbconfig_operator.Base.{String, ◌<>◌, ℕ, ◌≡◌, refl, ◌∙◌, false, some, List, wrap, to_lower}
use lbconfig_operator.Base.Dict.{Dict, lookup}
use lbconfig_operator.Api.{Labels, ExternalLoadBalancer}
use lbconfig_operator.Backend.{Backend}
use lbconfig_operator.Backend.Device.{Device, Does, Does-bind, Does-seq, Does-return, Does-wrap}
use lbconfig_operator.Labels.{compute_labels}
use lbconfig_operator.Nodes.{KubeNode, select_nodes, or_empty}
use lbconfig_operator.Registry.{Registry, create_backend}
use lbconfig_operator.Reconcile.{NamespacedName, MetricKey, Cluster, length, metric_key, find}
use lbconfig_operator.Reconcile.Loop.{
  is_unselective, reconcile_on, reconcile_selected, reconcile_found, reconcile,
}
use lbconfig_operator.Reconcile.Configure.{ProviderLaws}

-- The cluster answers every call for the load balancer `lb`, with these nodes and this secret, and
-- no call of its client touches the device. The server's answer to an update is the object sent.
pub record Serves {S : Type 0} (view : S → Device) (c : Cluster S) (req : NamespacedName)
    (lb : ExternalLoadBalancer) (items : List KubeNode) (secret : Dict String) : Type 0 where
  pub balancers : List ExternalLoadBalancer
  pub list_balancers : (s : S) → Does view c.list_balancers s balancers (view s)
  pub get_balancer : (s : S) → Does view (c.get_balancer req) s lb (view s)
  pub get_secret :
      (s : S)
      → Does view
          (c.get_secret (record { name = lb.spec.provider.creds; namespace = lb.namespace }))
          s
          secret
          (view s)
  pub list_nodes : (s : S) → Does view (c.list_nodes (compute_labels lb)) s items (view s)
  pub update_status :
      (x : ExternalLoadBalancer) (s : S) → Does view (c.update_status x) s x (view s)
  pub update : (x : ExternalLoadBalancer) (s : S) → Does view (c.update x) s x (view s)
  pub set_balancers : (n : ℕ) (s : S) → Does view (c.set_balancers n) s tt (view s)
  pub set_nodes : (k : MetricKey) (n : ℕ) (s : S) → Does view (c.set_nodes k n) s tt (view s)
  pub delete_nodes : (k : MetricKey) (s : S) → Does view (c.delete_nodes k) s tt (view s)

module _ {S : Type 0} (view : S → Device) (c : Cluster S) (providers : Registry S)
    (req : NamespacedName) (lb : ExternalLoadBalancer) (items : List KubeNode)
    (secret : Dict String) (serves : Serves view c req lb items secret) (b : Backend S)
    (laws : ProviderLaws view b)
    (registered : lookup (to_lower lb.spec.provider.vendor) providers ≡ some b)
    (selective : is_unselective lb ≡ false) where
  Does-find : (s : S) → Does view (find (c.get_balancer req)) s (some lb) (view s)
  Does-find s =
      let h = serves.get_balancer s in
      record { returns = rw h.returns refl; leaves = rw h.returns h.leaves }

  Does-create_backend :
      (user password : String) (s : S)
      → Does view (create_backend providers lb.spec.provider user password) s b (view s)
  unfolding create_backend
  Does-create_backend user password s =
      rw (registered, create_backend)
        (Does-return view (b.create lb.spec.provider user password) s b
          (laws.create lb.spec.provider user password s))

  module _ (s : S) (P : Device → Type 0) where
    abbrev labels : Labels
    labels = compute_labels lb

    selected_on :
        (t : S)
        → view t ≡ view s
        → ((u : S)
            → view u ≡ view s
            → (d : Device) × Does view
                (reconcile_on c req lb (select_nodes labels items) labels b)
                u
                tt
                d
              × P d)
        → (d : Device) × Does view (reconcile_selected c providers req lb secret) t tt d × P d
    unfolding reconcile_selected
    selected_on t same k =
        let nodes = select_nodes labels items in
        let user = or_empty (lookup "username" secret) in
        let password = or_empty (lookup "password" secret) in
        let listed = serves.list_nodes t in
        let t1 = (c.list_nodes labels t).1 in
        let counted = serves.set_nodes (metric_key lb) (length nodes) t1 in
        let t2 = (c.set_nodes (metric_key lb) (length nodes) t1).1 in
        let made = Does-create_backend user password t2 in
        let t3 = (create_backend providers lb.spec.provider user password t2).1 in
        let (d, last, p) = k t3 (made.leaves ∙ counted.leaves ∙ listed.leaves ∙ same) in
        (
          d,
          Does-bind view (c.list_nodes labels) _ t listed (
              Does-seq view (c.set_nodes (metric_key lb) (length nodes)) _ t1 counted (
                Does-bind view (create_backend providers lb.spec.provider user password) _ t2 made
                  last)),
          p,
        )

    found_on :
        (t : S)
        → view t ≡ view s
        → ((u : S)
            → view u ≡ view s
            → (d : Device) × Does view
                (reconcile_on c req lb (select_nodes labels items) labels b)
                u
                tt
                d
              × P d)
        → (d : Device) × Does view (reconcile_found c providers req (some lb)) t tt d × P d
    unfolding reconcile_found
    found_on t same k =
        let text : String → String = λ e. "provider credentials secret not found " <> e in
        let read =
          wrap text
            (c.get_secret (record { name = lb.spec.provider.creds; namespace = lb.namespace })) in
        let got = Does-wrap view text _ t (serves.get_secret t) in
        let (d, last, p) = selected_on (read t).1 (got.leaves ∙ same) k in
        (d, Does-bind view read _ t got (rw selective last), p)

    -- What the session with the provider does, `Reconcile` does.
    pub reconcile-Does :
        ((u : S)
          → view u ≡ view s
          → (d : Device) × Does view
              (reconcile_on c req lb (select_nodes labels items) labels b)
              u
              tt
              d
            × P d)
        → (d : Device) × Does view (reconcile c providers req) s tt d × P d
    unfolding reconcile
    reconcile-Does k =
        let text : String → String = λ e. "failed to list ExternalLoadBalancers: " <> e in
        let read = wrap text c.list_balancers in
        let listed = Does-wrap view text c.list_balancers s (serves.list_balancers s) in
        let s1 = (read s).1 in
        let count = c.set_balancers (length serves.balancers) in
        let counted = serves.set_balancers (length serves.balancers) s1 in
        let s2 = (count s1).1 in
        let found = Does-find s2 in
        let s3 = (find (c.get_balancer req) s2).1 in
        let (d, last, p) = found_on s3 (found.leaves ∙ counted.leaves ∙ listed.leaves) k in
        (
          d,
          Does-bind view read _ s listed (
              Does-seq view count _ s1 counted
                (Does-bind view (find (c.get_balancer req)) _ s2 found last)),
          p,
        )

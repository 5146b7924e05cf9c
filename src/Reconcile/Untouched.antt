-- ===== src/Reconcile/Untouched.antt =====
-- What a run of `Reconcile` of externalloadbalancer_controller.go leaves alone, whatever happens in
-- it.
use lbconfig_operator.Base.{◌≡◌, refl, subst, ◌∙◌, sym, some, List, string_eq, ok, to_lower}
use lbconfig_operator.Base.Dict.{lookup}
use lbconfig_operator.Api.{Node, Labels, Pool, Vip, ExternalLoadBalancer}
use lbconfig_operator.Backend.{Backend}
use lbconfig_operator.Backend.Handle.{handle_cleanup}
use lbconfig_operator.Backend.Loops.{All}
use lbconfig_operator.Labels.{compute_labels}
use lbconfig_operator.Nodes.{select_nodes}
use lbconfig_operator.Registry.{Registry}
use lbconfig_operator.Reconcile.{NamespacedName, MetricKey, Cluster, metric_key, refresh}
use lbconfig_operator.Reconcile.Loop.{
  configure, finalize_load_balancer, finish, save_status, reconcile_on, reconcile,
}
use lbconfig_operator.Reconcile.Refused.{ClusterFrame}
use lbconfig_operator.Base.Keeps.{Keeps, Keeps-seq}
use lbconfig_operator.Base.Keeps.{Keeps-bind}
use lbconfig_operator.Reconcile.Isolated.{OwnPool, OwnVip, OwnFrame, configure-Keeps}
use lbconfig_operator.Reconcile.Cleaned.{OwnStatus, handle_cleanup-own}
use lbconfig_operator.Reconcile.Guarded.{
  CallsGuard, finish-Guards, save_status-Guards, reconcile-Guards,
}
use lbconfig_operator.Reconcile.Answers.{Answers, Answers-bind, configure-Answers}

-- The calls of the cluster leave what `view` shows, whether they succeed or not, and an update of
-- the status answers with the status that was sent.
pub record WorldFrame {S D : Type 0} (view : S → D) (c : Cluster S) : Type 0 where
  pub reads : ClusterFrame view c
  pub update_status : (x : ExternalLoadBalancer) → Keeps view (c.update_status x)
  pub update : (x : ExternalLoadBalancer) → Keeps view (c.update x)
  pub delete_nodes : (k : MetricKey) → Keeps view (c.delete_nodes k)
  pub answers :
      (x y : ExternalLoadBalancer) (s : S) → (c.update_status x s).0 ≡ ok y → y.status ≡ x.status

module _ {S D : Type 0} (view : S → D) where
  -- The value that `view` shows at a moment is an invariant from then on.
  world-CallsGuard : (c : Cluster S) → WorldFrame view c → (d : D) → CallsGuard (λ t. view t ≡ d) c
  world-CallsGuard c world d = record {
    list_balancers = λ s i. world.reads.list_balancers s ∙ i;
    get_balancer = λ r s i. world.reads.get_balancer r s ∙ i;
    get_secret = λ r s i. world.reads.get_secret r s ∙ i;
    list_nodes = λ l s i. world.reads.list_nodes l s ∙ i;
    update_status = λ x s i. (world.update_status x).kept s ∙ i;
    update = λ x s i. (world.update x).kept s ∙ i;
    set_balancers = λ n s i. world.reads.set_balancers n s ∙ i;
    set_nodes = λ k n s i. world.reads.set_nodes k n s ∙ i;
    delete_nodes = λ k s i. (world.delete_nodes k).kept s ∙ i;
  }

  module _ (b : Backend S) (lb : ExternalLoadBalancer) (frame : OwnFrame view lb b) where
    module _ (c : Cluster S) (world : WorldFrame view c) where
      finish-own : (x : ExternalLoadBalancer) → OwnStatus lb x.status → Keeps view (finish c b x)
      unfolding finalize_load_balancer
      finish-own x own =
          let finalized = Keeps-seq view b.connect _ frame.connect (
            Keeps-seq view (handle_cleanup b x) _ (handle_cleanup-own view b lb frame.calls x own) (
              Keeps-seq view b.close (c.delete_nodes (metric_key x)) frame.close
                (world.delete_nodes (metric_key x)))) in
          record {
            kept = λ s.
                finish-Guards (λ t. view t ≡ view s) c (world-CallsGuard c world (view s)) b x
                  (λ t i. finalized.kept t ∙ i) s refl;
          }

      module _ (req : NamespacedName) (nodes : List Node) (labels : Labels)
          (made : List Pool × List Vip) where
        save_status-own :
            All (OwnPool lb) made.0
            → All (OwnVip lb) made.1
            → Answers (λ x. OwnStatus lb x.status) (save_status c req lb made.1 nodes made.0 labels)
        unfolding save_status
        save_status-own pools vips =
            Answers-bind (λ x. OwnStatus lb x.status) (refresh _ (c.get_balancer req)) _
              λ fresh s e t y sent.
                subst (OwnStatus lb) (sym (world.answers _ y t sent)) (pools, vips, refl)

      reconcile_on-own :
          (req : NamespacedName) (nodes : List Node) (labels : Labels)
          → Keeps view (reconcile_on c req lb nodes labels b)
      unfolding reconcile_on
      reconcile_on-own req nodes labels =
          Keeps-bind view (configure b lb nodes) _ (configure-Keeps view b lb frame nodes)
            λ made s e.
              let (pools, vips) = configure-Answers view b lb frame.calls nodes s made e in
              Keeps-bind view (save_status c req lb made.1 nodes made.0 labels) _
                (record {
                  kept = λ t.
                      save_status-Guards (λ u. view u ≡ view t) c
                        (world-CallsGuard c world (view t)) req lb made.1 nodes made.0 labels t
                        refl;
                })
                λ x s2 e2. finish-own x (save_status-own req nodes labels made pools vips s2 x e2)

  module _ (c : Cluster S) (world : WorldFrame view c) (providers : Registry S)
      (req : NamespacedName) where
    -- A provider that is registered for the load balancer's vendor leaves what `view` shows, unless
    -- it writes an object under a name of the load balancer.
    abbrev pub VendorFrame : ExternalLoadBalancer → Type 0
    VendorFrame lb =
        (b : Backend S)
        → lookup (to_lower lb.spec.provider.vendor) providers ≡ some b
        → OwnFrame view lb b

    pub reconcile-untouched :
        ((t : S) (lb : ExternalLoadBalancer) → (c.get_balancer req t).0 ≡ ok lb → VendorFrame lb)
        → (s : S) → view (reconcile c providers req s).1 ≡ view s
    reconcile-untouched all s =
        reconcile-Guards (λ t. view t ≡ view s) c (world-CallsGuard c world (view s)) providers req
          (λ t lb h b found.
            let own = all t lb h b found in
            record {
              create = λ p user password u i. (own.create p user password).kept u ∙ i;
              run = λ items u listed v i.
                  (reconcile_on-own b lb own c world req (select_nodes (compute_labels lb) items)
                      (compute_labels lb)).kept
                    v
                  ∙ i;
            })
          s refl

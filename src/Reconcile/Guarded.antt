-- ===== src/Reconcile/Guarded.antt =====
-- What every run of `Reconcile` of externalloadbalancer_controller.go leaves true: an invariant of
-- the world that the calls of the cluster and the sessions with the providers leave true.
use lbconfig_operator.Base.{
  String, contains, string_eq, Bool, true, false, if◌then◌else◌, ◌≡◌, Bool-cases, Option, none,
  some, List, inl, inr, ℕ, Outcome, ok, err, panic, Action, pure, ◌>>=◌, ◌>>◌, wrap, to_lower,
  Option-cases,
}
use lbconfig_operator.Base.Ends.{Guards, Guards-bind, Guards-wrap}
use lbconfig_operator.Base.Dict.{Dict, lookup}
use lbconfig_operator.Api.{Node, Provider, Labels, Pool, Vip, ExternalLoadBalancer}
use lbconfig_operator.Backend.{Backend}
use lbconfig_operator.Labels.{compute_labels}
use lbconfig_operator.Nodes.{KubeNode, select_nodes}
use lbconfig_operator.Registry.{Registry, create_backend}
use lbconfig_operator.Reconcile.{
  NamespacedName, MetricKey, Cluster, finalizer, length, metric_key, find, refresh,
}
use lbconfig_operator.Reconcile.Loop.{
  is_unselective, finalize_load_balancer, add_finalizer, finish, save_status, reconcile_on,
  reconcile_selected, reconcile_found, reconcile,
}
use lbconfig_operator.Reconcile.Refused.{find-some}
use lbconfig_operator.Reconcile.Answers.{Answers-bind, Answers-pure}

module _ {S : Type 0} (I : S → Type 0) (c : Cluster S) where
  -- Every call of the cluster leaves the invariant true, however it ends.
  pub record CallsGuard : Type 0 where
    pub list_balancers : Guards I c.list_balancers
    pub get_balancer : (r : NamespacedName) → Guards I (c.get_balancer r)
    pub get_secret : (r : NamespacedName) → Guards I (c.get_secret r)
    pub list_nodes : (l : Labels) → Guards I (c.list_nodes l)
    pub update_status : (x : ExternalLoadBalancer) → Guards I (c.update_status x)
    pub update : (x : ExternalLoadBalancer) → Guards I (c.update x)
    pub set_balancers : (n : ℕ) → Guards I (c.set_balancers n)
    pub set_nodes : (k : MetricKey) (n : ℕ) → Guards I (c.set_nodes k n)
    pub delete_nodes : (k : MetricKey) → Guards I (c.delete_nodes k)

  chosen-Guards :
      (deleting listed : Bool) (m n : Action S (Unit {0}))
      → Guards I m
      → Guards I n
      → Guards I
          (if deleting then (if listed then m else pure tt) else if listed then pure tt else n)
  chosen-Guards true true m n h k = h
  chosen-Guards true false m n h k = λ s i. i
  chosen-Guards false true m n h k = λ s i. i
  chosen-Guards false false m n h k = k

  refreshed :
      (x : ExternalLoadBalancer) (r : Outcome ExternalLoadBalancer × S) (s : S)
      → I r.1
      → I (refresh x (λ _. r) s).1
  refreshed x (ok y, t) s i = i
  refreshed x (err e, t) s i = i
  refreshed x (panic, t) s i = i

  found_or_not : (r : Outcome ExternalLoadBalancer × S) (s : S) → I r.1 → I (find (λ _. r) s).1
  found_or_not (ok lb, t) s i = i
  found_or_not (err e, t) s i = elim (Bool-cases e.not_found) [ inl h ↦ rw h i | inr h ↦ rw h i ]
  found_or_not (panic, t) s i = i

  module _ (calls : CallsGuard) where
    pub finish-Guards :
        (b : Backend S) (x : ExternalLoadBalancer)
        → Guards I (finalize_load_balancer c b x)
        → Guards I (finish c b x)
    unfolding finish add_finalizer
    finish-Guards b x finalized =
        let done : (y : ExternalLoadBalancer) → Guards I (c.update y >> pure tt) =
          λ y. Guards-bind I (c.update y) (λ _. pure tt) (calls.update y) (λ _ _ _ s i. i) in
        let last = c.update (c.remove_finalizer finalizer x) >> pure tt in
        chosen-Guards x.deleting (contains x.finalizers finalizer)
          (finalize_load_balancer c b x >> last) (add_finalizer c x)
          (Guards-bind I (finalize_load_balancer c b x) (λ _. last) finalized
            (λ _ _ _. done (c.remove_finalizer finalizer x)))
          (done (c.add_finalizer finalizer x))

    pub save_status-Guards :
        (req : NamespacedName) (lb : ExternalLoadBalancer) (vips : List Vip) (nodes : List Node)
        (pools : List Pool) (labels : Labels)
        → Guards I (save_status c req lb vips nodes pools labels)
    unfolding save_status
    save_status-Guards req lb vips nodes pools labels =
        Guards-bind I (refresh _ (c.get_balancer req)) _
          (λ s i. refreshed _ (c.get_balancer req s) s (calls.get_balancer req s i))
          λ fresh s e. calls.update_status _

    module _ (providers : Registry S) (req : NamespacedName) where
      -- The provider that is registered for the load balancer's vendor leaves the invariant true in
      -- its creation and in the rest of the run with nodes that the cluster lists.
      pub record RunsGuard (lb : ExternalLoadBalancer) (b : Backend S) : Type 0 where
        pub create : (p : Provider) (user password : String) → Guards I (b.create p user password)
        pub run :
            (items : List KubeNode) (t : S)
            → (c.list_nodes (compute_labels lb) t).0 ≡ ok items
            → Guards I (
                reconcile_on c req lb
                  (select_nodes (compute_labels lb) items)
                  (compute_labels lb)
                  b)

      abbrev pub VendorGuard : ExternalLoadBalancer → Type 0
      VendorGuard lb =
          (b : Backend S)
          → lookup (to_lower lb.spec.provider.vendor) providers ≡ some b
          → RunsGuard lb b

      created-Guards :
          (lb : ExternalLoadBalancer) (user password : String) (f : Backend S → Action S (Unit {0}))
          → VendorGuard lb
          → ((b : Backend S) → RunsGuard lb b → Guards I (f b))
          → Guards I (create_backend providers lb.spec.provider user password >>= f)
      unfolding create_backend
      created-Guards lb user password f vendor k =
          elim (Option-cases (lookup (to_lower lb.spec.provider.vendor) providers)) [
            | inl gone ↦ rw (gone, create_backend) (λ s i. i)
            | inr (b, found) ↦
                let made = b.create lb.spec.provider user password in
                let own = vendor b found in
                rw (found, create_backend)
                  (Guards-bind I (made >> pure b) f
                    (Guards-bind I made (λ _. pure b) (own.create lb.spec.provider user password)
                      (λ _ _ _ s i. i))
                    λ x s e. k x (
                      Answers-bind (RunsGuard lb) made (λ _. pure b)
                        (λ u t e2. Answers-pure (RunsGuard lb) b own) s x e))
          ]

      selected-Guards :
          (lb : ExternalLoadBalancer) (secret : Dict String)
          → VendorGuard lb
          → Guards I (reconcile_selected c providers req lb secret)
      unfolding reconcile_selected
      selected-Guards lb secret vendor =
          let labels = compute_labels lb in
          Guards-bind I (c.list_nodes labels) _ (calls.list_nodes labels) λ items t e.
            let n = length (select_nodes labels items) in
            Guards-bind I (c.set_nodes (metric_key lb) n) _ (calls.set_nodes (metric_key lb) n)
              λ _ _ _. created-Guards lb _ _ _ vendor λ b own. own.run items t e

      found-Guards :
          (lb : ExternalLoadBalancer)
          → VendorGuard lb
          → Guards I (reconcile_found c providers req (some lb))
      unfolding reconcile_found
      found-Guards lb vendor =
          Guards-bind I (wrap _ (c.get_secret _)) _
            (Guards-wrap I _ (c.get_secret _) (calls.get_secret _))
            λ secret s e. elim (Bool-cases (is_unselective lb)) [
              | inl bare ↦ rw bare (λ t i. i)
              | inr fine ↦ rw fine (selected-Guards lb secret vendor)
            ]

      pub reconcile-Guards :
          ((t : S) (lb : ExternalLoadBalancer) → (c.get_balancer req t).0 ≡ ok lb → VendorGuard lb)
          → Guards I (reconcile c providers req)
      unfolding reconcile reconcile_found
      reconcile-Guards all =
          Guards-bind I (wrap _ c.list_balancers) _
            (Guards-wrap I _ c.list_balancers calls.list_balancers)
            λ items _ _.
              Guards-bind I (c.set_balancers (length items)) _ (calls.set_balancers (length items))
                λ _ _ _.
                  Guards-bind I (find (c.get_balancer req)) (reconcile_found c providers req)
                    (λ s i. found_or_not (c.get_balancer req s) s (calls.get_balancer req s i))
                    on_found
        where
          on_found :
              (o : Option ExternalLoadBalancer) (t : S)
              → (find (c.get_balancer req) t).0 ≡ ok o
              → Guards I (reconcile_found c providers req o)
          on_found none t h = λ s i. i
          on_found (some lb) t h =
              found-Guards lb (all t lb (find-some (c.get_balancer req t) t lb h))

-- ===== src/Reconcile/Kept.antt =====
-- A deletion whose cleanup fails: the finalizer that `Reconcile` of externalloadbalancer_controller.go
-- then leaves on the object.
use lbconfig_operator.Base.{
  ◌≡◌, ◌∙◌, refl, true, false, contains, string_eq, ◌⊎◌, inl, inr, Outcome, ok, err, panic, Action,
  ◌>>◌, if◌then◌else◌, Bool, resume,
}
use lbconfig_operator.Base.Keeps.{Keeps, Keeps-seq}
use lbconfig_operator.Api.{Monitor, Pool, PoolMember, Vip, ExternalLoadBalancer}
use lbconfig_operator.Backend.{Backend}
use lbconfig_operator.Backend.Handle.{handle_cleanup}
use lbconfig_operator.Backend.Deletes.{handle_cleanup-Guards}
use lbconfig_operator.Backend.Loops.{All-const}
use lbconfig_operator.Reconcile.{MetricKey, Cluster, finalizer, metric_key}
use lbconfig_operator.Reconcile.Loop.{finalize_load_balancer, finish}

module _ {S D : Type 0} (view : S → D) where
  -- The calls that delete leave what `view` shows.
  pub record BackendFrame (b : Backend S) : Type 0 where
    pub connect : Keeps view b.connect
    pub close : Keeps view b.close
    pub delete_monitor : (m : Monitor) → Keeps view (b.delete_monitor m)
    pub delete_pool : (p : Pool) → Keeps view (b.delete_pool p)
    pub delete_pool_member : (m : PoolMember) (p : Pool) → Keeps view (b.delete_pool_member m p)
    pub delete_vip : (v : Vip) → Keeps view (b.delete_vip v)

  cleaned-kept :
      (r : Outcome (Unit {0}) × S) (n : Action S (Unit {0})) (s : S)
      → view r.1 ≡ view s
      → (view (resume r.0 (λ _. n) r.1).1 ≡ view s) ⊎ (r.0 ≡ ok tt)
  cleaned-kept (ok a, t) n s h = inr refl
  cleaned-kept (err e, t) n s h = inl h
  cleaned-kept (panic, t) n s h = inl h

  chosen-kept :
      (deleting listed : Bool) (m n y z : Action S (Unit {0})) (s : S)
      → deleting ≡ true
      → listed ≡ true
      → Keeps view m
      → (view ((if deleting then (if listed then m >> n else y) else z) s).1 ≡ view s)
        ⊎ ((m s).0 ≡ ok tt)
  chosen-kept true true m n y z s d l k = cleaned-kept (m s) n s (k.kept s)
  chosen-kept true false m n y z s d l k = absurd cc
  chosen-kept false listed m n y z s d l k = absurd cc

  module _ (b : Backend S) (frame : BackendFrame b) where
    handle_cleanup-Keeps : (lb : ExternalLoadBalancer) → Keeps view (handle_cleanup b lb)
    handle_cleanup-Keeps lb = record {
      kept = λ s.
          handle_cleanup-Guards (λ t. view t ≡ view s) b lb
            (All-const (λ v t i. (frame.delete_vip v).kept t ∙ i) lb.status.vips)
            (All-const
              (λ p. record {
                delete_pool = λ t i. (frame.delete_pool p).kept t ∙ i;
                delete_pool_member = λ m t i. (frame.delete_pool_member m p).kept t ∙ i;
              })
              lb.status.pools)
            (λ t i. (frame.delete_monitor lb.status.monitor).kept t ∙ i) s refl;
    }

    module _ (c : Cluster S) (gauge : (k : MetricKey) → Keeps view (c.delete_nodes k)) where
      finalize-Keeps : (lb : ExternalLoadBalancer) → Keeps view (finalize_load_balancer c b lb)
      unfolding finalize_load_balancer
      finalize-Keeps lb = Keeps-seq view b.connect _ frame.connect (
          Keeps-seq view (handle_cleanup b lb) _ (handle_cleanup-Keeps lb) (
            Keeps-seq view b.close (c.delete_nodes (metric_key lb)) frame.close
              (gauge (metric_key lb))))

      -- For a load balancer that is being deleted and lists the operator's finalizer, and for any
      -- part of the world that the deletions of the provider and of the gauge leave alone, such as
      -- the object in the cluster: either the end of `Reconcile` leaves that part as it is, or the
      -- cleanup has succeeded.
      pub finish-kept :
          (lb : ExternalLoadBalancer) (s : S)
          → lb.deleting ≡ true
          → contains lb.finalizers finalizer ≡ true
          → (view (finish c b lb s).1 ≡ view s) ⊎ ((finalize_load_balancer c b lb s).0 ≡ ok tt)
      unfolding finish
      finish-kept lb s deleting listed =
          chosen-kept lb.deleting (contains lb.finalizers finalizer) (finalize_load_balancer c b lb)
            _ _ _ s deleting listed (finalize-Keeps lb)

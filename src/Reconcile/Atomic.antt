-- ===== src/Reconcile/Atomic.antt =====
-- The sessions of `Reconcile` of externalloadbalancer_controller.go with a provider whose writes
-- take effect when the session is closed.
use lbconfig_operator.Base.{
  ◌≡◌, refl, ◌∙◌, ◌⊎◌, inl, inr, List, Outcome, ok, err, panic, Action, pure, wrap, ◌>>=◌,
}
use lbconfig_operator.Base.Keeps.{Keeps, wrap-Keeps}
use lbconfig_operator.Base.Ends.{Ends, Ends-resume, Ends-mono, any-Ends}
use lbconfig_operator.Api.{Node, ExternalLoadBalancer}
use lbconfig_operator.Backend.{Backend}
use lbconfig_operator.Backend.Handle.{handle_monitors, handle_cleanup}
use lbconfig_operator.Reconcile.{Cluster, metric_key, monitor_for, handle_pools, handle_vips}
use lbconfig_operator.Reconcile.Loop.{configure, finalize_load_balancer}
use lbconfig_operator.Reconcile.Isolated.{
  OwnCalls, handle_monitors-Keeps, handle_pools-Keeps, handle_vips-Keeps,
}

module _ {S D : Type 0} (live : S → D) (b : Backend S) where
  -- Of the calls for objects of the load balancer only a `Close` that succeeds changes what `live`
  -- shows.
  pub record Transactional (lb : ExternalLoadBalancer) : Type 0 where
    pub connect : Keeps live b.connect
    pub calls : OwnCalls live lb b
    pub close : (s : S) → Ends (λ _ _. Unit {0}) (λ t. live t ≡ live s) (b.close s)

  -- `live` is as it was, or the call has succeeded.
  abbrev pub AllOrNothing : {A : Type 0} → Action S A → S → Type 0
  AllOrNothing {A} m s = (live (m s).1 ≡ live s) ⊎ ((a : A) × ((m s).0 ≡ ok a))

  settle :
      {A : Type 0} (d : D) (r : Outcome A × S)
      → Ends (λ _ _. Unit {0}) (λ t. live t ≡ d) r
      → (live r.1 ≡ d) ⊎ ((a : A) × (r.0 ≡ ok a))
  settle d (ok a, t) h = inr (a, refl)
  settle d (err e, t) h = inl h
  settle d (panic, t) h = inl h

  -- A call that leaves `live` alone, before a call that is all or nothing.
  after :
      {A B : Type 0} (d : D) (m : Action S A) (f : A → Action S B) (s : S)
      → Keeps live m
      → live s ≡ d
      → ((a : A) (t : S) → live t ≡ d → Ends (λ _ _. Unit {0}) (λ u. live u ≡ d) (f a t))
      → Ends (λ _ _. Unit {0}) (λ u. live u ≡ d) ((m >>= f) s)
  after d m f s k e h =
      Ends-resume (λ _ t. live t ≡ d) (λ _ _. Unit {0}) (λ u. live u ≡ d) (m s) f
        (any-Ends (λ t. live t ≡ d) (m s) (k.kept s ∙ e)) h

  returned :
      {A : Type 0} (d : D) (r : Outcome A × S) (y : A)
      → r.0 ≡ ok y
      → Ends (λ _ _. Unit {0}) (λ u. live u ≡ d) r
  returned d (ok a, t) y h = tt
  returned d (err e, t) y h = absurd cc
  returned d (panic, t) y h = absurd cc

  closing :
      {B : Type 0} (lb : ExternalLoadBalancer) (tr : Transactional lb) (d : D)
      (f : Unit {0} → Action S B) (s : S)
      → ((t : S) → (y : B) × ((f tt t).0 ≡ ok y))
      → live s ≡ d
      → Ends (λ _ _. Unit {0}) (λ u. live u ≡ d) ((b.close >>= f) s)
  closing lb tr d f s returns e =
      Ends-resume (λ _ _. Unit {0}) (λ _ _. Unit {0}) (λ u. live u ≡ d) (b.close s) f
        (Ends-mono _ _ _ _ (b.close s) (tr.close s) (λ _ _ h. h) (λ t h. h ∙ e))
        λ u t _. let (y, done) = returns t in returned d (f u t) y done

  module _ (lb : ExternalLoadBalancer) (tr : Transactional lb) where
    pub configure-atomic : (nodes : List Node) (s : S) → AllOrNothing (configure b lb nodes) s
    unfolding configure
    configure-atomic nodes s = settle (live s) (configure b lb nodes s) (
        after (live s) b.connect _ s tr.connect refl λ _ s1 e1.
          after (live s) (wrap _ (handle_monitors b (monitor_for lb))) _ s1
            (wrap-Keeps live _ (handle_monitors b (monitor_for lb))
              (handle_monitors-Keeps live b lb tr.calls (monitor_for lb) refl))
            e1
            λ _ s2 e2.
              after (live s) (handle_pools b lb nodes (monitor_for lb) lb.spec.ports) _ s2
                (handle_pools-Keeps live b lb tr.calls nodes (monitor_for lb) lb.spec.ports
                  λ k h. h)
                e2
                λ pools s3 e3.
                  after (live s) (handle_vips b lb lb.spec.ports) _ s3
                    (handle_vips-Keeps live b lb tr.calls lb.spec.ports λ k h. h) e3
                    λ vips s4 e4.
                      closing lb tr (live s) (λ _. pure (pools, vips)) s4
                        (λ t. ((pools, vips), refl)) e4)

    pub finalize-atomic :
        (c : Cluster S) (x : ExternalLoadBalancer)
        → ((s : S) → (c.delete_nodes (metric_key x) s).0 ≡ ok tt)
        → Keeps live (handle_cleanup b x)
        → (s : S) → AllOrNothing (finalize_load_balancer c b x) s
    unfolding finalize_load_balancer
    finalize-atomic c x gauge cleanup s = settle (live s) (finalize_load_balancer c b x s) (
        after (live s) b.connect _ s tr.connect refl λ _ s1 e1.
          after (live s) (handle_cleanup b x) _ s1 cleanup e1 λ _ s2 e2.
            closing lb tr (live s) (λ _. c.delete_nodes (metric_key x)) s2 (λ t. (tt, gauge t)) e2)

-- ===== src/Providers/Dummy/Laws.antt =====
-- The reconcile loop over the dummy provider.
use lbconfig_operator.Base.{ℤ, ◌≡◌, refl, List, [], ◌∷◌, map, ok, Action, for_each, arith}
use lbconfig_operator.Api.{Monitor, Node, Pool, Vip, ExternalLoadBalancer}
use lbconfig_operator.Backend.Handle.{
  handle_monitors, handle_pool, handle_vip, cleanup_vips, cleanup_members, cleanup_pools,
  cleanup_monitor, handle_cleanup,
}
use lbconfig_operator.Reconcile.{monitor_for, pool_for, vip_for, handle_pools, handle_vips}
use lbconfig_operator.Reconcile.Loop.{configure}
use lbconfig_operator.Providers.{Cell}
use lbconfig_operator.Providers.Dummy.{DummyProvider, dummy}

for_each_idle :
    {S A : Type 0} (f : A → Action S (Unit {0})) (xs : List A) (s : S)
    → ((x : A) → f x s ≡ (ok tt, s))
    → for_each f xs s ≡ (ok tt, s)
unfolding for_each
for_each_idle f [] s h = refl
for_each_idle f (x ∷ xs) s h = rw (h x) (for_each_idle f xs s h)

module _ {S : Type 0} (self : Cell S DummyProvider) where
  handle_monitors-dummy : (m : Monitor) (s : S) → handle_monitors (dummy self) m s ≡ (ok tt, s)
  unfolding handle_monitors dummy
  handle_monitors-dummy m s = ground arith

  handle_pool-dummy : (p : Pool) (s : S) → handle_pool (dummy self) p s ≡ (ok p, s)
  unfolding handle_pool dummy
  handle_pool-dummy p s = rw (for_each_idle _ p.members s (λ m. refl)) refl

  handle_pools-dummy :
      (lb : ExternalLoadBalancer) (nodes : List Node) (m : Monitor) (ports : List ℤ) (s : S)
      → handle_pools (dummy self) lb nodes m ports s ≡ (ok (map (pool_for lb nodes m) ports), s)
  unfolding handle_pools
  handle_pools-dummy lb nodes m [] s = refl
  handle_pools-dummy lb nodes m (p ∷ ports) s =
      rw (handle_pool-dummy (pool_for lb nodes m p) s, handle_pools-dummy lb nodes m ports s) refl

  handle_vip-dummy : (v : Vip) (s : S) → handle_vip (dummy self) v s ≡ (ok tt, s)
  unfolding handle_vip dummy
  handle_vip-dummy v s = refl

  handle_vips-dummy :
      (lb : ExternalLoadBalancer) (ports : List ℤ) (s : S)
      → handle_vips (dummy self) lb ports s ≡ (ok (map (vip_for lb) ports), s)
  unfolding handle_vips
  handle_vips-dummy lb [] s = refl
  handle_vips-dummy lb (p ∷ ports) s =
      rw (handle_vip-dummy (vip_for lb p) s, handle_vips-dummy lb ports s) refl

  connect-dummy : (s : S) → (dummy self).connect s ≡ (ok tt, s)
  unfolding dummy
  connect-dummy s = refl

  close-dummy : (s : S) → (dummy self).close s ≡ (ok tt, s)
  unfolding dummy
  close-dummy s = refl

  -- Over the dummy provider the session of `Reconcile` succeeds without any change of the world,
  -- for any load balancer and any nodes, and returns exactly the pools and the VIPs of the ports.
  configure-dummy :
      (lb : ExternalLoadBalancer) (nodes : List Node) (s : S)
      → configure (dummy self) lb nodes s ≡ (
        ok (map (pool_for lb nodes (monitor_for lb)) lb.spec.ports, map (vip_for lb) lb.spec.ports),
        s,
      )
  unfolding configure
  configure-dummy lb nodes s =
      rw
        (
          connect-dummy s,
          handle_monitors-dummy (monitor_for lb) s,
          handle_pools-dummy lb nodes (monitor_for lb) lb.spec.ports s,
          handle_vips-dummy lb lb.spec.ports s,
          close-dummy s,
        )
        refl

  cleanup_monitor-dummy : (m : Monitor) (s : S) → cleanup_monitor (dummy self) m s ≡ (ok tt, s)
  unfolding cleanup_monitor dummy
  cleanup_monitor-dummy m s = ground arith

  -- Over the dummy provider `HandleCleanup` succeeds without any change of the world, whatever the
  -- status of the load balancer names.
  handle_cleanup-dummy :
      (lb : ExternalLoadBalancer) (s : S) → handle_cleanup (dummy self) lb s ≡ (ok tt, s)
  unfolding handle_cleanup cleanup_vips cleanup_members cleanup_pools dummy
  handle_cleanup-dummy lb s =
      rw
        (
          for_each_idle _ lb.status.vips s (λ v. refl),
          for_each_idle _ lb.status.pools s (λ p. for_each_idle _ p.members s (λ m. refl)),
          for_each_idle _ lb.status.pools s (λ p. refl),
        )
        (cleanup_monitor-dummy lb.status.monitor s)

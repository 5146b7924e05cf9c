-- ===== src/Backend/Deletes.antt =====
-- `HandleCleanup` of backend_controller.go: what its deletions leave true, the cleanup leaves true,
-- whether it ends well or not.
use lbconfig_operator.Base.{Bool-cases, inl, inr, List, [], ◌∷◌, Action, for_each}
use lbconfig_operator.Base.Ends.{
  Guards, Guards-bind, Guards-wrap, Guards-ignore_error, Guards-for_each,
}
use lbconfig_operator.Api.{Monitor, Pool, PoolMember, ExternalLoadBalancer}
use lbconfig_operator.Backend.{Backend}
use lbconfig_operator.Backend.Handle.{
  is_zero_monitor, cleanup_vips, cleanup_members, cleanup_pools, cleanup_monitor, handle_cleanup,
}
use lbconfig_operator.Backend.Loops.{All, All-map}

module _ {S : Type 0} (I : S → Type 0) where
  Guards-all :
      {A : Type 0} (f : A → Action S (Unit {0})) (xs : List A)
      → All (λ x. Guards I (f x)) xs
      → Guards I (for_each f xs)
  unfolding for_each
  Guards-all f [] all = λ s i. i
  Guards-all f (x ∷ xs) (first, all) =
      Guards-bind I (f x) (λ _. for_each f xs) first (λ _ _ _. Guards-all f xs all)

  module _ (b : Backend S) where
    -- The deletions of the pool and of its members.
    pub record PoolGuards (p : Pool) : Type 0 where
      pub delete_pool : Guards I (b.delete_pool p)
      pub delete_pool_member : (m : PoolMember) → Guards I (b.delete_pool_member m p)

    cleanup_monitor-Guards :
        (m : Monitor) → Guards I (b.delete_monitor m) → Guards I (cleanup_monitor b m)
    unfolding cleanup_monitor
    cleanup_monitor-Guards m k = elim (Bool-cases (is_zero_monitor m)) [
      | inl e ↦ rw e (λ s i. i)
      | inr e ↦ rw e (Guards-wrap I _ (b.delete_monitor m) k)
    ]

    pub handle_cleanup-Guards :
        (x : ExternalLoadBalancer)
        → All (λ v. Guards I (b.delete_vip v)) x.status.vips
        → All PoolGuards x.status.pools
        → Guards I (b.delete_monitor x.status.monitor)
        → Guards I (handle_cleanup b x)
    unfolding handle_cleanup cleanup_vips cleanup_members cleanup_pools
    handle_cleanup-Guards x vips pools monitor =
        Guards-bind I (cleanup_vips b x.status.vips) _
          (Guards-all _ x.status.vips
            (All-map (λ v k. Guards-wrap I _ (b.delete_vip v) k) x.status.vips vips))
          λ _ _ _.
            Guards-bind I (cleanup_members b x.status.pools) _
              (Guards-all _ x.status.pools (
                All-map
                  (λ p k.
                    Guards-for_each I _ p.members λ m.
                      Guards-ignore_error I (b.delete_pool_member m p) (k.delete_pool_member m))
                  x.status.pools pools))
              λ _ _ _.
                Guards-bind I (cleanup_pools b x.status.pools) _
                  (Guards-all _ x.status.pools (
                    All-map (λ p k. Guards-wrap I _ (b.delete_pool p) k.delete_pool) x.status.pools
                      pools))
                  λ _ _ _. cleanup_monitor-Guards x.status.monitor monitor

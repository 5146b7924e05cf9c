-- ===== src/Reconcile/Cleaned.antt =====
-- What the cleanup of externalloadbalancer_controller.go leaves alone, whether it ends well or not.
use lbconfig_operator.Base.{◌≡◌, ◌∙◌, refl, string_eq}
use lbconfig_operator.Api.{ExternalLoadBalancer, ExternalLoadBalancerStatus}
use lbconfig_operator.Backend.{Backend}
use lbconfig_operator.Backend.Handle.{handle_cleanup}
use lbconfig_operator.Backend.Deletes.{handle_cleanup-Guards}
use lbconfig_operator.Backend.Loops.{All, All-map}
use lbconfig_operator.Base.Keeps.{Keeps}
use lbconfig_operator.Reconcile.Isolated.{OwnPool, OwnVip, OwnMonitor, OwnCalls}

-- The objects that the status lists have names of the load balancer.
abbrev pub OwnStatus : ExternalLoadBalancer → ExternalLoadBalancerStatus → Type 0
OwnStatus lb status =
    All (OwnPool lb) status.pools × All (OwnVip lb) status.vips × OwnMonitor lb status.monitor

module _ {S D : Type 0} (view : S → D) (b : Backend S) (lb : ExternalLoadBalancer)
    (calls : OwnCalls view lb b) where
  pub handle_cleanup-own :
      (x : ExternalLoadBalancer) → OwnStatus lb x.status → Keeps view (handle_cleanup b x)
  handle_cleanup-own x (pools, vips, monitor) = record {
    kept = λ s.
        handle_cleanup-Guards (λ t. view t ≡ view s) b x
          (All-map (λ v own t i. (calls.delete_vip v own).kept t ∙ i) x.status.vips vips)
          (All-map
            (λ p own. record {
              delete_pool = λ t i. (calls.delete_pool p own).kept t ∙ i;
              delete_pool_member = λ m t i. (calls.delete_pool_member m p own).kept t ∙ i;
            })
            x.status.pools pools)
          (λ t i. (calls.delete_monitor x.status.monitor monitor).kept t ∙ i) s refl;
  }

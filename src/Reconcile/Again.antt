-- ===== src/Reconcile/Again.antt =====
-- The provider's session of `Reconcile` on a device that already serves the load balancer.
use lbconfig_operator.Base.{
  String, ◌<>◌, ℤ, ◌≡◌, refl, ap, ◌∙◌, arith, some, List, [], ◌∷◌, map, wrap,
}
use lbconfig_operator.Api.{Monitor, Node, ExternalLoadBalancer}
use lbconfig_operator.Backend.{Backend}
use lbconfig_operator.Backend.Handle.{handle_monitors, handle_pool, handle_vip}
use lbconfig_operator.Backend.Device.{
  Device, Does, Does-bind, Does-seq, Does-cast, Does-return, Does-map, Does-wrap, PoolLaws, VipLaws,
  put, HoldsPool, HoldsVip,
}
use lbconfig_operator.Backend.Loops.{All}
use lbconfig_operator.Reconcile.{monitor_for, pool_for, vip_for, handle_pools, handle_vips}
use lbconfig_operator.Reconcile.Loop.{configure}
use lbconfig_operator.Reconcile.Configure.{ProviderLaws, Suits, Configured}
use lbconfig_operator.Reconcile.Vips.{vip_name, SuitsVips}
use lbconfig_operator.Backend.Again.{handle_monitors-again, handle_vip-again, handle_pool-again}

pub put_here : {A : Type 0} (f : String → A) (k : String) (v : A) → put f k v k ≡ v
put_here f k v = ground arith

module _ {S : Type 0} (view : S → Device) (b : Backend S) where
  handle_pools-again :
      PoolLaws view b
      → (lb : ExternalLoadBalancer) (nodes : List Node) (m : Monitor) (d : Device) (ports : List ℤ)
        (s : S)
      → view s ≡ d
      → All (λ p. HoldsPool d (pool_for lb nodes m p)) ports
      → Does view (handle_pools b lb nodes m ports) s (map (pool_for lb nodes m) ports) d
  unfolding handle_pools
  handle_pools-again laws lb nodes m d [] s same all = record { returns = refl; leaves = same }
  handle_pools-again laws lb nodes m d (p ∷ ports) s same (here, all) =
      let pool = pool_for lb nodes m p in
      let now = handle_pool-again view b laws pool s (rw same here) in
      let t = (handle_pool b pool s).1 in
      let rest = handle_pools-again laws lb nodes m d ports t (now.leaves ∙ same) all in
      Does-bind view (handle_pool b pool) _ s now
        (Does-map view (λ pools. pool ∷ pools) (handle_pools b lb nodes m ports) t rest)

  handle_vips-again :
      (laws : VipLaws view b) (lb : ExternalLoadBalancer) (d : Device) (ports : List ℤ) (s : S)
      → view s ≡ d
      → SuitsVips view b laws lb ports d
      → All (λ p. HoldsVip d (vip_for lb p)) ports
      → Does view (handle_vips b lb ports) s (map (vip_for lb) ports) d
  unfolding handle_vips
  handle_vips-again laws lb d [] s same fits all = record { returns = refl; leaves = same }
  handle_vips-again laws lb d (p ∷ ports) s same (fit, fits) (here, all) =
      let vip = vip_for lb p in
      let now =
        handle_vip-again view b laws vip s (rw same here)
          (laws.suits_fresh (d.vips (vip_name lb p)) vip fit) in
      let t = (handle_vip b vip s).1 in
      let rest = handle_vips-again laws lb d ports t (now.leaves ∙ same) fits all in
      Does-seq view (handle_vip b vip) _ s now
        (Does-map view (λ vips. vip ∷ vips) (handle_vips b lb ports) t rest)

module _ {S : Type 0} (view : S → Device) (b : Backend S) (laws : ProviderLaws view b) where
  -- On a device that obeys the laws and already serves the load balancer with these nodes, as a
  -- session of `Reconcile` leaves it, with objects that the provider can bring to what is wanted,
  -- another session succeeds, changes nothing on the device and returns exactly the pools and the
  -- VIPs of the ports.
  pub configure-again :
      (lb : ExternalLoadBalancer) (nodes : List Node) (before : Device) (s : S)
      → Suits view b laws lb nodes (view s)
      → Configured lb nodes before (view s)
      → Does view
          (configure b lb nodes)
          s
          (map (pool_for lb nodes (monitor_for lb)) lb.spec.ports, map (vip_for lb) lb.spec.ports)
          (view s)
  unfolding configure
  configure-again lb nodes before s suits h =
      let s1 = (b.connect s).1 in
      let opened = laws.connect s in
      let m = monitor_for lb in
      let text : String → String = λ e. "unable to handle ExternalLoadBalancer monitors: " <> e in
      let there : (view s1).monitors m.name ≡ some h.monitor =
        ap (λ d. d.monitors m.name) opened.leaves
        ∙ ap (λ f. f m.name) h.monitors
        ∙ put_here before.monitors m.name (some h.monitor) in
      let monitored =
        handle_monitors-again view b laws.monitors m h.monitor s1 there h.same_monitor
          (laws.monitors.suits_fresh _ m suits.monitor) in
      let step2 = wrap text (handle_monitors b m) in
      let wrapped = Does-wrap view text (handle_monitors b m) s1 monitored in
      let s2 = (step2 s1).1 in
      let ports = lb.spec.ports in
      let at2 = wrapped.leaves ∙ opened.leaves in
      let pooled = handle_pools-again view b laws.pools lb nodes m (view s) ports s2 at2 h.pools in
      let step3 = handle_pools b lb nodes m ports in
      let s3 = (step3 s2).1 in
      let vipped =
        handle_vips-again view b laws.vips lb (view s) ports s3 pooled.leaves suits.vips h.vips in
      let step4 = handle_vips b lb ports in
      let s4 = (step4 s3).1 in
      let closed = Does-cast view b.close s4 vipped.leaves (laws.close s4) in
      Does-seq view b.connect _ s opened (
        Does-seq view step2 _ s1 wrapped (
          Does-bind view step3 _ s2 pooled
            (Does-bind view step4 _ s3 vipped (Does-return view b.close s4 _ closed))))

  kept_vips :
      (lb : ExternalLoadBalancer) (before d : Device) (ports : List ℤ)
      → SuitsVips view b laws.vips lb ports before
      → All (λ p. HoldsVip d (vip_for lb p)) ports
      → SuitsVips view b laws.vips lb ports d
  unfolding vip_for
  kept_vips lb before d [] fits holds = tt
  kept_vips lb before d (p ∷ ports) (fit, fits) (hold, holds) = (
    rw hold.at_name (
        laws.vips.suits_same hold.found (vip_for lb p)
          (laws.vips.suits_fresh (before.vips (vip_name lb p)) (vip_for lb p) fit) hold.same),
    kept_vips lb before d ports fits holds,
  )

  -- What a session leaves suits the next one.
  pub Suits-Configured :
      (lb : ExternalLoadBalancer) (nodes : List Node) (before d : Device)
      → Suits view b laws lb nodes before
      → Configured lb nodes before d
      → Suits view b laws lb nodes d
  Suits-Configured lb nodes before d suits h =
      let m = monitor_for lb in
      let there : d.monitors m.name ≡ some h.monitor =
        ap (λ f. f m.name) h.monitors ∙ put_here before.monitors m.name (some h.monitor) in
      record {
        pools = suits.pools;
        monitor = rw there (
            laws.monitors.suits_same h.monitor m (laws.monitors.suits_fresh _ m suits.monitor)
              h.same_monitor);
        vips = kept_vips lb before d lb.spec.ports suits.vips h.vips;
      }

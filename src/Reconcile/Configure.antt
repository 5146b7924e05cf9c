-- ===== src/Reconcile/Configure.antt =====
-- `Reconcile` from `Connect` to `Close` on a lawful device.
use lbconfig_operator.Base.{
  String, ◌<>◌, ◌≡◌, refl, sym, subst, true, ap, ◌∙◌, some, List, map, wrap,
}
use lbconfig_operator.Api.{Monitor, Provider, Node, Pool, Vip, ExternalLoadBalancer}
use lbconfig_operator.Backend.{Backend}
use lbconfig_operator.Backend.Handle.{handle_monitors}
use lbconfig_operator.Backend.Device.{
  Device, SameMonitor, Does, Does-bind, Does-seq, Does-cast, Does-return, Does-wrap, MonitorLaws,
  PoolLaws, Fits, VipLaws, put, put_monitor, HoldsPool, HoldsPool-pools, HoldsVip, HoldsVip-vips,
  Unique,
}
use lbconfig_operator.Backend.Single.{handle_monitors-Does}
use lbconfig_operator.Backend.Loops.{All, All-map, without}
use lbconfig_operator.Reconcile.{
  monitor_for, pool_name, pool_for, vip_for, handle_pools, handle_vips,
}
use lbconfig_operator.Reconcile.Loop.{configure}
use lbconfig_operator.Reconcile.Pools.{NodupHosts, set_pools, handle_pools-PoolsDone}
use lbconfig_operator.Reconcile.Vips.{vip_name, set_vips, SuitsVips, handle_vips-VipsDone}

-- A provider and its device, with the calls that open and close a session.
pub record ProviderLaws {S : Type 0} (view : S → Device) (b : Backend S) : Type 0 where
  pub create :
      (p : Provider) (user password : String) (s : S)
      → Does view (b.create p user password) s tt (view s)
  pub connect : (s : S) → Does view b.connect s tt (view s)
  pub close : (s : S) → Does view b.close s tt (view s)
  pub monitors : MonitorLaws view b
  pub pools : PoolLaws view b
  pub vips : VipLaws view b

-- The device `d` serves the load balancer with these nodes, and is otherwise the device `before`.
pub record Configured (lb : ExternalLoadBalancer) (nodes : List Node) (before d : Device)
    : Type 0 where
  pub monitor : Monitor
  pub same_monitor : SameMonitor monitor lb.spec.monitor
  pub monitors : d.monitors ≡ put before.monitors (monitor_for lb).name (some monitor)
  pub pools : All (λ p. HoldsPool d (pool_for lb nodes (monitor_for lb) p)) lb.spec.ports
  pub vips : All (λ p. HoldsVip d (vip_for lb p)) lb.spec.ports
  pub other_pools :
      without d.pools (map (pool_name lb) lb.spec.ports)
      ≡ without before.pools (map (pool_name lb) lb.spec.ports)
  pub other_vips :
      without d.vips (map (vip_name lb) lb.spec.ports)
      ≡ without before.vips (map (vip_name lb) lb.spec.ports)

-- The provider can bring what the device `d` has under the names of the load balancer to what is
-- wanted for these nodes.
pub record Suits {S : Type 0} (view : S → Device) (b : Backend S) (laws : ProviderLaws view b)
    (lb : ExternalLoadBalancer) (nodes : List Node) (d : Device) : Type 0 where
  pub pools : All (λ p. Fits view laws.pools (pool_for lb nodes (monitor_for lb) p)) lb.spec.ports
  pub monitor : laws.monitors.suits (d.monitors (monitor_for lb).name) (monitor_for lb) ≡ true
  pub vips : SuitsVips view b laws.vips lb lb.spec.ports d

module _ {S : Type 0} (view : S → Device) (b : Backend S) (laws : ProviderLaws view b) where
  -- On a device that obeys the laws and has no pool with a repeated member, for nodes with distinct
  -- hosts and objects to which the provider can bring what the device has under their names, the
  -- provider's calls of `Reconcile` succeed. Afterwards the device holds the load balancer's monitor
  -- and, for each port, its pool with exactly the nodes as members and its virtual server; every
  -- other monitor, pool and virtual server is unchanged. The pools for the status have the names of
  -- the ports, and its VIPs are those of the ports.
  pub configure-Configured :
      (lb : ExternalLoadBalancer) (nodes : List Node) (s : S)
      → NodupHosts nodes
      → Suits view b laws lb nodes (view s)
      → Unique (view s)
      → (pools : List Pool) × (d : Device) × Does view
          (configure b lb nodes)
          s
          (pools, map (vip_for lb) lb.spec.ports)
          d
        × (map (λ p. p.name) pools ≡ map (pool_name lb) lb.spec.ports)
        × Configured lb nodes (view s) d
  unfolding configure
  configure-Configured lb nodes s hosts suits u =
      let s1 = (b.connect s).1 in
      let opened = laws.connect s in
      let m = monitor_for lb in
      let text : String → String = λ e. "unable to handle ExternalLoadBalancer monitors: " <> e in
      let (monitor, same, monitored) =
        handle_monitors-Does view b laws.monitors m s1 (rw opened.leaves suits.monitor) in
      let step2 = wrap text (handle_monitors b m) in
      let wrapped = Does-wrap view text (handle_monitors b m) s1 monitored in
      let s2 = (step2 s1).1 in
      let at2 : view s2 ≡ put_monitor (view s) m.name (some monitor) =
        wrapped.leaves ∙ ap (λ d. put_monitor d m.name (some monitor)) opened.leaves in
      let ports = lb.spec.ports in
      let pooled =
        handle_pools-PoolsDone view b laws.pools lb nodes m hosts ports s2 suits.pools
          (λ k q h. u k q (rw at2 at h)) in
      let step3 = handle_pools b lb nodes m ports in
      let s3 = (step3 s2).1 in
      let at3 : view s3 ≡ set_pools pooled.pools (put_monitor (view s) m.name (some monitor)) =
        pooled.does.leaves ∙ ap (set_pools pooled.pools) at2 in
      let vipped =
        handle_vips-VipsDone view b laws.vips lb ports s3
          (subst (SuitsVips view b laws.vips lb ports) (sym at3) suits.vips) in
      let step4 = handle_vips b lb ports in
      let s4 = (step4 s3).1 in
      let at4 = vipped.does.leaves ∙ ap (set_vips vipped.vips) at3 in
      let d : Device = record {
        monitors = put (view s).monitors m.name (some monitor);
        pools = pooled.pools;
        vips = vipped.vips;
      } in
      let result : List Pool × List Vip = (pooled.result, map (vip_for lb) ports) in
      let closed = Does-cast view b.close s4 at4 (laws.close s4) in
      let finished = Does-return view b.close s4 result closed in
      let configured : Configured lb nodes (view s) d = record {
        monitor = monitor;
        same_monitor = same;
        monitors = refl;
        pools =
            All-map
              (λ p.
                HoldsPool-pools (set_pools pooled.pools (view s2)) d refl (pool_for lb nodes m p))
              ports pooled.holds;
        vips =
            All-map (λ p. HoldsVip-vips (set_vips vipped.vips (view s3)) d refl (vip_for lb p))
              ports vipped.holds;
        other_pools = pooled.others ∙ ap (λ e. without e.pools (map (pool_name lb) ports)) at2;
        other_vips = vipped.others ∙ ap (λ e. without e.vips (map (vip_name lb) ports)) at3;
      } in
      (
        pooled.result,
        d,
        Does-seq view b.connect _ s opened (
            Does-seq view step2 _ s1 wrapped (
              Does-bind view step3 _ s2 pooled.does
                (Does-bind view step4 _ s3 vipped.does finished))),
        pooled.names,
        configured,
      )

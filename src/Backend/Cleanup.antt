-- ===== src/Backend/Cleanup.antt =====
-- `HandleCleanup` of backend_controller.go on a lawful device.
use lbconfig_operator.Base.{
  ◌≡◌, refl, ap, ◌∙◌, true, false, none, some, List, [], ◌∷◌, arith, string_eq, int_eq, contains,
  if◌then◌else◌, ◌>>◌, Bool-cases, inl, inr,
}
use lbconfig_operator.Api.{Monitor, Pool, ExternalLoadBalancer, ExternalLoadBalancerStatus}
use lbconfig_operator.Backend.{Backend}
use lbconfig_operator.Backend.Handle.{
  is_zero_monitor, cleanup_vips, cleanup_members, cleanup_pools, cleanup_monitor, handle_cleanup,
}
use lbconfig_operator.Backend.Loops.{Installed, without, All, All-map}
use lbconfig_operator.Backend.Device.{
  Device, Does, Does-seq, Does-cast, Does-wrap, MonitorLaws, VipLaws, PoolLaws, put,
}
use lbconfig_operator.Backend.Stages.{
  vip_names, pool_names, MemberFrame, Kept, cleanup_vips-Does, cleanup_members-Passes,
  cleanup_pools-Does,
}

-- The device without what the status of a load balancer names.
abbrev pub cleaned : ExternalLoadBalancerStatus → Device → Device
cleaned st d = record {
  monitors = if is_zero_monitor st.monitor then d.monitors else put d.monitors st.monitor.name none;
  pools = without d.pools (pool_names st.pools);
  vips = without d.vips (vip_names st.vips);
}

All-listed : (ps : List Pool) → All (λ p. contains (pool_names ps) p.name ≡ true) ps
All-listed [] = tt
All-listed (p ∷ ps) = (ground arith, All-map (λ q h. ground arith) ps (All-listed ps))

module _ {S : Type 0} (view : S → Device) (b : Backend S) where
  cleanup_monitor-Does :
      (laws : MonitorLaws view b) (m : Monitor) (s : S)
      → (is_zero_monitor m ≡ false
          → (old : Monitor) × ((view s).monitors m.name ≡ some old)
            × laws.suits (some old) m ≡ true)
      → Does view (cleanup_monitor b m) s tt (record (view s) {
        monitors =
            if is_zero_monitor m then (view s).monitors else put (view s).monitors m.name none;
      })
  unfolding cleanup_monitor
  cleanup_monitor-Does laws m s there = elim (Bool-cases (is_zero_monitor m)) [
    | inl zero ↦ rw zero (record { returns = refl; leaves = refl })
    | inr named ↦
        let (old, e, fit) = there named in
        rw named (Does-wrap view _ (b.delete_monitor m) s (laws.delete_monitor m old s e fit))
  ]

  -- On a device that obeys the laws and holds every VIP and pool that the status names, each once,
  -- and, unless the status has none, its monitor, which the provider can bring to that of the status,
  -- `HandleCleanup` succeeds, whatever errors the deletions of pool members report. It removes those
  -- VIPs and pools and that monitor, and nothing else.
  pub handle_cleanup-Does :
      VipLaws view b
      → PoolLaws view b
      → (ml : MonitorLaws view b) → MemberFrame view b
      → (lb : ExternalLoadBalancer) (s : S) → Installed (view s).vips (vip_names lb.status.vips)
      → Installed (view s).pools (pool_names lb.status.pools)
      → (is_zero_monitor lb.status.monitor ≡ false
          → (old : Monitor) × ((view s).monitors lb.status.monitor.name ≡ some old)
            × ml.suits (some old) lb.status.monitor ≡ true)
      → Does view (handle_cleanup b lb) s tt (cleaned lb.status (view s))
  unfolding handle_cleanup
  handle_cleanup-Does vl pl ml frame lb s vips pools monitor =
      let st = lb.status in
      let names = pool_names st.pools in
      let vips_done = cleanup_vips-Does view b vl st.vips s vips in
      let s1 = (cleanup_vips b st.vips s).1 in
      let start : Kept view b names (view s1) (view s1) = record {
        monitors = refl;
        vips = refl;
        rest = refl;
        there = rw vips_done.leaves pools;
      } in
      let (members_done, kept) =
        cleanup_members-Passes view b frame names (view s1) st.pools (All-listed st.pools) s1
          start in
      let s2 = (cleanup_members b st.pools s1).1 in
      let pools_done = cleanup_pools-Does view b pl st.pools s2 kept.there in
      let s3 = (cleanup_pools b st.pools s2).1 in
      let monitors : (view s3).monitors ≡ (view s).monitors =
        ap (λ d. d.monitors) pools_done.leaves
        ∙ kept.monitors
        ∙ ap (λ d. d.monitors) vips_done.leaves in
      let monitor_done = cleanup_monitor-Does ml st.monitor s3 (rw monitors monitor) in
      let pools : (view s3).pools ≡ without (view s).pools names =
        ap (λ d. d.pools) pools_done.leaves
        ∙ kept.rest
        ∙ ap (λ d. without d.pools names) vips_done.leaves in
      let vips : (view s3).vips ≡ without (view s).vips (vip_names st.vips) =
        ap (λ d. d.vips) pools_done.leaves ∙ kept.vips ∙ ap (λ d. d.vips) vips_done.leaves in
      let m = st.monitor in
      let leaves : ◌≡◌ {A = Device}
          (record (view s3) {
            monitors =
                if is_zero_monitor m
                then (view s3).monitors
                else put (view s3).monitors m.name none;
          })
          (cleaned st (view s)) =
        λ i. record {
          monitors = if is_zero_monitor m then monitors i else put (monitors i) m.name none;
          pools = pools i;
          vips = vips i;
        } in
      let last = cleanup_monitor b m in
      let members : Does view (cleanup_members b st.pools) s1 tt (view s2) = record {
        returns = members_done;
        leaves = refl;
      } in
      Does-seq view (cleanup_vips b st.vips) _ s vips_done (
        Does-seq view (cleanup_members b st.pools) (cleanup_pools b st.pools >> last) s1 members (
          Does-seq view (cleanup_pools b st.pools) last s2 pools_done
            (Does-cast view last s3 leaves monitor_done)))

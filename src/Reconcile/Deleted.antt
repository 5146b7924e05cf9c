-- ===== src/Reconcile/Deleted.antt =====
-- The whole of `Reconcile` and `finalizeLoadBalancer`, for a load balancer that is being deleted.
use lbconfig_operator.Base.{
  String, ◌<>◌, ℤ, ◌≡◌, ◌≢◌, refl, sym, ap, subst, ◌∙◌, fun_ext, true, false, Option, none, some,
  List, [], ◌∷◌, map, arith, string_eq, int_eq, contains, ◌>>◌, to_lower,
}
use text.Mathlib.TextEquality.{eq_iff}
use text.Mathlib.TextLemmas.{append-eq-nil_iff}
use lbconfig_operator.Base.Dict.{Dict, lookup}
use lbconfig_operator.Api.{Node, Monitor, ExternalLoadBalancer}
use lbconfig_operator.Backend.{Backend}
use lbconfig_operator.Backend.Handle.{is_zero_monitor, handle_cleanup}
use lbconfig_operator.Backend.Device.{
  Device, Does, Does-bind, Does-seq, Does-cast, Does-return, Unique, put,
}
use lbconfig_operator.Backend.Loops.{All, All-map, Installed, without}
use lbconfig_operator.Backend.Stages.{MemberFrame, pool_names, vip_names}
use lbconfig_operator.Backend.Cleanup.{cleaned, handle_cleanup-Does}
use lbconfig_operator.Labels.{compute_labels}
use lbconfig_operator.Nodes.{KubeNode, select_nodes}
use lbconfig_operator.Registry.{Registry}
use lbconfig_operator.Reconcile.{
  NamespacedName, Cluster, finalizer, metric_key, monitor_for, pool_name, pool_for, vip_for,
}
use lbconfig_operator.Reconcile.Loop.{
  is_unselective, configure, save_status, finalize_load_balancer, finish, reconcile_on, reconcile,
}
use lbconfig_operator.Reconcile.Pools.{NodupHosts, pool_name-injective}
use lbconfig_operator.Reconcile.Vips.{vip_name, vip_name-injective}
use lbconfig_operator.Reconcile.Configure.{ProviderLaws, Suits, Configured, configure-Configured}
use lbconfig_operator.Reconcile.Again.{put_here}
use lbconfig_operator.Reconcile.Served.{Serves, reconcile-Does}
use lbconfig_operator.Reconcile.Whole.{saved, Does-save}

some-ne-none : {A : Type 0} (a : A) → some a ≢ none
some-ne-none a h = cc

abbrev pub NodupPorts : List ℤ → Type 0
NodupPorts [] = Unit
NodupPorts (p ∷ ports) = (contains ports p ≡ false) × NodupPorts ports

contains-map :
    (f : ℤ → String)
    → ((p q : ℤ) → f p ≡ f q → p ≡ q)
    → (ports : List ℤ) (p : ℤ) → contains ports p ≡ false
    → contains (map f ports) (f p) ≡ false
contains-map f inj [] p h = refl
contains-map f inj (q ∷ ports) p h = ground (arith, inj q p, contains-map f inj ports p)

Installed-map :
    {A : Type 0} (t : String → Option A) (f : ℤ → String)
    → ((p q : ℤ) → f p ≡ f q → p ≡ q)
    → (ports : List ℤ) → NodupPorts ports
    → All (λ p. t (f p) ≢ none) ports
    → Installed t (map f ports)
Installed-map t f inj [] u all = tt
Installed-map t f inj (p ∷ ports) (fresh, u) (here, all) =
    (here, contains-map f inj ports p fresh, Installed-map t f inj ports u all)

vip_names-vip_for :
    (lb : ExternalLoadBalancer) (ports : List ℤ)
    → vip_names (map (vip_for lb) ports) ≡ map (vip_name lb) ports
unfolding vip_for
vip_names-vip_for lb [] = refl
vip_names-vip_for lb (p ∷ ports) = λ i. vip_name lb p ∷ vip_names-vip_for lb ports i

monitor_name-ne-nil : (name : String) → "Monitor-" <> name ≢ ""
monitor_name-ne-nil name h =
    let prefix : ◌≡◌ {A = String} "Monitor-" "" = (append-eq-nil_iff.0 h).0 in
    ground (arith, eq_iff "Monitor-" "")

monitor_for-ne-zero : (lb : ExternalLoadBalancer) → is_zero_monitor (monitor_for lb) ≡ false
monitor_for-ne-zero lb = ground (arith, monitor_name-ne-nil lb.name)

put-put :
    {A : Type 0} (f : String → Option A) (k : String) (v w : Option A)
    → put (put f k v) k w ≡ put f k w
put-put f k v w = fun_ext λ j. ground arith

-- The device without anything of the load balancer.
abbrev pub removed : ExternalLoadBalancer → Device → Device
removed lb d = record {
  monitors = put d.monitors (monitor_for lb).name none;
  pools = without d.pools (map (pool_name lb) lb.spec.ports);
  vips = without d.vips (map (vip_name lb) lb.spec.ports);
}

-- After the session of `Reconcile` the cleanup of its status leaves the device without them.
cleaned-Configured :
    (lb x : ExternalLoadBalancer) (nodes : List Node) (before d : Device)
    → Configured lb nodes before d
    → x.status.vips ≡ map (vip_for lb) lb.spec.ports
    → pool_names x.status.pools ≡ map (pool_name lb) lb.spec.ports
    → x.status.monitor ≡ monitor_for lb
    → cleaned x.status d ≡ removed lb before
cleaned-Configured lb x nodes before d h vips pools monitor =
    let name = (monitor_for lb).name in
    let monitors : (cleaned x.status d).monitors ≡ put before.monitors name none =
      rw (monitor, monitor_for-ne-zero lb)
        (ap (λ f. put f name none) h.monitors
          ∙ put-put before.monitors name (some h.monitor) none) in
    let pools : (cleaned x.status d).pools ≡ (removed lb before).pools =
      ap (without d.pools) pools ∙ h.other_pools in
    let vips : (cleaned x.status d).vips ≡ (removed lb before).vips =
      ap (λ vs. without d.vips (vip_names vs)) vips
      ∙ ap (without d.vips) (vip_names-vip_for lb lb.spec.ports)
      ∙ h.other_vips in
    λ i. record { monitors = monitors i; pools = pools i; vips = vips i }

-- What the session left is there to be removed.
pub Configured-Installed :
    (lb : ExternalLoadBalancer) (nodes : List Node) (before d : Device)
    (h : Configured lb nodes before d)
    → NodupPorts lb.spec.ports
    → Installed d.vips (map (vip_name lb) lb.spec.ports)
      × Installed d.pools (map (pool_name lb) lb.spec.ports)
      × (d.monitors (monitor_for lb).name ≡ some h.monitor)
unfolding pool_for vip_for
Configured-Installed lb nodes before d h u =
    let vips = All-map (λ p v e. some-ne-none v.found (sym v.at_name ∙ e)) lb.spec.ports h.vips in
    let pools = All-map (λ p q e. some-ne-none q.found (sym q.at_name ∙ e)) lb.spec.ports h.pools in
    (
      Installed-map d.vips (vip_name lb) (vip_name-injective lb) lb.spec.ports u vips,
      Installed-map d.pools (pool_name lb) (pool_name-injective lb) lb.spec.ports u pools,
      ap (λ f. f (monitor_for lb).name) h.monitors
          ∙ put_here before.monitors (monitor_for lb).name (some h.monitor),
    )

module _ {S : Type 0} (view : S → Device) (c : Cluster S) (req : NamespacedName)
    (lb : ExternalLoadBalancer) (items : List KubeNode) (secret : Dict String)
    (serves : Serves view c req lb items secret) (b : Backend S) (laws : ProviderLaws view b)
    (frame : MemberFrame view b) where
  Does-finish_deleted :
      (x : ExternalLoadBalancer) (s : S)
      → x.deleting ≡ true
      → contains x.finalizers finalizer ≡ true
      → Installed (view s).vips (vip_names x.status.vips)
      → Installed (view s).pools (pool_names x.status.pools)
      → (old : Monitor) × ((view s).monitors x.status.monitor.name ≡ some old)
        × laws.monitors.suits (some old) x.status.monitor ≡ true
      → Does view (finish c b x) s tt (cleaned x.status (view s))
  unfolding finish finalize_load_balancer
  Does-finish_deleted x s deleting listed vips pools monitor =
      simp (deleting, listed)
        (Does-seq view (finalize_load_balancer c b x) _ s done (
          Does-return view (c.update (c.remove_finalizer finalizer x)) t tt
            (Does-cast view _ t done.leaves (serves.update (c.remove_finalizer finalizer x) t))))
    where
      t : S
      t = (finalize_load_balancer c b x s).1

      done : Does view (finalize_load_balancer c b x) s tt (cleaned x.status (view s))
      done =
          let s1 = (b.connect s).1 in
          let opened = laws.connect s in
          let wiped =
            handle_cleanup-Does view b laws.vips laws.pools laws.monitors frame x s1
              (rw opened.leaves vips) (rw opened.leaves pools) (rw opened.leaves (λ _. monitor)) in
          let s2 = (handle_cleanup b x s1).1 in
          let at2 = wiped.leaves ∙ ap (cleaned x.status) opened.leaves in
          let closed = Does-cast view b.close s2 at2 (laws.close s2) in
          let s3 = (b.close s2).1 in
          let last = c.delete_nodes (metric_key x) in
          Does-seq view b.connect _ s opened (
            Does-seq view (handle_cleanup b x) (b.close >> last) s1 wiped (
              Does-seq view b.close last s2 closed
                (Does-cast view last s3 closed.leaves (serves.delete_nodes (metric_key x) s3))))

  module _ (providers : Registry S)
      (registered : lookup (to_lower lb.spec.provider.vendor) providers ≡ some b)
      (selective : is_unselective lb ≡ false)
      (hosts : NodupHosts (select_nodes (compute_labels lb) items)) where
    -- For a load balancer that is being deleted and lists the operator's finalizer, that the cluster
    -- serves, with a registered vendor whose provider and device obey the laws, with a type or node
    -- labels, with distinct ports, with selected nodes of distinct hosts, and with a device on which no
    -- pool has a member twice and whose objects under the load balancer's names the provider can bring
    -- to what is wanted, `Reconcile` returns no error, whatever errors the cleanup's
    -- deletions of pool members report. Afterwards the device has neither its monitor nor, for any
    -- port, its pool or its virtual server; all else on the device is unchanged.
    pub reconcile-Removed :
        (s : S)
        → lb.deleting ≡ true
        → contains lb.finalizers finalizer ≡ true
        → NodupPorts lb.spec.ports
        → Suits view b laws lb (select_nodes (compute_labels lb) items) (view s)
        → Unique (view s)
        → Does view (reconcile c providers req) s tt (removed lb (view s))
    unfolding reconcile_on
    reconcile-Removed s deleting listed ports suits u =
        let (d, does, e) =
          reconcile-Does view c providers req lb items secret serves b laws registered selective s
            (λ d. d ≡ removed lb (view s))
            λ t same.
              let nodes = select_nodes (compute_labels lb) items in
              let (pools, d, configured, names, holds) =
                configure-Configured view b laws lb nodes t hosts
                  (subst (Suits view b laws lb nodes) (sym same) suits)
                  (subst Unique (sym same) u) in
              let t1 = (configure b lb nodes t).1 in
              let vips = map (vip_for lb) lb.spec.ports in
              let save = save_status c req lb vips nodes pools (compute_labels lb) in
              let kept = Does-save view c providers req lb items secret serves b laws pools t1 in
              let t2 = (save t1).1 in
              let x = saved view c providers req lb items secret serves b laws pools in
              let at2 = kept.leaves ∙ configured.leaves in
              let (on_vips, on_pools, on_monitor) =
                Configured-Installed lb nodes (view t) d holds ports in
              let there_vips : Installed (view t2).vips (vip_names vips) =
                rw (at2, vip_names-vip_for lb lb.spec.ports) on_vips in
              let there_pools : Installed (view t2).pools (pool_names pools) =
                subst (Installed (view t2).pools) (sym names) (
                  subst (λ e. Installed e.pools (map (pool_name lb) lb.spec.ports)) (sym at2)
                    on_pools) in
              let there_monitor : (old : Monitor) × ((view t2).monitors (monitor_for lb).name
                    ≡ some old)
                  × laws.monitors.suits (some old) (monitor_for lb) ≡ true =
                (
                  holds.monitor,
                  rw at2 on_monitor,
                  laws.monitors.suits_same holds.monitor (monitor_for lb)
                      (laws.monitors.suits_fresh _ (monitor_for lb) suits.monitor)
                      holds.same_monitor,
                ) in
              let last =
                Does-cast view _ t2 (ap (cleaned x.status) at2)
                  (Does-finish_deleted x t2 deleting listed there_vips there_pools there_monitor) in
              (
                cleaned x.status d,
                Does-bind view (configure b lb nodes) _ t configured
                    (Does-bind view save _ t1 kept last),
                cleaned-Configured lb x nodes (view t) d holds refl names refl
                    ∙ ap (removed lb) same,
              ) in
        Does-cast view _ s e does

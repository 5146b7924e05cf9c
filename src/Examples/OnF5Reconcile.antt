-- ===== src/Examples/OnF5Reconcile.antt =====
-- The theorems on `Reconcile` and on the handlers at the provider of f5_controller.go, over a BIG-IP in
-- memory: two ports and two nodes, before and after the deletion of the load balancer.
use lbconfig_operator.Base.{
  pos, ◌≡◌, refl, sym, subst, true, false, some, List, map, string_eq, int_eq,
}
use lbconfig_operator.Api.{Monitor, Vip, Pool, ExternalLoadBalancer}
use lbconfig_operator.Backend.Device.{Device, Does, SameMonitor, SameVip, put_monitor, put_vip}
use lbconfig_operator.Backend.Loops.{Installed}
use lbconfig_operator.Backend.Handle.{handle_monitors, handle_vip, handle_cleanup, is_zero_monitor}
use lbconfig_operator.Backend.Single.{handle_monitors-Does, handle_vip-Does}
use lbconfig_operator.Backend.Cleanup.{cleaned, handle_cleanup-Does}
use lbconfig_operator.Backend.Stages.{vip_names, pool_names}
use lbconfig_operator.Labels.{compute_labels}
use lbconfig_operator.Reconcile.{monitor_for, pool_for, pool_name, vip_for}
use lbconfig_operator.Reconcile.Loop.{configure, reconcile}
use lbconfig_operator.Reconcile.Configure.{ProviderLaws, Suits, Configured, configure-Configured}
use lbconfig_operator.Reconcile.Settled.{reconcile-settled}
use lbconfig_operator.Reconcile.Whole.{reconcile-Configured}
use lbconfig_operator.Reconcile.Deleted.{Configured-Installed, removed, reconcile-Removed}
use lbconfig_operator.Reconcile.Again.{configure-again, Suits-Configured}
use lbconfig_operator.Providers.F5.Config.{folder}
use lbconfig_operator.Providers.F5.Methods.{create}
use lbconfig_operator.Providers.F5.Appliance.{Appliance}
use lbconfig_operator.Providers.F5.View.{keeps_monitor, keeps_member}
use lbconfig_operator.Providers.F5.Lawful.{suits_monitor, suits_vip}
use lbconfig_operator.Providers.F5.Provides.{methods-Lawful}
use lbconfig_operator.Examples.Memory.{cluster, cluster-Serves}
use lbconfig_operator.Examples.BigIpMemory.{itself}
use lbconfig_operator.Examples.BigIpWhole.{whole, folder-common, slashless}
use lbconfig_operator.Examples.Sample.{balancer, doomed, kube_nodes, secret, name_of_balancer}
use lbconfig_operator.Examples.F5World.{
  empty, empty-Unique, f5_frame, f5_laws, hosted, hosts, laws_at, listed, made, moved, nodes,
  object, objects_at, occupied, plain, ports, provider, registered, registry, selective, suits,
  suits_doomed, suits_moved, view,
}

methods-Lawful_example :
    (laws : ProviderLaws view provider) × (laws.monitors.suits ≡ suits_monitor)
    × (laws.vips.suits ≡ suits_vip (folder ""))
    × (laws.pools.fits_monitor ≡ keeps_monitor (folder ""))
    × (laws.pools.fits_member ≡ keeps_member)
methods-Lawful_example =
    methods-Lawful "" slashless plain itself object (λ a. sym folder-common) whole laws_at
      objects_at (create (λ p a. a)) hosted made

reconcile-Configured_example :
    (d : Device) × Does view
      (reconcile (cluster balancer kube_nodes secret) registry name_of_balancer)
      empty
      tt
      d
    × Configured balancer nodes (view empty) d
reconcile-Configured_example =
    reconcile-Configured view (cluster balancer kube_nodes secret) registry name_of_balancer
      balancer kube_nodes secret (cluster-Serves balancer kube_nodes secret view name_of_balancer)
      provider f5_laws registered (rw selective refl) hosts empty refl suits empty-Unique

reconcile-Removed_example :
    Does view
      (reconcile (cluster doomed kube_nodes secret) registry name_of_balancer)
      empty
      tt
      (removed doomed (view empty))
unfolding compute_labels
reconcile-Removed_example =
    reconcile-Removed view (cluster doomed kube_nodes secret) name_of_balancer doomed kube_nodes
      secret (cluster-Serves doomed kube_nodes secret view name_of_balancer) provider f5_laws
      f5_frame registry registered (rw selective refl) hosts empty refl listed ports suits_doomed
      empty-Unique

configure-Configured_example :
    (pools : List Pool) × (d : Device) × Does view
      (configure provider balancer nodes)
      empty
      (pools, map (vip_for balancer) balancer.spec.ports)
      d
    × (map (λ p. p.name) pools ≡ map (pool_name balancer) balancer.spec.ports)
    × Configured balancer nodes (view empty) d
configure-Configured_example =
    configure-Configured view provider f5_laws balancer nodes empty hosts suits empty-Unique

-- BIG-IP after a session.
abbrev served : Appliance
served = (configure provider balancer nodes empty).1

served-Configured : Configured balancer nodes (view empty) (view served)
served-Configured =
    let (pools, d, does, names, h) =
      configure-Configured view provider f5_laws balancer nodes empty hosts suits empty-Unique in
    subst (Configured balancer nodes (view empty)) (sym does.leaves) h

suits_served : Suits view provider f5_laws balancer nodes (view served)
suits_served =
    Suits-Configured view provider f5_laws balancer nodes (view empty) (view served) suits
      served-Configured

configure-again_example :
    Does view
      (configure provider balancer nodes)
      served
      (
        map (pool_for balancer nodes (monitor_for balancer)) balancer.spec.ports,
        map (vip_for balancer) balancer.spec.ports,
      )
      (view served)
configure-again_example =
    configure-again view provider f5_laws balancer nodes (view empty) served suits_served
      served-Configured

reconcile-settled_example :
    Does view
      (reconcile (cluster balancer kube_nodes secret) registry name_of_balancer)
      served
      tt
      (view served)
reconcile-settled_example =
    reconcile-settled view (cluster balancer kube_nodes secret) registry name_of_balancer balancer
      kube_nodes secret (cluster-Serves balancer kube_nodes secret view name_of_balancer) provider
      f5_laws registered (rw selective refl) (view empty) served refl suits_served served-Configured

handle_monitors-Does_example :
    (found : Monitor) × SameMonitor found (monitor_for balancer)
    × Does view
        (handle_monitors provider (monitor_for balancer))
        empty
        tt
        (put_monitor (view empty) (monitor_for balancer).name (some found))
handle_monitors-Does_example =
    handle_monitors-Does view provider f5_laws.monitors (monitor_for balancer) empty suits.monitor

handle_vip-Does_example :
    (found : Vip) × SameVip found (vip_for moved (pos 80))
    × Does view
        (handle_vip provider (vip_for moved (pos 80)))
        occupied
        tt
        (put_vip (view occupied) (vip_for moved (pos 80)).name (some found))
unfolding vip_for
handle_vip-Does_example =
    handle_vip-Does view provider f5_laws.vips (vip_for moved (pos 80)) occupied suits_moved.vips.0

-- The load balancer with the status of the session.
abbrev saved : ExternalLoadBalancer
saved = record balancer {
  status = record balancer.status {
    vips = map (vip_for balancer) balancer.spec.ports;
    pools = map (pool_for balancer nodes (monitor_for balancer)) balancer.spec.ports;
    monitor = monitor_for balancer;
  };
}

vips_there : Installed (view served).vips (vip_names saved.status.vips)
unfolding vip_for
vips_there =
    (Configured-Installed balancer nodes (view empty) (view served) served-Configured ports).0

pools_there : Installed (view served).pools (pool_names saved.status.pools)
unfolding pool_for
pools_there =
    (Configured-Installed balancer nodes (view empty) (view served) served-Configured ports).1

handle_cleanup-Does_example :
    Does view (handle_cleanup provider saved) served tt (cleaned saved.status (view served))
handle_cleanup-Does_example =
    handle_cleanup-Does view provider f5_laws.vips f5_laws.pools f5_laws.monitors f5_frame saved
      served vips_there pools_there monitor_there
  where
    monitor_there :
        is_zero_monitor (monitor_for balancer) ≡ false
        → (old : Monitor) × ((view served).monitors (monitor_for balancer).name ≡ some old)
          × f5_laws.monitors.suits (some old) (monitor_for balancer) ≡ true
    monitor_there e =
        let h = served-Configured in
        let at =
          (Configured-Installed balancer nodes (view empty) (view served) served-Configured
            ports).2 in
        (
          h.monitor,
          at,
          subst (λ o. f5_laws.monitors.suits o (monitor_for balancer) ≡ true) at
              suits_served.monitor,
        )

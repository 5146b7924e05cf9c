-- ===== src/Reconcile/Isolated.antt =====
-- What a session of `Reconcile` of externalloadbalancer_controller.go with a provider leaves alone,
-- whether it ends well or not.
use lbconfig_operator.Base.{
  String, ◌<>◌, ℤ, ◌≡◌, refl, true, Option, none, some, List, [], ◌∷◌, ◌==◌, map, contains,
  string_eq, Bool-cases, inl, inr, ok, arith, for_each,
}
use lbconfig_operator.Base.Keeps.{Keeps-bind}
use lbconfig_operator.Api.{Monitor, Provider, Node, Pool, PoolMember, Vip, ExternalLoadBalancer}
use lbconfig_operator.Backend.{Backend}
use lbconfig_operator.Backend.Handle.{
  missing, monitor_differs, vip_differs, update_monitor, handle_monitors, update_pool_monitor,
  update_pool, make_pool, handle_found_pool, handle_pool, update_vip, handle_vip,
}
use lbconfig_operator.Reconcile.{
  monitor_for, pool_name, pool_for, vip_for, handle_pools, handle_vips,
}
use lbconfig_operator.Reconcile.Loop.{configure}
use lbconfig_operator.Reconcile.Vips.{vip_name}
use lbconfig_operator.Base.Keeps.{Keeps, Keeps-seq, wrap-Keeps, for_each-Keeps}

-- The names that `Reconcile` gives to the pools and the virtual servers of the load balancer.
abbrev pub OwnPool : ExternalLoadBalancer → Pool → Type 0
OwnPool lb p = contains (map (pool_name lb) lb.spec.ports) p.name ≡ true

abbrev pub OwnVip : ExternalLoadBalancer → Vip → Type 0
OwnVip lb v = contains (map (vip_name lb) lb.spec.ports) v.name ≡ true

abbrev pub OwnMonitor : ExternalLoadBalancer → Monitor → Type 0
OwnMonitor lb m = m.name ≡ "Monitor-" <> lb.name

-- The reads leave what `view` shows, and so do the writes of an object under a name of the load
-- balancer, whether they succeed or not. `EditPool` does not rename the caller's pool.
pub record OwnCalls {S D : Type 0} (view : S → D) (lb : ExternalLoadBalancer) (b : Backend S)
    : Type 0 where
  pub get_monitor : (m : Monitor) → Keeps view (b.get_monitor m)
  pub create_monitor : (m : Monitor) → OwnMonitor lb m → Keeps view (b.create_monitor m)
  pub edit_monitor : (m : Monitor) → OwnMonitor lb m → Keeps view (b.edit_monitor m)
  pub delete_monitor : (m : Monitor) → OwnMonitor lb m → Keeps view (b.delete_monitor m)
  pub get_pool : (p : Pool) → Keeps view (b.get_pool p)
  pub get_pool_members : (p : Pool) → Keeps view (b.get_pool_members p)
  pub create_pool : (p : Pool) → OwnPool lb p → Keeps view (b.create_pool p)
  pub edit_pool : (p : Pool) → OwnPool lb p → Keeps view (b.edit_pool p)
  pub edit_pool_name : (p q : Pool) (s : S) → (b.edit_pool p s).0 ≡ ok q → q.name ≡ p.name
  pub delete_pool : (p : Pool) → OwnPool lb p → Keeps view (b.delete_pool p)
  pub create_pool_member :
      (m : PoolMember) (p : Pool) → OwnPool lb p → Keeps view (b.create_pool_member m p)
  pub delete_pool_member :
      (m : PoolMember) (p : Pool) → OwnPool lb p → Keeps view (b.delete_pool_member m p)
  pub get_vip : (v : Vip) → Keeps view (b.get_vip v)
  pub create_vip : (v : Vip) → OwnVip lb v → Keeps view (b.create_vip v)
  pub edit_vip : (v : Vip) → OwnVip lb v → Keeps view (b.edit_vip v)
  pub delete_vip : (v : Vip) → OwnVip lb v → Keeps view (b.delete_vip v)

-- The same of all calls.
pub record OwnFrame {S D : Type 0} (view : S → D) (lb : ExternalLoadBalancer) (b : Backend S)
    : Type 0 where
  pub create : (p : Provider) (user password : String) → Keeps view (b.create p user password)
  pub connect : Keeps view b.connect
  pub close : Keeps view b.close
  pub calls : OwnCalls view lb b

module _ {S D : Type 0} (view : S → D) where
  module _ (b : Backend S) (lb : ExternalLoadBalancer) (calls : OwnCalls view lb b) where
    update_monitor-Keeps :
        (m : Monitor) (o : Option Monitor) → OwnMonitor lb m → Keeps view (update_monitor b m o)
    unfolding update_monitor
    update_monitor-Keeps m none own = calls.create_monitor m own
    update_monitor-Keeps m (some x) own = elim (Bool-cases (monitor_differs m x)) [
      | inl e ↦ rw e (calls.edit_monitor m own)
      | inr e ↦ rw e (record { kept = λ s. refl })
    ]

    pub handle_monitors-Keeps : (m : Monitor) → OwnMonitor lb m → Keeps view (handle_monitors b m)
    unfolding handle_monitors
    handle_monitors-Keeps m own =
        Keeps-bind view _ (update_monitor b m)
          (wrap-Keeps view _ (b.get_monitor m) (calls.get_monitor m))
          λ o s e. update_monitor-Keeps m o own

    update_pool_monitor-Keeps : (p q : Pool) → OwnPool lb p → Keeps view (update_pool_monitor b p q)
    unfolding update_pool_monitor
    update_pool_monitor-Keeps p q own = elim (Bool-cases (p.monitor == q.monitor)) [
      | inl e ↦ rw e (record { kept = λ s. refl })
      | inr e ↦ rw e (calls.edit_pool p own)
    ]

    pub update_pool_monitor-name :
        (p q x : Pool) (s : S) → (update_pool_monitor b p q s).0 ≡ ok x → x.name ≡ p.name
    unfolding update_pool_monitor
    update_pool_monitor-name p q x s h = elim (Bool-cases (p.monitor == q.monitor)) [
      | inl e ↦ cc (rw e at h)
      | inr e ↦ calls.edit_pool_name p x s (rw e at h)
    ]

    update_pool-Keeps : (p : Pool) (o : Option Pool) → OwnPool lb p → Keeps view (update_pool b p o)
    unfolding update_pool
    update_pool-Keeps p none own = record { kept = λ s. refl }
    update_pool-Keeps p (some q) own =
        Keeps-bind view (update_pool_monitor b p q) _ (update_pool_monitor-Keeps p q own) λ x s e.
          let named = update_pool_monitor-name p q x s e in
          let owned : OwnPool lb x = rw named own in
          Keeps-seq view (for_each _ (missing p.members q.members)) _
            (for_each-Keeps view _ (missing p.members q.members)
              λ m. calls.create_pool_member m x owned)
            (Keeps-seq view (for_each _ (missing q.members p.members)) _
              (for_each-Keeps view _ (missing q.members p.members)
                λ m. calls.delete_pool_member m x owned)
              (record { kept = λ t. refl }))

    make_pool-Keeps : (p : Pool) → OwnPool lb p → Keeps view (make_pool b p)
    unfolding make_pool
    make_pool-Keeps p own = Keeps-seq view (b.create_pool p) _ (calls.create_pool p own) (
        Keeps-seq view (for_each _ p.members) _
          (for_each-Keeps view _ p.members λ m. calls.create_pool_member m p own)
          (record { kept = λ t. refl }))

    handle_found_pool-Keeps :
        (p : Pool) (o : Option Pool) → OwnPool lb p → Keeps view (handle_found_pool b p o)
    unfolding handle_found_pool
    handle_found_pool-Keeps p none own = make_pool-Keeps p own
    handle_found_pool-Keeps p (some q) own =
        Keeps-bind view (b.get_pool_members q) (update_pool b p) (calls.get_pool_members q)
          λ o s e. update_pool-Keeps p o own

    handle_pool-Keeps : (p : Pool) → OwnPool lb p → Keeps view (handle_pool b p)
    unfolding handle_pool
    handle_pool-Keeps p own =
        Keeps-bind view (b.get_pool p) (handle_found_pool b p) (calls.get_pool p)
          λ o s e. handle_found_pool-Keeps p o own

    update_vip-Keeps : (v : Vip) (o : Option Vip) → OwnVip lb v → Keeps view (update_vip b v o)
    unfolding update_vip
    update_vip-Keeps v none own = calls.create_vip v own
    update_vip-Keeps v (some x) own = elim (Bool-cases (vip_differs v x)) [
      | inl e ↦ rw e (calls.edit_vip v own)
      | inr e ↦ rw e (record { kept = λ s. refl })
    ]

    handle_vip-Keeps : (v : Vip) → OwnVip lb v → Keeps view (handle_vip b v)
    unfolding handle_vip
    handle_vip-Keeps v own =
        Keeps-bind view (b.get_vip v) (update_vip b v) (calls.get_vip v)
          λ o s e. update_vip-Keeps v o own

    pub handle_pools-Keeps :
        (nodes : List Node) (m : Monitor) (ports : List ℤ)
        → ((k : String)
            → contains (map (pool_name lb) ports) k ≡ true
            → contains (map (pool_name lb) lb.spec.ports) k ≡ true)
        → Keeps view (handle_pools b lb nodes m ports)
    unfolding handle_pools pool_for
    handle_pools-Keeps nodes m [] own = record { kept = λ s. refl }
    handle_pools-Keeps nodes m (p ∷ ports) own =
        Keeps-bind view (handle_pool b (pool_for lb nodes m p)) _
          (handle_pool-Keeps (pool_for lb nodes m p) (own (pool_name lb p) (ground arith)))
          λ x s e.
            Keeps-bind view (handle_pools b lb nodes m ports) _
              (handle_pools-Keeps nodes m ports λ k h. own k (ground arith))
              λ xs t e2. record { kept = λ u. refl }

    pub handle_vips-Keeps :
        (ports : List ℤ)
        → ((k : String)
            → contains (map (vip_name lb) ports) k ≡ true
            → contains (map (vip_name lb) lb.spec.ports) k ≡ true)
        → Keeps view (handle_vips b lb ports)
    unfolding handle_vips vip_for
    handle_vips-Keeps [] own = record { kept = λ s. refl }
    handle_vips-Keeps (p ∷ ports) own =
        Keeps-bind view (handle_vip b (vip_for lb p)) _
          (handle_vip-Keeps (vip_for lb p) (own (vip_name lb p) (ground arith)))
          λ x s e.
            Keeps-bind view (handle_vips b lb ports) _
              (handle_vips-Keeps ports λ k h. own k (ground arith))
              λ xs t e2. record { kept = λ u. refl }

  module _ (b : Backend S) (lb : ExternalLoadBalancer) (frame : OwnFrame view lb b) where
    pub configure-Keeps : (nodes : List Node) → Keeps view (configure b lb nodes)
    unfolding configure
    configure-Keeps nodes = Keeps-seq view b.connect _ frame.connect (
        Keeps-seq view _ _
          (wrap-Keeps view _ (handle_monitors b (monitor_for lb))
            (handle_monitors-Keeps b lb frame.calls (monitor_for lb) refl))
          (Keeps-bind view (handle_pools b lb nodes (monitor_for lb) lb.spec.ports) _
            (handle_pools-Keeps b lb frame.calls nodes (monitor_for lb) lb.spec.ports λ k h. h)
            λ pools t e.
              Keeps-bind view (handle_vips b lb lb.spec.ports) _
                (handle_vips-Keeps b lb frame.calls lb.spec.ports λ k h. h)
                λ vips t2 e2. Keeps-seq view b.close _ frame.close (record { kept = λ u. refl })))

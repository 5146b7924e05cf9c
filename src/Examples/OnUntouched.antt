-- ===== src/Examples/OnUntouched.antt =====
-- A run of `Reconcile` for one load balancer, on a device that holds the objects of another.
use lbconfig_operator.Base.{
  String, ◌<>◌, ◌≡◌, refl, subst, sym, ◌∙◌, none, Bool, if◌then◌else◌, true, false, ◌==◌, Option,
  some, List, [], ◌∷◌, map, contains, string_eq, Outcome, ok, to_lower, arith, itoa,
}
use mathlib.Core.Option.{some-injective}
use lbconfig_operator.Base.Dict.{lookup}
use lbconfig_operator.Api.{Monitor, Pool, Vip, ExternalLoadBalancer}
use lbconfig_operator.Backend.Device.{Device}
use lbconfig_operator.Registry.{Registry}
use lbconfig_operator.Reconcile.{Cluster, pool_name}
use lbconfig_operator.Reconcile.Loop.{reconcile}
use lbconfig_operator.Reconcile.Vips.{vip_name}
use lbconfig_operator.Reconcile.Isolated.{OwnPool, OwnVip, OwnMonitor, OwnFrame}
use lbconfig_operator.Reconcile.Untouched.{WorldFrame, VendorFrame, reconcile-untouched}
use lbconfig_operator.Examples.Memory.{memory, cluster}
use lbconfig_operator.Examples.Sample.{
  monitor, new_pool, vip, balancer, busy_device, kube_nodes, secret, name_of_balancer,
}

-- The objects of the load balancer "api" on the device.
abbrev others : Device → Option Monitor × Option Pool × Option Vip
others d = (d.monitors "Monitor-api", d.pools "Pool-api-80", d.vips "VIP-api-80")

no_pool : contains (map (pool_name balancer) balancer.spec.ports) "Pool-api-80" ≡ false
unfolding string_eq itoa
no_pool = refl

no_vip : contains (map (vip_name balancer) balancer.spec.ports) "VIP-api-80" ≡ false
unfolding string_eq itoa
no_vip = refl

absent_ne :
    (names : List String) (j k : String)
    → contains names j ≡ false
    → contains names k ≡ true
    → (j == k) ≡ false
absent_ne names j k absent listed = elim (string_eq.dec j k) [
  | yes same ↦ absurd (false_true (contains names) j k same absent listed)
  | no other ↦ ground arith
]
  where
    false_true : (f : String → Bool) (j k : String) → j ≡ k → f j ≡ false → f k ≡ true → ⊥
    false_true f j k same a b = cc

pool_ne : (p : Pool) → OwnPool balancer p → ("Pool-api-80" == p.name) ≡ false
pool_ne p own =
    absent_ne (map (pool_name balancer) balancer.spec.ports) "Pool-api-80" p.name no_pool own

vip_ne : (v : Vip) → OwnVip balancer v → ("VIP-api-80" == v.name) ≡ false
vip_ne v own =
    absent_ne (map (vip_name balancer) balancer.spec.ports) "VIP-api-80" v.name no_vip own

no_monitor : ◌==◌ {A = String} "Monitor-api" ("Monitor-" <> balancer.name) ≡ false
unfolding string_eq
no_monitor = refl

monitor_ne : (m : Monitor) → OwnMonitor balancer m → ("Monitor-api" == m.name) ≡ false
monitor_ne m own = rw own no_monitor

memory-OwnFrame : OwnFrame others balancer memory
memory-OwnFrame = record {
  create = λ p user password. record { kept = λ s. refl };
  connect = record { kept = λ s. refl };
  close = record { kept = λ s. refl };
  calls = record {
    get_monitor = λ m. record { kept = λ s. refl };
    create_monitor = λ m own. record { kept = λ s. rw (monitor_ne m own) refl };
    edit_monitor = λ m own. record { kept = λ s. rw (monitor_ne m own) refl };
    delete_monitor = λ m own. record { kept = λ s. rw (monitor_ne m own) refl };
    get_pool = λ p. record { kept = λ s. refl };
    get_pool_members = λ p. record { kept = λ s. refl };
    create_pool = λ p own. record { kept = λ s. rw (pool_ne p own) refl };
    edit_pool = λ p own. record { kept = λ s. rw (pool_ne p own) refl };
    edit_pool_name = λ p q s h. cc (pool-injective p q h);
    delete_pool = λ p own. record { kept = λ s. rw (pool_ne p own) refl };
    create_pool_member = λ m p own. record { kept = λ s. rw (pool_ne p own) refl };
    delete_pool_member = λ m p own. record { kept = λ s. rw (pool_ne p own) refl };
    get_vip = λ v. record { kept = λ s. refl };
    create_vip = λ v own. record { kept = λ s. rw (vip_ne v own) refl };
    edit_vip = λ v own. record { kept = λ s. rw (vip_ne v own) refl };
    delete_vip = λ v own. record { kept = λ s. rw (vip_ne v own) refl };
  };
}
  where
    pool-injective : (p q : Pool) → ◌≡◌ {A = Outcome Pool} (ok p) (ok q) → q.name ≡ p.name
    pool-injective p q h = cc

abbrev world : Cluster Device
world = cluster balancer kube_nodes secret

world-WorldFrame : WorldFrame others world
world-WorldFrame = record {
  reads = record {
    list_balancers = λ s. refl;
    get_balancer = λ r s. refl;
    get_secret = λ r s. refl;
    list_nodes = λ l s. refl;
    set_balancers = λ n s. refl;
    set_nodes = λ k n s. refl;
  };
  update_status = λ x. record { kept = λ s. refl };
  update = λ x. record { kept = λ s. refl };
  delete_nodes = λ k. record { kept = λ s. refl };
  answers = λ x y s h. same_status x y h;
}
  where
    same_status :
        (x y : ExternalLoadBalancer)
        → ◌≡◌ {A = Outcome ExternalLoadBalancer} (ok x) (ok y)
        → y.status ≡ x.status
    same_status x y h = cc

abbrev providers : Registry Device
providers = ("f5_bigip", memory) ∷ []

registered : lookup (to_lower "F5_BigIP") providers ≡ some memory
unfolding to_lower string_eq
registered = refl

frames :
    (t : Device) (lb : ExternalLoadBalancer)
    → (world.get_balancer name_of_balancer t).0 ≡ ok lb
    → VendorFrame others world world-WorldFrame providers name_of_balancer lb
frames t lb h =
    subst (VendorFrame others world world-WorldFrame providers name_of_balancer)
      (ok-injective balancer lb h)
      λ b found.
        subst (OwnFrame others balancer) (some-injective memory b (sym registered ∙ found))
          memory-OwnFrame
  where
    ok-injective :
        (x y : ExternalLoadBalancer) → ◌≡◌ {A = Outcome ExternalLoadBalancer} (ok x) (ok y) → x ≡ y
    ok-injective x y h = cc

-- A device that also holds the objects of "api".
abbrev shared : Device
shared = record {
  monitors = λ k. if k == "Monitor-api" then some (record monitor { name = k }) else none;
  pools =
      λ k. if k == "Pool-api-80" then some (record new_pool { name = k }) else busy_device.pools k;
  vips = λ k. if k == "VIP-api-80" then some (record vip { name = k }) else none;
}

reconcile-untouched_example :
    others (reconcile world providers name_of_balancer shared).1 ≡ others shared
reconcile-untouched_example =
    reconcile-untouched others world world-WorldFrame providers name_of_balancer frames shared

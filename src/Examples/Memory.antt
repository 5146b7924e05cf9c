-- ===== src/Examples/Memory.antt =====
-- A provider whose world is the device itself, with the laws that the handlers rely on, and a
-- cluster that holds one load balancer.
use lbconfig_operator.Base.{
  String, ◌≡◌, refl, ap, true, Option, none, some, List, [], ◌∷◌, ◌++◌, Outcome, ok, err, errorf,
  pure, string_eq,
}
use mathlib.Core.Option
use lbconfig_operator.Base.Dict.{Dict}
use lbconfig_operator.Api.{Pool, ExternalLoadBalancer}
use lbconfig_operator.Backend.{Backend}
use lbconfig_operator.Backend.Members.{remove_member, same_member_refl, all_fit}
use lbconfig_operator.Backend.Device.{
  Device, PoolLaws, Fits, put_monitor, put_pool, put_vip, header,
}
use lbconfig_operator.Nodes.{KubeNode}
use lbconfig_operator.Reconcile.{NamespacedName, Cluster}
use lbconfig_operator.Reconcile.Served.{Serves}

abbrev pub view : Device → Device
view d = d

abbrev pub empty_device : Device
empty_device = record { monitors = λ k. none; pools = λ k. none; vips = λ k. none }

abbrev pub change_pool : String → (Pool → Pool) → Device → Device
change_pool k f d = put_pool d k (Option.map {A = Pool} f (d.pools k))

abbrev read_members : Pool → Option Pool → Outcome (Option Pool)
read_members p none = err (errorf "no such pool")
read_members p (some q) = ok (some (record p { members = q.members }))

abbrev pub memory : Backend Device
memory = record {
  create = λ p user password. pure tt;
  connect = pure tt;
  close = pure tt;
  get_monitor = λ m d. (ok (d.monitors m.name), d);
  create_monitor = λ m d. (ok tt, put_monitor d m.name (some m));
  edit_monitor = λ m d. (ok tt, put_monitor d m.name (some m));
  delete_monitor = λ m d. (ok tt, put_monitor d m.name none);
  get_pool = λ p d. (ok (header p.name (d.pools p.name)), d);
  create_pool = λ p d. (ok tt, put_pool d p.name (some (record p { members = [] })));
  edit_pool = λ p d. (ok p, change_pool p.name (λ q. record q { monitor = p.monitor }) d);
  delete_pool = λ p d. (ok tt, put_pool d p.name none);
  get_pool_members = λ p d. (read_members p (d.pools p.name), d);
  create_pool_member =
      λ m p d. (ok tt, change_pool p.name (λ q. record q { members = q.members ++ m ∷ [] }) d);
  edit_pool_member = λ m p status. pure tt;
  delete_pool_member = λ m p d.
      (ok tt, change_pool p.name (λ q. record q { members = remove_member m q.members }) d);
  get_vip = λ v d. (ok (d.vips v.name), d);
  create_vip = λ v d. (ok tt, put_vip d v.name (some v));
  edit_vip = λ v d. (ok tt, put_vip d v.name (some v));
  delete_vip = λ v d. (ok tt, put_vip d v.name none);
}

change_pool-some :
    (k : String) (f : Pool → Pool) (d : Device) (q : Pool)
    → d.pools k ≡ some q
    → change_pool k f d ≡ put_pool d k (some (f q))
change_pool-some k f d q h = ap (λ o. put_pool d k (Option.map {A = Pool} f o)) h

pub memory_pools : PoolLaws view memory
memory_pools = record {
  get_pool = λ p s. record { returns = refl; leaves = refl };
  get_pool_members = λ p q s h. record { returns = ap (read_members p) h; leaves = refl };
  fits_monitor = λ m. true;
  fits_member = λ m. true;
  stored = λ m. m;
  stored_same = same_member_refl;
  create_pool = λ p s h fit. record { returns = refl; leaves = refl };
  rewritten = λ p s. p.members;
  edit_pool = λ p q s h fit. record {
    returns = refl;
    leaves = change_pool-some p.name (λ q. record q { monitor = p.monitor }) s q h;
  };
  delete_pool = λ p q s h. record { returns = refl; leaves = refl };
  create_pool_member = λ m p q s h new fit. record {
    returns = refl;
    leaves = change_pool-some p.name (λ q. record q { members = q.members ++ m ∷ [] }) s q h;
  };
  delete_pool_member = λ m p q s h old. record {
    returns = refl;
    leaves = change_pool-some p.name (λ q. record q { members = remove_member m q.members }) s q h;
  };
}

pub memory-Fits : (p : Pool) → Fits view memory_pools p
unfolding memory_pools
memory-Fits p = (refl, all_fit p.members)

module _ {S : Type 0} (lb : ExternalLoadBalancer) (items : List KubeNode)
    (secret : Dict String) where
  -- A cluster with one load balancer.
  abbrev pub cluster : Cluster S
  cluster = record {
    list_balancers = pure (lb ∷ []);
    get_balancer = λ req. pure lb;
    get_secret = λ req. pure secret;
    list_nodes = λ labels. pure items;
    update_status = λ x. pure x;
    update = λ x. pure x;
    add_finalizer = λ f x. record x { finalizers = f ∷ x.finalizers };
    remove_finalizer = λ f x. record x { finalizers = [] };
    set_balancers = λ n. pure tt;
    set_nodes = λ k n. pure tt;
    delete_nodes = λ k. pure tt;
  }

  pub cluster-Serves :
      (look : S → Device) (req : NamespacedName) → Serves look cluster req lb items secret
  cluster-Serves look req = record {
    balancers = lb ∷ [];
    list_balancers = λ s. record { returns = refl; leaves = refl };
    get_balancer = λ s. record { returns = refl; leaves = refl };
    get_secret = λ s. record { returns = refl; leaves = refl };
    list_nodes = λ s. record { returns = refl; leaves = refl };
    update_status = λ x s. record { returns = refl; leaves = refl };
    update = λ x s. record { returns = refl; leaves = refl };
    set_balancers = λ n s. record { returns = refl; leaves = refl };
    set_nodes = λ k n s. record { returns = refl; leaves = refl };
    delete_nodes = λ k s. record { returns = refl; leaves = refl };
  }

-- ===== src/Examples/OnKept.antt =====
-- The deletion of a load balancer whose virtual server cannot be deleted, over a world that is the
-- list of the finalizers of the object in the cluster.
use lbconfig_operator.Base.{
  String, ◌≡◌, refl, true, none, some, List, [], ◌∷◌, ok, errorf, pure, raise, contains, string_eq,
  ◌⊎◌,
}
use lbconfig_operator.Api.{ExternalLoadBalancer}
use lbconfig_operator.Backend.{Backend}
use lbconfig_operator.Reconcile.{Cluster, finalizer}
use lbconfig_operator.Reconcile.Loop.{finalize_load_balancer, finish}
use lbconfig_operator.Reconcile.Kept.{BackendFrame, finish-kept}
use lbconfig_operator.Examples.Sample.{installed, secret}

abbrev doomed : ExternalLoadBalancer
doomed = record installed { deleting = true; finalizers = finalizer ∷ [] }

abbrev stuck : Backend (List String)
stuck = record {
  create = λ p user password. pure tt;
  connect = pure tt;
  close = pure tt;
  get_monitor = λ m. pure none;
  create_monitor = λ m. pure tt;
  edit_monitor = λ m. pure tt;
  delete_monitor = λ m. pure tt;
  get_pool = λ p. pure none;
  create_pool = λ p. pure tt;
  edit_pool = λ p. pure p;
  delete_pool = λ p. pure tt;
  get_pool_members = λ p. pure (some p);
  create_pool_member = λ m p. pure tt;
  edit_pool_member = λ m p status. pure tt;
  delete_pool_member = λ m p. pure tt;
  get_vip = λ v. pure none;
  create_vip = λ v. pure tt;
  edit_vip = λ v. pure tt;
  delete_vip = λ v. raise (errorf "in use");
}

abbrev finalizers : List String → List String
finalizers s = s

abbrev kept : BackendFrame finalizers stuck
kept = record {
  connect = record { kept = λ s. refl };
  close = record { kept = λ s. refl };
  delete_monitor = λ m. record { kept = λ s. refl };
  delete_pool = λ p. record { kept = λ s. refl };
  delete_pool_member = λ m p. record { kept = λ s. refl };
  delete_vip = λ v. record { kept = λ s. refl };
}

abbrev cluster : Cluster (List String)
cluster = record {
  list_balancers = pure (doomed ∷ []);
  get_balancer = λ req. pure doomed;
  get_secret = λ req. pure secret;
  list_nodes = λ labels. pure [];
  update_status = λ x. pure x;
  update = λ x s. (ok x, x.finalizers);
  add_finalizer = λ f x. record x { finalizers = f ∷ x.finalizers };
  remove_finalizer = λ f x. record x { finalizers = [] };
  set_balancers = λ n. pure tt;
  set_nodes = λ k n. pure tt;
  delete_nodes = λ k. pure tt;
}

listed : contains doomed.finalizers finalizer ≡ true
unfolding string_eq
listed = refl

finish-kept_example :
    ((finish cluster stuck doomed (finalizer ∷ [])).1 ≡ finalizer ∷ [])
    ⊎ ((finalize_load_balancer cluster stuck doomed (finalizer ∷ [])).0 ≡ ok tt)
finish-kept_example =
    finish-kept finalizers stuck kept cluster (λ k. record { kept = λ s. refl }) doomed
      (finalizer ∷ []) refl listed

-- ===== src/Examples/OnAtomic.antt =====
-- A session with the HAProxy provider over a data plane that stages the names of what is created,
-- and that refuses every commit.
use lbconfig_operator.Base.{String, pos, refl, none, some, List, [], ◌∷◌, pure}
use lbconfig_operator.Providers.{Cell, Reply}
use lbconfig_operator.Providers.Haproxy.{HaproxyProvider, DataPlane}
use lbconfig_operator.Providers.Haproxy.Objects.{haproxy}
use lbconfig_operator.Providers.Haproxy.Transaction.{Staged}
use lbconfig_operator.Providers.Haproxy.Atomic.{haproxy-atomic}
use lbconfig_operator.Reconcile.{Cluster}
use lbconfig_operator.Reconcile.Loop.{configure, finalize_load_balancer}
use lbconfig_operator.Reconcile.Atomic.{AllOrNothing}
use lbconfig_operator.Examples.Sample.{host_node, monitor, installed, secret}

record Site : Type 0 where
  object : HaproxyProvider
  staged : List String
  running : List String

abbrev object_cell : Cell Site HaproxyProvider
object_cell = record {
  get = λ w. w.object;
  set = λ p w. record w { object = p };
  get-set = λ p w. refl;
}

abbrev answer : {A : Type 0} → A → Site → Reply A × Site
answer a w = (record { value = some a; error = none }, w)

abbrev fails : {A : Type 0} → String → Site → Reply A × Site
fails e w = (record { value = none; error = some e }, w)

abbrev stage : String → Site → Reply (Unit {0}) × Site
stage name w = answer tt (record w { staged = name ∷ w.staged })

abbrev plane : DataPlane Site
plane = record {
  create = λ host port user password validate debug. pure tt;
  get_sites = answer (pos 1);
  start_transaction = λ version w. answer "transaction" (record w { staged = w.running });
  commit_transaction = λ t force. fails "configuration is not valid";
  delete_transaction = λ t w. answer tt (record w { staged = [] });
  get_backend = λ k t. fails "getBackendNotFound";
  create_backend = λ d t. stage d.name;
  replace_backend = λ k d t. answer tt;
  delete_backend = λ k t. answer tt;
  get_servers = λ k t. answer (some []);
  create_server = λ k d t. stage d.name;
  replace_server = λ k n d t. answer tt;
  delete_server = λ k n t. answer tt;
  get_frontend = λ k t. fails "getFrontendNotFound";
  create_frontend = λ d t. stage d.name;
  replace_frontend = λ k d t. answer tt;
  delete_frontend = λ k t. answer tt;
  get_bind = λ k f t. fails "getBindNotFound";
  create_bind = λ f d t. stage d.name;
  replace_bind = λ k f d t. answer tt;
}

plane-Staged : Staged (λ w. w.running) object_cell plane
plane-Staged = record {
  set = λ p s. refl;
  get_sites = λ s. refl;
  start_transaction = λ v s. refl;
  commit_fails = λ t f e s h. refl;
  delete_transaction = λ t s. refl;
  get_backend = λ k t s. refl;
  create_backend = λ d t s. refl;
  replace_backend = λ k d t s. refl;
  delete_backend = λ k t s. refl;
  get_servers = λ k t s. refl;
  create_server = λ k d t s. refl;
  replace_server = λ k n d t s. refl;
  delete_server = λ k n t s. refl;
  get_frontend = λ k t s. refl;
  create_frontend = λ d t s. refl;
  replace_frontend = λ k d t s. refl;
  delete_frontend = λ k t s. refl;
  get_bind = λ k f t s. refl;
  create_bind = λ f d t s. refl;
  replace_bind = λ k f d t s. refl;
}

abbrev cluster : Cluster Site
cluster = record {
  list_balancers = pure (installed ∷ []);
  get_balancer = λ req. pure installed;
  get_secret = λ req. pure secret;
  list_nodes = λ labels. pure [];
  update_status = λ x. pure x;
  update = λ x. pure x;
  add_finalizer = λ f x. record x { finalizers = f ∷ x.finalizers };
  remove_finalizer = λ f x. record x { finalizers = [] };
  set_balancers = λ n. pure tt;
  set_nodes = λ k n. pure tt;
  delete_nodes = λ k. pure tt;
}

abbrev site : Site
site = record {
  object = record {
    host = "https://10.0.0.6";
    hostport = pos 5555;
    username = "admin";
    password = "pw";
    transaction = "";
    version = pos 0;
    monitor = monitor;
    lbmethod = "roundrobin";
  };
  staged = [];
  running = "Pool-web-80" ∷ [];
}

haproxy-atomic_example :
    AllOrNothing
      (λ w. w.running)
      (haproxy object_cell plane)
      (configure (haproxy object_cell plane) installed (host_node "node1" "10.0.0.1" ∷ []))
      site
    × AllOrNothing
        (λ w. w.running)
        (haproxy object_cell plane)
        (finalize_load_balancer cluster (haproxy object_cell plane) installed)
        site
haproxy-atomic_example =
    haproxy-atomic (λ w. w.running) object_cell plane plane-Staged cluster installed
      (host_node "node1" "10.0.0.1" ∷ []) (λ s. refl) site

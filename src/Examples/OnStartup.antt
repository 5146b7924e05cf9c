-- ===== src/Examples/OnStartup.antt =====
-- The theorems on cmd/main.go over libraries that log what they are asked.
use lbconfig_operator.Base.{String, ◌<>◌, none, some, List, [], ◌∷◌, ◌≡◌, refl}
use lbconfig_operator.Providers.{Call}
use lbconfig_operator.Startup.{Flags, CertWatcher, Runtime, default_flags, manager_options}
use lbconfig_operator.Startup.Tls.{TlsConfig, apply_options, wanted, manager_options-Tls}
use lbconfig_operator.Startup.Start.{Healthy}

abbrev log : String → Call (List String) (Unit {0})
log text s = (record { value = some tt; error = none }, text ∷ s)

abbrev flags : Flags
flags = record default_flags { webhook_cert_path = "/certs"; metrics_addr = ":8443" }

abbrev libraries : Runtime (List String)
libraries = record {
  add_client_scheme = log "client-go";
  add_lbv1_scheme = log "lbv1";
  parse_flags = λ defaults s. (flags, s);
  print_version = λ version s. version ∷ s;
  join = λ path name. path <> "/" <> name;
  new_watcher = λ cert key. log cert;
  lookup_env = λ name s. some "collector:4317";
  new_exporter = λ url. log url;
  set_tracer_provider = λ tp s. tp.service_name ∷ s;
  shutdown = λ tp. log "shutdown";
  get_config = log "config";
  new_manager = λ o. log o.health_probe_bind_address;
  setup_with_manager = log "controller";
  add_to_manager = λ w. log w.cert;
  add_healthz_check = log;
  add_readyz_check = log;
  start = log "start";
}

-- Libraries without errors.
abbrev healthy : Healthy libraries
healthy = record {
  new_watcher = λ cert key s. refl;
  new_exporter = λ url s. refl;
  shutdown = λ tp s. refl;
  get_config = λ s. refl;
  new_manager = λ o s. refl;
  setup_with_manager = λ s. refl;
  add_to_manager = λ w s. refl;
  add_healthz_check = λ name s. refl;
  add_readyz_check = λ name s. refl;
  start = λ s. refl;
}

abbrev watcher : CertWatcher
watcher = record { cert = "/certs/tls.crt"; key = "/certs/tls.key" }

abbrev initial : TlsConfig
initial = record { next_protos = "h2" ∷ []; certificate = none }

manager_options-Tls_example :
    (apply_options (manager_options flags (some watcher) none).webhook_tls_opts initial
      ≡ wanted flags (some watcher) initial)
    × (apply_options (manager_options flags (some watcher) none).metrics.tls_opts initial
        ≡ wanted flags none initial)
manager_options-Tls_example = manager_options-Tls flags (some watcher) none initial

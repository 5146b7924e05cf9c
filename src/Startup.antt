-- ===== src/Startup.antt =====
-- cmd/main.go: what the program sets up before the manager runs. The calls of controller-runtime,
-- OpenTelemetry and the flag package are a parameter; the logger is left out. `os.Exit(1)` is an
-- error with the text that is logged.
pub mod Tls
pub mod Start
use lbconfig_operator.Base.{
  String, ◌<>◌, Bool, true, false, if◌then◌else◌, Option, none, some, List, [], ◌∷◌, ◌++◌, ◌==◌,
  string_eq, Outcome, ok, err, panic, errorf, Action, pure, ◌>>=◌, ◌>>◌,
}
use lbconfig_operator.Providers.{Reply, Call}

pub record Flags : Type 0 where
  pub version : Bool
  pub metrics_addr : String
  pub probe_addr : String
  pub enable_leader_election : Bool
  pub secure_metrics : Bool
  pub webhook_cert_path : String
  pub webhook_cert_name : String
  pub webhook_cert_key : String
  pub metrics_cert_path : String
  pub metrics_cert_name : String
  pub metrics_cert_key : String
  pub enable_http2 : Bool

abbrev pub default_flags : Flags
default_flags = record {
  version = false;
  metrics_addr = "0";
  probe_addr = ":8081";
  enable_leader_election = false;
  secure_metrics = true;
  webhook_cert_path = "";
  webhook_cert_name = "tls.crt";
  webhook_cert_key = "tls.key";
  metrics_cert_path = "";
  metrics_cert_name = "tls.crt";
  metrics_cert_key = "tls.key";
  enable_http2 = false;
}

-- A watcher of a certificate, by its files.
pub record CertWatcher : Type 0 where
  pub cert : String
  pub key : String

-- The functions that change a `tls.Config`.
pub data TlsOption : Type 0 where
  disable_http2 : TlsOption
  certificate_of : CertWatcher → TlsOption

pub record MetricsOptions : Type 0 where
  pub bind_address : String
  pub secure_serving : Bool
  pub tls_opts : List TlsOption
  -- `filters.WithAuthenticationAndAuthorization`
  pub authenticated : Bool

pub record ManagerOptions : Type 0 where
  pub metrics : MetricsOptions
  pub webhook_tls_opts : List TlsOption
  pub health_probe_bind_address : String
  pub leader_election : Bool
  pub leader_election_id : String

pub record TracerProvider : Type 0 where
  pub service_name : String
  pub service_version : String

pub record Runtime (S : Type 0) : Type 0 where
  pub add_client_scheme : Call S (Unit {0})
  pub add_lbv1_scheme : Call S (Unit {0})
  -- The flags of the command line, from their defaults.
  pub parse_flags : Flags → S → Flags × S
  pub print_version : String → S → S
  pub join : String → String → String
  pub new_watcher : String → String → Call S (Unit {0})
  pub lookup_env : String → S → Option String
  pub new_exporter : String → Call S (Unit {0})
  pub set_tracer_provider : TracerProvider → S → S
  pub shutdown : TracerProvider → Call S (Unit {0})
  pub get_config : Call S (Unit {0})
  pub new_manager : ManagerOptions → Call S (Unit {0})
  pub setup_with_manager : Call S (Unit {0})
  pub add_to_manager : CertWatcher → Call S (Unit {0})
  pub add_healthz_check : String → Call S (Unit {0})
  pub add_readyz_check : String → Call S (Unit {0})
  pub start : Call S (Unit {0})

abbrev pub tls_options : Bool → List TlsOption
tls_options enable_http2 = if enable_http2 then [] else disable_http2 ∷ []

abbrev pub with_certificate : List TlsOption → Option CertWatcher → List TlsOption
with_certificate opts none = opts
with_certificate opts (some w) = opts ++ certificate_of w ∷ []

-- The options that `main` gives to the manager, with the watchers that it has created.
unfoldable pub manager_options : Flags → Option CertWatcher → Option CertWatcher → ManagerOptions
manager_options flags webhook metrics =
    let opts = tls_options flags.enable_http2 in
    record {
      metrics = record {
        bind_address = flags.metrics_addr;
        secure_serving = flags.secure_metrics;
        tls_opts = with_certificate opts metrics;
        authenticated = flags.secure_metrics;
      };
      webhook_tls_opts = with_certificate opts webhook;
      health_probe_bind_address = flags.probe_addr;
      leader_election = flags.enable_leader_election;
      leader_election_id = "d8d64ee1.lbconfig.carlosedp.com";
    }

module _ {S : Type 0} (rt : Runtime S) where
  abbrev exited : String → Reply (Unit {0}) × S → Outcome (Unit {0}) × S
  exited text (r, s) = elim r.error [
    | none ↦ (ok tt, s)
    | some e ↦ (err (errorf (text <> ": " <> e)), s)
  ]

  -- `if err != nil { setupLog.Error(err, text); os.Exit(1) }`
  unfoldable pub exit_on : String → Call S (Unit {0}) → Action S (Unit {0})
  exit_on text call s = exited text (call s)

  abbrev must : Reply (Unit {0}) × S → Outcome (Unit {0}) × S
  must (r, s) = elim r.error [ none ↦ (ok tt, s) | some e ↦ (panic, s) ]

  -- `init`: `utilruntime.Must` panics.
  unfoldable pub add_schemes : Action S (Unit {0})
  add_schemes = (λ s. must (rt.add_client_scheme s)) >> (λ s. must (rt.add_lbv1_scheme s))

  -- The watcher of a certificate, if its directory is given.
  unfoldable pub watch_certificate :
      String → String → String → String → Action S (Option CertWatcher)
  watch_certificate text path name key =
      let w : CertWatcher = record { cert = rt.join path name; key = rt.join path key } in
      if path == "" then pure none else exit_on text (rt.new_watcher w.cert w.key) >> pure (some w)

  -- `tracerProvider`
  unfoldable pub tracer_provider : String → String → Action S TracerProvider
  tracer_provider url version =
      exit_on "Error setting up tracer exporter" (rt.new_exporter url)
      >> pure (record { service_name = "lbconfig-operator"; service_version = version })

  abbrev set_tracer : TracerProvider → Action S (Option TracerProvider)
  set_tracer tp s = (ok (some tp), rt.set_tracer_provider tp (rt.set_tracer_provider tp s))

  abbrev traced : String → Option String → Action S (Option TracerProvider)
  traced version none = pure none
  traced version (some endpoint) = tracer_provider endpoint version >>= set_tracer

  unfoldable pub setup_tracing : String → Action S (Option TracerProvider)
  setup_tracing version s = traced version (rt.lookup_env "OTEL_EXPORTER_OTLP_ENDPOINT" s) s

  abbrev pub add_watcher : String → Option CertWatcher → Action S (Unit {0})
  add_watcher text none = pure tt
  add_watcher text (some w) = exit_on text (rt.add_to_manager w)

  -- The deferred call of a return, which `os.Exit` skips.
  abbrev pub shut_down : Option TracerProvider → Action S (Unit {0})
  shut_down none = pure tt
  shut_down (some tp) = exit_on "Error shutting down tracer provider" (rt.shutdown tp)

  unfoldable pub run : String → Flags → Action S (Unit {0})
  run version flags = do
    webhook ←
        watch_certificate "Failed to initialize webhook certificate watcher" flags.webhook_cert_path
          flags.webhook_cert_name flags.webhook_cert_key
    metrics ←
        watch_certificate "to initialize metrics certificate watcher" flags.metrics_cert_path
          flags.metrics_cert_name flags.metrics_cert_key
    tracer ← setup_tracing version
    exit_on "unable to get kubeconfig" rt.get_config
    exit_on "unable to start manager" (rt.new_manager (manager_options flags webhook metrics))
    exit_on "unable to create controller" rt.setup_with_manager
    add_watcher "unable to add metrics certificate watcher to manager" metrics
    add_watcher "unable to add webhook certificate watcher to manager" webhook
    exit_on "unable to set up health check" (rt.add_healthz_check "healthz")
    exit_on "unable to set up ready check" (rt.add_readyz_check "readyz")
    exit_on "problem running manager" rt.start
    shut_down tracer

  abbrev parsed : String → Flags × S → Outcome (Unit {0}) × S
  parsed version (flags, s) =
      let rest = run version flags s in
      if flags.version then (ok tt, rt.print_version version s) else rest

  unfoldable pub main : String → Action S (Unit {0})
  main version s = parsed version (rt.parse_flags default_flags s)

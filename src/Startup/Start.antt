-- ===== src/Startup/Start.antt =====
-- The start of the program of cmd/main.go, when all that it calls succeeds.
use lbconfig_operator.Base.{
  String, Bool, true, false, if◌then◌else◌, Option, none, some, ◌≡◌, refl, ◌==◌, string_eq,
  Bool-cases, Option-cases, inl, inr, Outcome, ok, Action, pure, ◌>>=◌, ◌>>◌,
}
use lbconfig_operator.Providers.{Call}
use lbconfig_operator.Startup.{
  Flags, CertWatcher, TracerProvider, ManagerOptions, Runtime, exit_on, watch_certificate,
  tracer_provider, setup_tracing, run, main, add_watcher, shut_down, manager_options, default_flags,
}

abbrev pub Succeeds : {S : Type 0} → Call S (Unit {0}) → Type 0
Succeeds {S} call = (s : S) → (call s).0.error ≡ none

-- The calls of the libraries have no error.
pub record Healthy {S : Type 0} (rt : Runtime S) : Type 0 where
  pub new_watcher : (cert key : String) → Succeeds (rt.new_watcher cert key)
  pub new_exporter : (url : String) → Succeeds (rt.new_exporter url)
  pub shutdown : (tp : TracerProvider) → Succeeds (rt.shutdown tp)
  pub get_config : Succeeds rt.get_config
  pub new_manager : (o : ManagerOptions) → Succeeds (rt.new_manager o)
  pub setup_with_manager : Succeeds rt.setup_with_manager
  pub add_to_manager : (w : CertWatcher) → Succeeds (rt.add_to_manager w)
  pub add_healthz_check : (name : String) → Succeeds (rt.add_healthz_check name)
  pub add_readyz_check : (name : String) → Succeeds (rt.add_readyz_check name)
  pub start : Succeeds rt.start

abbrev IsOk : {A : Type 0} → Outcome A → Type 0
IsOk {A} o = (a : A) × (o ≡ ok a)

-- The action returns a value, whatever the state.
record Returns {S A : Type 0} (m : Action S A) : Type 0 where
  value : (s : S) → IsOk (m s).0

chosen :
    {S : Type 0} (b : Bool) (x y : Outcome (Unit {0}) × S)
    → x.0 ≡ ok tt
    → y.0 ≡ ok tt
    → (if b then x else y).0 ≡ ok tt
chosen true x y p q = p
chosen false x y p q = q

module _ {S : Type 0} where
  Returns-bind :
      {A B : Type 0} (m : Action S A) (f : A → Action S B)
      → Returns m
      → ((a : A) → Returns (f a))
      → Returns (m >>= f)
  Returns-bind m f h k = record {
    value = λ s. let (a, e) = h.value s in let (b, e') = (k a).value (m s).1 in (b, rw e e');
  }

  Returns-seq :
      {A B : Type 0} (m : Action S A) (n : Action S B) → Returns m → Returns n → Returns (m >> n)
  Returns-seq m n h k = Returns-bind m (λ _. n) h (λ _. k)

  Returns-pure : {A : Type 0} (a : A) → Returns (pure {S = S} a)
  Returns-pure a = record { value = λ s. (a, refl) }

module _ {S : Type 0} (rt : Runtime S) (h : Healthy rt) where
  Returns-exit_on :
      (text : String) (call : Call S (Unit {0})) → Succeeds call → Returns (exit_on rt text call)
  unfolding exit_on
  Returns-exit_on text call k = record { value = λ s. (tt, rw (k s) refl) }

  Returns-watch_certificate :
      (text path name key : String) → Returns (watch_certificate rt text path name key)
  unfolding watch_certificate
  Returns-watch_certificate text path name key = elim (Bool-cases (path == "")) [
    | inl e ↦ rw e (Returns-pure none)
    | inr e ↦ rw e (
        Returns-seq (exit_on rt text (rt.new_watcher (rt.join path name) (rt.join path key)))
          (pure (some (record { cert = rt.join path name; key = rt.join path key })))
          (Returns-exit_on text _ (h.new_watcher (rt.join path name) (rt.join path key)))
          (Returns-pure _))
  ]

  Returns-setup_tracing : (version : String) → Returns (setup_tracing rt version)
  unfolding setup_tracing tracer_provider
  Returns-setup_tracing version = record {
    value = λ s. elim (Option-cases (rt.lookup_env "OTEL_EXPORTER_OTLP_ENDPOINT" s)) [
      | inl e ↦ (none, rw e refl)
      | inr (url, e) ↦
          let (u, made) =
            (Returns-exit_on "Error setting up tracer exporter" (rt.new_exporter url)
                (h.new_exporter url)).value
              s in
          (
            some (record { service_name = "lbconfig-operator"; service_version = version }),
            rw e (rw made refl),
          )
    ];
  }

  -- A call that exits on an error, and what follows it.
  Returns-next :
      (text : String) (call : Call S (Unit {0})) (n : Action S (Unit {0}))
      → Succeeds call
      → Returns n
      → Returns (exit_on rt text call >> n)
  Returns-next text call n k next =
      Returns-seq (exit_on rt text call) n (Returns-exit_on text call k) next

  Returns-add_watcher : (text : String) (w : Option CertWatcher) → Returns (add_watcher rt text w)
  Returns-add_watcher text none = Returns-pure tt
  Returns-add_watcher text (some w) =
      Returns-exit_on text (rt.add_to_manager w) (h.add_to_manager w)

  Returns-shut_down : (tracer : Option TracerProvider) → Returns (shut_down rt tracer)
  Returns-shut_down none = Returns-pure tt
  Returns-shut_down (some tp) =
      Returns-exit_on "Error shutting down tracer provider" (rt.shutdown tp) (h.shutdown tp)

  Returns-run : (version : String) (flags : Flags) → Returns (run rt version flags)
  unfolding run
  Returns-run version flags = Returns-bind _ _ (Returns-watch_certificate _ _ _ _) λ webhook.
      Returns-bind _ _ (Returns-watch_certificate _ _ _ _) λ metrics.
        Returns-bind _ _ (Returns-setup_tracing version) λ tracer. Returns-next _ _ _ h.get_config (
          Returns-next _ _ _ (h.new_manager (manager_options flags webhook metrics)) (
            Returns-next _ _ _ h.setup_with_manager (
              Returns-seq _ _ (Returns-add_watcher _ metrics) (
                Returns-seq _ _ (Returns-add_watcher _ webhook) (
                  Returns-next _ _ _ (h.add_healthz_check "healthz") (
                    Returns-next _ _ _ (h.add_readyz_check "readyz")
                      (Returns-next _ _ _ h.start (Returns-shut_down tracer))))))))

  -- If the calls of the libraries have no error, the program ends without one, whatever the flags
  -- and the environment are.
  pub main-Healthy : (version : String) (s : S) → (main rt version s).0 ≡ ok tt
  unfolding main
  main-Healthy version s =
      let (flags, t) = rt.parse_flags default_flags s in
      chosen flags.version (ok tt, rt.print_version version t) (run rt version flags t) refl
        ((Returns-run version flags).value t).1

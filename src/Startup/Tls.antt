-- ===== src/Startup/Tls.antt =====
-- The TLS configuration of the servers that cmd/main.go sets up.
use lbconfig_operator.Base.{
  String, Bool, true, false, if◌then◌else◌, Option, none, some, List, [], ◌∷◌, ◌≡◌, refl,
}
use lbconfig_operator.Startup.{
  Flags, CertWatcher, TlsOption, disable_http2, certificate_of, tls_options, with_certificate,
  manager_options,
}

-- What the options set of a `tls.Config`: the protocols, and the watcher that gives the certificate.
pub record TlsConfig : Type 0 where
  pub next_protos : List String
  pub certificate : Option CertWatcher

abbrev pub set_option : TlsOption → TlsConfig → TlsConfig
set_option disable_http2 c = record c { next_protos = "http/1.1" ∷ [] }
set_option (certificate_of w) c = record c { certificate = some w }

-- The servers apply the options in their order.
unfoldable pub apply_options : List TlsOption → TlsConfig → TlsConfig
apply_options [] c = c
apply_options (o ∷ os) c = apply_options os (set_option o c)

abbrev pub or_kept : Option CertWatcher → Option CertWatcher → Option CertWatcher
or_kept none kept = kept
or_kept (some w) kept = some w

-- The configuration that the flags ask for.
abbrev pub wanted : Flags → Option CertWatcher → TlsConfig → TlsConfig
wanted flags w c = record {
  next_protos = if flags.enable_http2 then c.next_protos else "http/1.1" ∷ [];
  certificate = or_kept w c.certificate;
}

apply-with_certificate :
    (enable_http2 : Bool) (w : Option CertWatcher) (c : TlsConfig)
    → apply_options (with_certificate (tls_options enable_http2) w) c ≡ record {
      next_protos = if enable_http2 then c.next_protos else "http/1.1" ∷ [];
      certificate = or_kept w c.certificate;
    }
unfolding apply_options
apply-with_certificate true none c = refl
apply-with_certificate true (some w) c = refl
apply-with_certificate false none c = refl
apply-with_certificate false (some w) c = refl

-- The webhook server and the metrics server speak HTTP/1.1 only unless the flag enables HTTP/2,
-- which leaves the protocols as they are; each takes its certificate from its own watcher, if it has
-- one.
pub manager_options-Tls :
    (flags : Flags) (webhook metrics : Option CertWatcher) (c : TlsConfig)
    → (apply_options (manager_options flags webhook metrics).webhook_tls_opts c
        ≡ wanted flags webhook c)
      × (apply_options (manager_options flags webhook metrics).metrics.tls_opts c
          ≡ wanted flags metrics c)
unfolding manager_options
manager_options-Tls flags webhook metrics c = (
  apply-with_certificate flags.enable_http2 webhook c,
  apply-with_certificate flags.enable_http2 metrics c,
)

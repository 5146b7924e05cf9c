-- ===== src/Registry/Laws.antt =====
-- Registrations and `CreateBackend`, by the lower case of the names.
use lbconfig_operator.Base.{
  String, ◌≡◌, ◌≢◌, ◌⊎◌, inl, inr, refl, Option-cases, none, some, [], ◌∷◌, ◌==◌, string_eq,
  if◌then◌else◌, ok, err, Error, ◌>>◌, pure, to_lower,
}
use lbconfig_operator.Base.Dict.{lookup, lookup-insert}
use lbconfig_operator.Api.{Provider}
use lbconfig_operator.Backend.{Backend}
use lbconfig_operator.Registry.{Registry, register_provider, create_backend, load}

module _ {S : Type 0} where
  -- A registration fails exactly if a provider has the name up to case, and then changes nothing.
  -- One that succeeds maps the name, in any case, to its provider, and no other name anew.
  pub lookup-register_provider :
      (name vendor : String) (p : Backend S) (r : Registry S)
      → let (result, r') = register_provider name p r in
        ((result ≡ ok tt)
          × (lookup (to_lower name) r ≡ none)
          × (lookup (to_lower vendor) r'
              ≡ (if to_lower vendor == to_lower name then some p else lookup (to_lower vendor) r)))
        ⊎ ((e : Error) × (result ≡ err e) × (lookup (to_lower name) r ≢ none) × (r' ≡ r))
  unfolding register_provider
  lookup-register_provider name vendor p r = elim (Option-cases (lookup (to_lower name) r)) [
    | inl free ↦
        rw (free, register_provider)
          (inl (refl, refl, lookup-insert (to_lower vendor) (to_lower name) p r))
    | inr (old, taken) ↦ rw (taken, register_provider) (inr (_, refl, λ e. cc, refl))
  ]

  -- If a provider is registered under the vendor's name in any case, `CreateBackend` does what its
  -- `Create` does and returns it; else it returns an error and makes no call.
  create_backend_cases :
      (r : Registry S) (lb : Provider) (user password : String) (s : S)
      → ((e : Error) × (lookup (to_lower lb.vendor) r ≡ none)
          × (create_backend r lb user password s ≡ (err e, s)))
        ⊎ ((b : Backend S) × (lookup (to_lower lb.vendor) r ≡ some b)
            × (create_backend r lb user password s ≡ (b.create lb user password >> pure b) s))
  unfolding create_backend
  create_backend_cases r lb user password s = elim (Option-cases (lookup (to_lower lb.vendor) r)) [
    | inl gone ↦ rw (gone, create_backend) (inl (_, refl, refl))
    | inr (b, found) ↦ rw (found, create_backend) (inr (b, refl, refl))
  ]

-- The vendors that the custom resource admits.
pub data Vendor : Type 0 where
  dummy f5_bigip citrix_adc haproxy : Vendor

abbrev pub vendor_name : Vendor → String
vendor_name dummy = "Dummy"
vendor_name f5_bigip = "F5_BigIP"
vendor_name citrix_adc = "Citrix_ADC"
vendor_name haproxy = "HAProxy"

abbrev pub pick : {A : Type 0} → A → A → A → A → Vendor → A
pick d f h n dummy = d
pick d f h n f5_bigip = f
pick d f h n haproxy = h
pick d f h n citrix_adc = n

module _ {S : Type 0} (d f h n : Backend S) where
  -- The start of the program registers its four providers without a panic, and `CreateBackend` then
  -- creates, for each vendor that the custom resource admits, the provider of that vendor.
  pub load-create_backend :
      (r : Registry S) × (load d f h n ≡ ok r)
      × ((v : Vendor) (lb : Provider) (user password : String)
          → create_backend r (record lb { vendor = vendor_name v }) user password ≡ (
              (pick d f h n v).create (record lb { vendor = vendor_name v }) user password
              >> pure (pick d f h n v)))
  unfolding load create_backend to_lower string_eq
  load-create_backend = (_, refl, λ v lb user password. go v lb user password)
    where
      go :
          (v : Vendor) (lb : Provider) (user password : String)
          → create_backend
              (("dummy", d) ∷ ("f5_bigip", f) ∷ ("haproxy", h) ∷ ("citrix_adc", n) ∷ [])
              (record lb { vendor = vendor_name v })
              user
              password
            ≡ ((pick d f h n v).create (record lb { vendor = vendor_name v }) user password
                >> pure (pick d f h n v))
      go dummy lb user password = refl
      go f5_bigip lb user password = refl
      go haproxy lb user password = refl
      go citrix_adc lb user password = refl

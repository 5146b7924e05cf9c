-- ===== src/Examples/OnVendors.antt =====
-- The registry of the providers, and the dummy provider.
use lbconfig_operator.Base.{
  String, pos, ◌≡◌, ◌≢◌, ◌⊎◌, refl, none, some, [], ◌∷◌, ok, err, Error, pure, ◌>>◌, ◌==◌,
  string_eq, to_lower, if◌then◌else◌,
}
use lbconfig_operator.Base.Dict.{lookup}
use lbconfig_operator.Api.{Provider}
use lbconfig_operator.Backend.Device.{Device}
use lbconfig_operator.Registry.{Registry, register_provider, create_backend, load}
use lbconfig_operator.Registry.Laws.{
  Vendor, vendor_name, pick, lookup-register_provider, load-create_backend,
}
use lbconfig_operator.Providers.{Cell}
use lbconfig_operator.Providers.Dummy.{DummyProvider}
use lbconfig_operator.Examples.Memory.{memory}

abbrev providers : Registry Device
providers = ("f5_bigip", memory) ∷ []

lookup-register_provider_example :
    let (result, r') = register_provider "HAProxy" memory providers in
    ((result ≡ ok tt)
      × (lookup (to_lower "HAProxy") providers ≡ none)
      × (lookup (to_lower "F5_BigIP") r' ≡ (
          if to_lower "F5_BigIP" == to_lower "HAProxy"
          then some memory
          else lookup (to_lower "F5_BigIP") providers)))
    ⊎ ((e : Error) × (result ≡ err e)
        × (lookup (to_lower "HAProxy") providers ≢ none)
        × (r' ≡ providers))
lookup-register_provider_example = lookup-register_provider "HAProxy" "F5_BigIP" memory providers

load-create_backend_example :
    (r : Registry Device) × (load memory memory memory memory ≡ ok r)
    × ((v : Vendor) (lb : Provider) (user password : String)
        → create_backend r (record lb { vendor = vendor_name v }) user password ≡ (
            (pick memory memory memory memory v).create
              (record lb { vendor = vendor_name v })
              user
              password
            >> pure (pick memory memory memory memory v)))
load-create_backend_example = load-create_backend memory memory memory memory

abbrev whole : Cell DummyProvider DummyProvider
whole = record { get = λ s. s; set = λ a s. a; get-set = λ a s. refl }

abbrev idle : DummyProvider
idle = record { host = ""; hostport = pos 0; username = ""; password = "" }

-- ===== src/Registry.antt =====
-- The providers of backend_controller.go: `RegisterProvider`, `ListProviders`, `CreateBackend`, and
-- the registrations that internal/controller/backend/backend_loader imports. The package variable
-- `providers` is passed along.
pub mod Laws
use lbconfig_operator.Base.{
  String, ◌<>◌, Option, none, some, List, [], ◌∷◌, map, Outcome, ok, err, panic, errorf, Action,
  pure, raise, ◌>>=◌, ◌>>◌, to_lower,
}
use lbconfig_operator.Base.Dict.{Dict, lookup, insert}
use lbconfig_operator.Api.{Provider}
use lbconfig_operator.Backend.{Backend}

abbrev pub Registry : Type 0 → Type 0
Registry S = Dict (Backend S)

-- `%s` of a list of texts, after the bracket.
unfoldable pub print_names : List String → String
print_names [] = "]"
print_names (name ∷ []) = name <> "]"
print_names (name ∷ names) = name <> " " <> print_names names

module _ {S : Type 0} where
  -- In Go the order of the keys is not fixed.
  unfoldable pub list_providers : Registry S → List String
  list_providers = map (λ (name, _). name)

  unfoldable pub register_provider :
      String → Backend S → Registry S → Outcome (Unit {0}) × Registry S
  register_provider name provider providers = elim (lookup (to_lower name) providers) [
    | some _ ↦ (
      err (errorf ("provider already exists, provider '" <> name <> "' tried to register twice")),
      providers,
    )
    | none ↦ (ok tt, insert (to_lower name) provider providers)
  ]

  unfoldable pub create_backend : Registry S → Provider → String → String → Action S (Backend S)
  create_backend providers lb_backend username password =
      let name = to_lower lb_backend.vendor in
      elim (lookup name providers) [
        | some provider ↦ provider.create lb_backend username password >> pure provider
        | none ↦ raise (
            errorf (
              "no such provider: "
              <> name
              <> ". Available vendor providers are ["
              <> print_names (list_providers providers)))
      ]

  -- `init` of a provider's package panics if its name is taken.
  abbrev init : String → Backend S → Outcome (Registry S) → Outcome (Registry S)
  init name provider panic = panic
  init name provider (err e) = err e
  init name provider (ok r) =
      let (result, r') = register_provider name provider r in
      elim result [ ok _ ↦ ok r' | _ ↦ panic ]

  -- The packages that backend_loader imports, in the order of their paths.
  unfoldable pub load : Backend S → Backend S → Backend S → Backend S → Outcome (Registry S)
  unfolding register_provider
  load dummy f5 haproxy netscaler =
      init "Citrix_ADC" netscaler
        (init "HAProxy" haproxy (init "F5_BigIP" f5 (init "Dummy" dummy (ok []))))

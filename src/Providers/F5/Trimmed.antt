-- ===== src/Providers/F5/Trimmed.antt =====
-- Which monitors of BIG-IP's pools `GetPool` of f5_controller.go reads as they are, and which calls
-- it makes for a monitor whose port has changed.
use lbconfig_operator.Base.{
  String, ◌<>◌, true, false, some, ◌≡◌, ◌↔◌, refl, sym, subst, ◌∙◌, ◌==◌, string_eq, ok, [],
}
use lbconfig_operator.Base.Text.{trim, starts_outside, ends_outside}
use lbconfig_operator.Base.Text.Cutset.{all_in_self, trim-append, trim-outside}
use lbconfig_operator.Api.{Pool}
use lbconfig_operator.Providers.F5.{F5Provider, BigIp}
use lbconfig_operator.Providers.F5.Methods.{get_pool}
use lbconfig_operator.Providers.F5.Calls.{query}
use lbconfig_operator.Providers.F5.Appliance.{AppliancePool, Appliance, BigIpLaws}
use lbconfig_operator.Providers.F5.Runs.{Runs-query}
use lbconfig_operator.Providers.F5.RoundTrips.{trim_qualified}

trim_qualified_iff :
    (home s : String)
    → (trim home (home <> s) ≡ s) ↔ ((starts_outside home s ≡ true) × (ends_outside home s ≡ true))
trim_qualified_iff home s = (
  (λ same.
      let cut = sym (trim-append home home s (all_in_self home)) ∙ same in
      subst (λ t. (starts_outside home t ≡ true) × (ends_outside home t ≡ true)) cut
        (trim-outside home s)),
  (λ (starts, ends). trim_qualified home s starts ends),
)

module _ {S : Type 0} (home : String) (big : S → Appliance) (self : S → F5Provider) (f5 : BigIp S)
    (laws : BigIpLaws home big f5) where
  -- For a pool with a monitor on a BIG-IP that obeys its laws, with the provider's partition in
  -- BIG-IP's folder, `GetPool` returns the pool; the monitor is the one that BIG-IP has exactly when
  -- its name neither begins nor ends with a character of the folder.
  pub get_pool-monitor :
      (p : Pool) (a : AppliancePool) (s : S)
      → (self s).partition ≡ home
      → (big s).pools p.name ≡ some a
      → a.monitor == "" ≡ false
      → (found : Pool) × ((get_pool self f5 p s).0 ≡ ok (some found))
        × ((found.monitor ≡ a.monitor)
            ↔ ((starts_outside home a.monitor ≡ true) × (ends_outside home a.monitor ≡ true)))
  unfolding get_pool
  get_pool-monitor p a s at_home there named =
      let ask = query (λ e. "error getting F5 pool: " <> e) (f5.get_pool p.name) in
      let asked =
        Runs-query big home (λ e. "error getting F5 pool: " <> e) (f5.get_pool p.name) s
          (laws.get_pool p.name s) in
      (
        record { name = p.name; members = []; monitor = trim home (home <> a.monitor) },
        rw asked.returns (rw (there, at_home, named) refl),
        trim_qualified_iff home a.monitor,
      )

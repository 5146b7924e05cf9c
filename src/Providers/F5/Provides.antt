-- ===== src/Providers/F5/Provides.antt =====
-- The provider of f5_controller.go obeys all the laws that the handlers and `Reconcile` rely on, on a
-- BIG-IP that obeys its own.
use mathlib.Core.Option
use lbconfig_operator.Base.{
  String, true, false, Option, none, some, List, map, ◌≡◌, ◌≢◌, refl, ap, ◌∙◌, string_eq, int_eq,
  panic, Action, Option-cases, inl, inr,
}
use lbconfig_operator.Base.Text.{has_char}
use lbconfig_operator.Api.{Node, ExternalLoadBalancer, Provider, Pool}
use lbconfig_operator.Backend.{Backend}
use lbconfig_operator.Backend.Device.{Device, Does, put_pool}
use lbconfig_operator.Backend.Stages.{MemberFrame}
use lbconfig_operator.Reconcile.Configure.{ProviderLaws, Suits}
use lbconfig_operator.Reconcile.{monitor_for, pool_for, vip_for}
use lbconfig_operator.Reconcile.Vips.{vip_name}
use lbconfig_operator.Backend.Loops.{All, All-map}
use lbconfig_operator.Backend.Members.{AllFit}
use lbconfig_operator.Providers.{Call}
use lbconfig_operator.Providers.F5.{F5Provider, BigIp}
use lbconfig_operator.Providers.F5.Config.{folder}
use lbconfig_operator.Providers.F5.Calls.{expect}
use lbconfig_operator.Providers.F5.Methods.{methods, create, connect, close, delete_pool_member}
use lbconfig_operator.Providers.F5.RoundTrips.{member_at}
use lbconfig_operator.Providers.F5.Appliance.{
  Member, AppliancePool, Appliance, BigIpLaws, with_pool,
}
use lbconfig_operator.Providers.F5.Objects.{ObjectLaws}
use lbconfig_operator.Providers.F5.View.{
  keeps_monitor, keeps_member, device_of, device_of-with_pool, read_pool,
}
use lbconfig_operator.Providers.F5.Refines.{
  pool_laws, pool_laws-Fits, pool_laws-fits_monitor, pool_laws-fits_member,
}
use lbconfig_operator.Providers.F5.Lawful.{
  suits_monitor, suits_vip, monitor_laws, vip_laws, monitor_laws-suits, vip_laws-suits,
}

module _ {S : Type 0} (partition : String) (slashless : has_char partition "/" ≡ false)
    (colonless : has_char (folder partition) ":" ≡ false) (big : S → Appliance)
    (self : S → F5Provider) (at_home : (s : S) → (self s).partition ≡ folder partition)
    (f5 : BigIp S) (laws : BigIpLaws (folder partition) big f5)
    (objects : ObjectLaws (folder partition) big f5)
    (make : Provider → String → String → Action S (Unit {0})) where
  abbrev home : String
  home = folder partition

  abbrev provider : Backend S
  provider = methods self f5 make

  abbrev view : S → Device
  view s = device_of home (big s)

  expected-ne-panic :
      (text : String → String) (call : Call S (Unit {0})) (s : S) → (expect text call s).0 ≢ panic
  unfolding expect
  expected-ne-panic text call s = elim (Option-cases (call s).0.error) [
    | inl h ↦ rw h (λ e. cc)
    | inr (x, h) ↦ rw h (λ e. cc)
  ]

  expected-state :
      (text : String → String) (call : Call S (Unit {0})) (s : S)
      → big (expect text call s).1 ≡ big (call s).1
  unfolding expect
  expected-state text call s = elim (Option-cases (call s).0.error) [
    | inl h ↦ rw h refl
    | inr (x, h) ↦ rw h refl
  ]

  read_left :
      (k : String) (ms : List Member) (o : Option AppliancePool)
      → Option.map
          (read_pool home k)
          (Option.map {A = AppliancePool} (λ a. record a { members = ms }) o)
        ≡ Option.map {A = Pool}
            (λ q. record q { members = map member_at ms })
            (Option.map (read_pool home k) o)
  read_left k ms none = refl
  read_left k ms (some a) = refl

  pub member_frame : MemberFrame view provider
  unfolding methods delete_pool_member
  member_frame = record {
    left = λ m p s. map member_at (objects.left p.name m.node.host m.port s);
    no_panic = λ m p s. expected-ne-panic _ _ s;
    frame = λ m p s.
        let ms = objects.left p.name m.node.host m.port s in
        let after = with_pool (big s) p.name (
          Option.map {A = AppliancePool}
            (λ a. record a { members = objects.left p.name m.node.host m.port s })
            ((big s).pools p.name)) in
        let same : big (provider.delete_pool_member m p s).1 ≡ after =
          rw (at_home s)
            (expected-state _ _ s ∙ objects.delete_frame p.name m.node.host m.port s) in
        ap (device_of home) same
        ∙ device_of-with_pool home p.name _ (big s)
        ∙ ap (put_pool (view s) p.name) (read_left p.name ms ((big s).pools p.name));
  }

  -- `Create` sets the provider's object.
  pub create-Does :
      (set : F5Provider → S → S)
      → ((p : F5Provider) (s : S) → big (set p s) ≡ big s)
      → (p : Provider) (user password : String) (s : S)
      → Does view (create set p user password) s tt (view s)
  unfolding create
  create-Does set kept p user password s = record {
    returns = refl;
    leaves = ap (device_of home) (kept _ s);
  }

  -- The provider obeys the laws that `Reconcile` relies on, if its URL has a host, with a `Create`
  -- that has no error and leaves BIG-IP alone.
  pub provider_laws :
      ((s : S) → (host : String) × (f5.url_host (self s).host ≡ some host))
      → ((p : Provider) (user password : String) (s : S)
          → Does view (make p user password) s tt (view s))
      → ProviderLaws view provider
  unfolding methods connect close
  provider_laws hosted made = record {
    create = made;
    connect = λ s.
        let (host, h) = hosted s in
        record {
          returns = rw h refl;
          leaves = rw h (ap (device_of home) (objects.new_session _ _ _ s));
        };
    close = λ s. record { returns = refl; leaves = refl };
    monitors = monitor_laws partition slashless colonless big self at_home f5 laws objects make;
    pools = pool_laws home colonless big self at_home f5 laws make;
    vips = vip_laws partition slashless colonless big self at_home f5 laws objects make;
  }

  -- What the provider can bring to what is wanted.
  pub provider_laws-Suits :
      (hosted : (s : S) → (host : String) × (f5.url_host (self s).host ≡ some host))
      (made : (p : Provider) (user password : String) (s : S)
        → Does view (make p user password) s tt (view s))
      (lb : ExternalLoadBalancer) (nodes : List Node) (d : Device)
      → keeps_monitor home (monitor_for lb).name ≡ true
      → All (λ p. AllFit keeps_member (pool_for lb nodes (monitor_for lb) p).members) lb.spec.ports
      → suits_monitor (d.monitors (monitor_for lb).name) (monitor_for lb) ≡ true
      → All (λ p. suits_vip home (d.vips (vip_name lb p)) (vip_for lb p) ≡ true) lb.spec.ports
      → Suits view provider (provider_laws hosted made) lb nodes d
  unfolding provider_laws pool_for
  provider_laws-Suits hosted made lb nodes d named members monitor vips = record {
    pools =
        All-map
          (λ p fit.
            pool_laws-Fits home colonless big self at_home f5 laws make
              (pool_for lb nodes (monitor_for lb) p) named fit)
          lb.spec.ports members;
    monitor =
        ap (λ f. f (d.monitors (monitor_for lb).name) (monitor_for lb))
          (monitor_laws-suits partition slashless colonless big self at_home f5 laws objects make)
        ∙ monitor;
    vips =
        All-map
          (λ p fit.
            ap (λ f. f (d.vips (vip_name lb p)) (vip_for lb p))
              (vip_laws-suits partition slashless colonless big self at_home f5 laws objects make)
            ∙ fit)
          lb.spec.ports vips;
  }

  -- The methods of the provider obey all the laws that `Reconcile` relies on, over a BIG-IP that obeys
  -- its own, with one partition, which has no slash and whose folder has no colon, a URL with a host,
  -- and a `Create` that has no error and leaves BIG-IP alone. They suit exactly these: monitors and
  -- virtual servers that the provider reads back, and that are new on BIG-IP or are there with the
  -- wanted port and type, or the wanted pool; and pools with the name of a monitor that `Trim` leaves
  -- whole, and members whose addresses have no colon and whose ports are Go ints.
  pub methods-Lawful :
      ((s : S) → (host : String) × (f5.url_host (self s).host ≡ some host))
      → ((p : Provider) (user password : String) (s : S)
          → Does view (make p user password) s tt (view s))
      → (laws : ProviderLaws view provider) × (laws.monitors.suits ≡ suits_monitor)
        × (laws.vips.suits ≡ suits_vip home)
        × (laws.pools.fits_monitor ≡ keeps_monitor home)
        × (laws.pools.fits_member ≡ keeps_member)
  unfolding provider_laws
  methods-Lawful hosted made = (
    provider_laws hosted made,
    monitor_laws-suits partition slashless colonless big self at_home f5 laws objects make,
    vip_laws-suits partition slashless colonless big self at_home f5 laws objects make,
    pool_laws-fits_monitor home colonless big self at_home f5 laws make,
    pool_laws-fits_member home colonless big self at_home f5 laws make,
  )

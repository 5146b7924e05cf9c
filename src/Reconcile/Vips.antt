-- ===== src/Reconcile/Vips.antt =====
-- The loop of `Reconcile` over the ports that handles the VIPs, on a lawful device.
use lbconfig_operator.Base.{
  String, ◌<>◌, ℤ, ◌≡◌, refl, sym, ap, subst, ◌∙◌, ◌==◌, true, Option, none, some, List, [], ◌∷◌,
  map, arith, string_eq, contains, Action, Bool-cases, inl, inr, itoa,
}
use lbconfig_operator.Base.Decimal.{itoa-injective}
use text.Mathlib.TextLemmas.{append_cancel_left}
use lbconfig_operator.Api.{Vip, ExternalLoadBalancer}
use lbconfig_operator.Backend.{Backend}
use lbconfig_operator.Backend.Handle.{handle_vip}
use lbconfig_operator.Backend.Device.{
  Device, Does, Does-bind, Does-cast, Does-map, VipLaws, SameVip, put_vip, HoldsVip, HoldsVip-vips,
}
use lbconfig_operator.Backend.Single.{handle_vip-Does}
use lbconfig_operator.Backend.Loops.{All, All-map, without, without-cons, without_at}
use lbconfig_operator.Reconcile.{vip_for, handle_vips}

abbrev pub vip_name : ExternalLoadBalancer → ℤ → String
vip_name lb p = "VIP-" <> lb.name <> "-" <> itoa p

-- The name of a port's VIP tells the port.
pub vip_name-injective :
    (lb : ExternalLoadBalancer) (p q : ℤ) → vip_name lb p ≡ vip_name lb q → p ≡ q
vip_name-injective lb p q h =
    itoa-injective p q (
      append_cancel_left "-" _ _ (append_cancel_left lb.name _ _ (append_cancel_left "VIP-" _ _ h)))

abbrev pub set_vips : (String → Option Vip) → Device → Device
set_vips f d = record d { vips = f }

-- What the loop of the VIPs has done from the state `s`.
pub record VipsDone {S : Type 0} (view : S → Device) (lb : ExternalLoadBalancer) (ports : List ℤ)
    (run : Action S (List Vip)) (s : S) : Type 0 where
  pub vips : String → Option Vip
  pub does : Does view run s (map (vip_for lb) ports) (record (view s) { vips = vips })
  pub holds : All (λ p. HoldsVip (record (view s) { vips = vips }) (vip_for lb p)) ports
  pub others :
      without vips (map (vip_name lb) ports) ≡ without (view s).vips (map (vip_name lb) ports)

holds_of_name :
    (d : Device) (lb : ExternalLoadBalancer) (ports : List ℤ) (p : ℤ)
    → contains (map (vip_name lb) ports) (vip_name lb p) ≡ true
    → All (λ q. HoldsVip d (vip_for lb q)) ports
    → HoldsVip d (vip_for lb p)
holds_of_name d lb [] p e all = cc
holds_of_name d lb (q ∷ ports) p e (first, all) =
    elim (string_eq.dec (vip_name lb q) (vip_name lb p)) [
      | yes same ↦ subst (λ r. HoldsVip d (vip_for lb r)) (vip_name-injective lb q p same) first
      | no other ↦ holds_of_name d lb ports p (ground arith) all
    ]

module _ {S : Type 0} (view : S → Device) (b : Backend S) (laws : VipLaws view b)
    (lb : ExternalLoadBalancer) where
  -- What the device has under the ports' names can be brought to their VIPs.
  abbrev pub SuitsVips : List ℤ → Device → Type 0
  SuitsVips ports d = All (λ p. laws.suits (d.vips (vip_name lb p)) (vip_for lb p) ≡ true) ports

  suits_put :
      (d : Device) (p : ℤ) (found : Vip)
      → laws.suits none (vip_for lb p) ≡ true
      → SameVip found (vip_for lb p)
      → (q : ℤ) → laws.suits (d.vips (vip_name lb q)) (vip_for lb q) ≡ true
      → laws.suits ((put_vip d (vip_name lb p) (some found)).vips (vip_name lb q)) (vip_for lb q)
        ≡ true
  suits_put d p found fit same q h = elim (Bool-cases (vip_name lb q == vip_name lb p)) [
    | inl e ↦ rw e (
        subst (λ r. laws.suits (some found) (vip_for lb r) ≡ true)
          (sym (vip_name-injective lb q p (ground arith)))
          (laws.suits_same found (vip_for lb p) fit same))
    | inr e ↦ rw e h
  ]

  -- With a provider that obeys the laws of virtual servers, and that can bring what the device has
  -- under the ports' names to their VIPs, the loop over the ports succeeds and
  -- returns the ports' VIPs. Each of them is then on the device, and the rest of the device is
  -- unchanged.
  pub handle_vips-VipsDone :
      (ports : List ℤ) (s : S)
      → SuitsVips ports (view s)
      → VipsDone view lb ports (handle_vips b lb ports) s
  unfolding handle_vips vip_for
  handle_vips-VipsDone [] s fits = record {
    vips = (view s).vips;
    does = record { returns = refl; leaves = refl };
    holds = tt;
    others = refl;
  }
  handle_vips-VipsDone (p ∷ ports) s (fit, fits) =
      let vip = vip_for lb p in
      let k = vip_name lb p in
      let names = map (vip_name lb) ports in
      let (found, same, now) = handle_vip-Does view b laws vip s fit in
      let t = (handle_vip b vip s).1 in
      let d = put_vip (view s) k (some found) in
      let fresh = laws.suits_fresh ((view s).vips k) vip fit in
      let next : SuitsVips ports d = All-map (suits_put (view s) p found fresh same) ports fits in
      let rest = handle_vips-VipsDone ports t (subst (SuitsVips ports) (sym now.leaves) next) in
      let others : without rest.vips names ≡ without d.vips names =
        rest.others ∙ ap (λ e. without e.vips names) now.leaves in
      let final : Device = record (view s) { vips = rest.vips } in
      let holds : All (λ q. HoldsVip final (vip_for lb q)) ports =
        All-map
          (λ q. HoldsVip-vips (record (view t) { vips = rest.vips }) final refl (vip_for lb q))
          ports rest.holds in
      let first : HoldsVip final vip = elim (Bool-cases (contains names k)) [
        | inl again ↦ holds_of_name final lb ports p again holds
        | inr once ↦
            let put_at : d.vips k ≡ some found = ground arith in
            record {
              found = found;
              at_name = without_at rest.vips d.vips k names once others ∙ put_at;
              same = same;
            }
      ] in
      record {
        vips = rest.vips;
        does = Does-bind view _ _ s now (
            Does-map view (λ vs. vip ∷ vs) _ t
              (Does-cast view _ t (ap (set_vips rest.vips) now.leaves) rest.does));
        holds = (first, holds);
        others = without-cons rest.vips (view s).vips k _ names others;
      }

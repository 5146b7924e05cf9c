-- ===== src/Providers/F5/Synced.antt =====
-- `HandlePool` on the provider of f5_controller.go: the handler's convergence, for BIG-IP itself.
use lbconfig_operator.Base.{
  String, true, false, some, ◌≡◌, refl, sym, ap, subst, ◌∙◌, ok, Action, map,
}
use lbconfig_operator.Base.Text.{has_char, trim}
use lbconfig_operator.Api.{Provider, Pool, PoolMember}
use lbconfig_operator.Backend.Handle.{contains_member, handle_pool}
use lbconfig_operator.Backend.Device.{Device, HoldsPool}
use lbconfig_operator.Backend.Again.{handle_pool-again}
use lbconfig_operator.Backend.Members.{NodupMembers, AllFit}
use lbconfig_operator.Backend.PoolWrites.{pools-put_pool}
use lbconfig_operator.Backend.Converge.{handle_pool-Converges}
use lbconfig_operator.Providers.F5.{F5Provider, BigIp}
use lbconfig_operator.Providers.F5.Methods.{methods}
use lbconfig_operator.Providers.F5.Appliance.{
  AppliancePool, Appliance, BigIpLaws, qualified, has_member,
}
use lbconfig_operator.Providers.F5.RoundTrips.{member_at}
use lbconfig_operator.Providers.F5.View.{
  keeps_monitor, keeps_member, read_pool, device_of, from_map, contains_member-member_at,
}
use lbconfig_operator.Providers.F5.Refines.{pool_laws, pool_laws-Fits}

-- BIG-IP has the pool, with its monitor as the provider reads it and exactly its members.
pub record Holds (home : String) (a : Appliance) (p : Pool) : Type 0 where
  pub pool : AppliancePool
  pub there : a.pools p.name ≡ some pool
  pub monitor : trim home (qualified home pool.monitor) ≡ p.monitor
  pub members :
      (m : PoolMember) → has_member pool.members m.node.host m.port ≡ contains_member p.members m

module _ {S : Type 0} (home : String) (colonless : has_char home ":" ≡ false) (big : S → Appliance)
    (self : S → F5Provider) (at_home : (s : S) → (self s).partition ≡ home) (f5 : BigIp S)
    (laws : BigIpLaws home big f5) (make : Provider → String → String → Action S (Unit {0})) where
  pub handle_pool-Holds :
      (p : Pool) (s : S)
      → keeps_monitor home p.monitor ≡ true
      → AllFit keeps_member p.members
      → NodupMembers p.members
      → ((a : AppliancePool)
          → (big s).pools p.name ≡ some a
          → NodupMembers (map member_at a.members))
      → ((result : Pool) × (handle_pool (methods self f5 make) p s).0 ≡ ok result)
        × Holds home (big (handle_pool (methods self f5 make) p s).1) p
  handle_pool-Holds p s keeps members up us =
      let b = methods self f5 make in
      let view : S → _ = λ t. device_of home (big t) in
      let c =
        handle_pool-Converges view b (pool_laws home colonless big self at_home f5 laws make) p s
          (pool_laws-Fits home colonless big self at_home f5 laws make p keeps members) up
          λ q h.
            let (a, there, same) = from_map (read_pool home p.name) ((big s).pools p.name) q h in
            subst (λ r. NodupMembers r.members) same (us a there) in
      let t = (handle_pool b p s).1 in
      let at_t =
        ap (λ d. d.pools p.name) c.does.leaves ∙ pools-put_pool (view s) p.name (some c.found) in
      let (a, there, same) = from_map (read_pool home p.name) ((big t).pools p.name) c.found at_t in
      (
        (c.result, c.does.returns),
        record {
          pool = a;
          there = there;
          monitor = ap (λ r. r.monitor) same ∙ c.monitor;
          members = λ m.
              sym (contains_member-member_at a.members m)
              ∙ ap (λ r. contains_member r.members m) same
              ∙ c.members m;
        },
      )

  -- Under the same conditions on BIG-IP, `HandlePool` succeeds for a pool that BIG-IP already has,
  -- with its monitor as the provider reads it and exactly its members, and leaves the monitors, the
  -- pools as the provider reads them and the virtual servers as they are.
  pub handle_pool-settled :
      (p : Pool) (s : S)
      → Holds home (big s) p
      → ((handle_pool (methods self f5 make) p s).0 ≡ ok p)
        × (device_of home (big (handle_pool (methods self f5 make) p s).1) ≡ device_of home (big s))
  handle_pool-settled p s h =
      let b = methods self f5 make in
      let view : S → Device = λ t. device_of home (big t) in
      let q = read_pool home p.name h.pool in
      let holds : HoldsPool (device_of home (big s)) p = record {
        found = q;
        at_name = rw h.there refl;
        monitor = h.monitor;
        members = λ m. contains_member-member_at h.pool.members m ∙ h.members m;
      } in
      let idle =
        handle_pool-again view b (pool_laws home colonless big self at_home f5 laws make) p s
          holds in
      (idle.returns, idle.leaves)

-- ===== src/Providers/F5/Refines.antt =====
-- The pools of f5_controller.go refine the device of the handlers' theorems: with a BIG-IP that
-- obeys its laws, the provider obeys the laws that the handlers rely on.
use lbconfig_operator.Base.{
  String, true, false, none, some, [], ◌≡◌, refl, ap, ◌∙◌, string_eq, int_eq, Action, pure, ◌>>◌,
}
use lbconfig_operator.Base.Text.{has_char}
use lbconfig_operator.Api.{Provider, Pool}
use lbconfig_operator.Backend.{Backend}
use lbconfig_operator.Backend.Members.{same_member_refl, AllFit}
use lbconfig_operator.Backend.Device.{Device, Does, PoolLaws, Fits, put_pool, header}
use lbconfig_operator.Providers.F5.{F5Provider, BigIp, PoolData}
use lbconfig_operator.Providers.F5.Methods.{
  methods, get_pool, get_pool_members, edit_pool, create_pool, delete_pool,
}
use lbconfig_operator.Providers.F5.Calls.{query, expect}
use lbconfig_operator.Providers.F5.Runs.{
  Runs-Does, Runs-put, Runs-again, Runs-seq, Runs-return, Runs-bind, Runs-query, Runs-expect,
}
use lbconfig_operator.Providers.F5.Config.{found_pool}
use lbconfig_operator.Providers.F5.RoundTrips.{read_members-member_data}
use lbconfig_operator.Providers.F5.Appliance.{
  AppliancePool, Appliance, BigIpLaws, modified, new_pool,
}
use lbconfig_operator.Providers.F5.MemberWrites.{
  refine_create_pool_member, refine_delete_pool_member,
}
use lbconfig_operator.Providers.F5.View.{
  keeps_monitor, keeps_member, read_pool, device_of, from_map, none_from_map, found_pool-header,
  keeps_monitor-trim, modified-kept, modified_method, pools-with_pool, stored_member,
}

module _ {S : Type 0} (home : String) (colonless : has_char home ":" ≡ false) (big : S → Appliance)
    (self : S → F5Provider) (at_home : (s : S) → (self s).partition ≡ home) (f5 : BigIp S)
    (laws : BigIpLaws home big f5) (make : Provider → String → String → Action S (Unit {0})) where
  abbrev pub provider : Backend S
  provider = methods self f5 make

  abbrev pub view : S → Device
  view s = device_of home (big s)

  refine_get_pool :
      (p : Pool) (s : S)
      → Does view (provider.get_pool p) s (header p.name ((view s).pools p.name)) (view s)
  unfolding methods get_pool
  refine_get_pool p s =
      let asked = laws.get_pool p.name s in
      Runs-Does big home (provider.get_pool p) s
        (Runs-bind big (query _ (f5.get_pool p.name)) (λ d. pure (found_pool (self s).partition d))
          s (Runs-query big home _ (f5.get_pool p.name) s asked)
          (Runs-return big _ (Runs-query big home _ (f5.get_pool p.name) s asked).leaves))
        (rw (at_home s) (found_pool-header home p.name ((big s).pools p.name))) refl

  refine_get_pool_members :
      (p q : Pool) (s : S)
      → (view s).pools p.name ≡ some q
      → Does view (provider.get_pool_members p) s (some (record p { members = q.members })) (view s)
  unfolding methods get_pool_members
  refine_get_pool_members p q s h =
      let (a, there, same) = from_map (read_pool home p.name) ((big s).pools p.name) q h in
      let asked = laws.pool_members p.name a s there in
      Runs-Does big home (provider.get_pool_members p) s
        (Runs-bind big (query _ (f5.pool_members p.name)) _ s
          (Runs-query big home _ (f5.pool_members p.name) s asked)
          (record {
            returns = rw (read_members-member_data home colonless a.members) refl;
            leaves = (Runs-query big home _ (f5.pool_members p.name) s asked).leaves;
          }))
        (ap (λ r. some (record p { members = r.members })) same) refl

  refine_edit_pool :
      (p q : Pool) (s : S)
      → (view s).pools p.name ≡ some q
      → keeps_monitor home p.monitor ≡ true
      → Does view
          (provider.edit_pool p)
          s
          p
          (put_pool (view s) p.name (some (record q { monitor = p.monitor })))
  unfolding methods edit_pool
  refine_edit_pool p q s h fits =
      let (a, there, same) = from_map (read_pool home p.name) ((big s).pools p.name) q h in
      let config : PoolData = record {
        name = p.name;
        monitor = p.monitor;
        load_balancing_mode = (self s).lbmethod;
      } in
      let sent = laws.modify_pool p.name config a s there in
      let wrote = Runs-expect big home _ (f5.modify_pool p.name config) s sent in
      Runs-put big home (provider.edit_pool p) p.name (some (modified config a)) _ s
        (Runs-seq big (expect _ (f5.modify_pool p.name config)) (pure p) s wrote
          (Runs-return big _ wrote.leaves))
        (ap some (
          modified-kept home p.name config a fits
          ∙ ap {A = Pool} (λ r. record r { monitor = p.monitor }) same))

  refine_delete_pool :
      (p q : Pool) (s : S)
      → (view s).pools p.name ≡ some q
      → Does view (provider.delete_pool p) s tt (put_pool (view s) p.name none)
  unfolding methods delete_pool
  refine_delete_pool p q s h =
      let (a, there, same) = from_map (read_pool home p.name) ((big s).pools p.name) q h in
      Runs-put big home (provider.delete_pool p) p.name none none s
        (Runs-expect big home _ (f5.delete_pool p.name) s (laws.delete_pool p.name a s there)) refl

  refine_create_pool :
      (p : Pool) (s : S)
      → (view s).pools p.name ≡ none
      → keeps_monitor home p.monitor ≡ true
      → Does view
          (provider.create_pool p)
          s
          tt
          (put_pool (view s) p.name (some (record p { members = [] })))
  unfolding methods create_pool
  refine_create_pool p s h fits =
      let k = p.name in
      let gone = none_from_map (read_pool home k) ((big s).pools k) h in
      let make = expect _ (f5.create_pool k) in
      let made = Runs-expect big home _ (f5.create_pool k) s (laws.create_pool k s gone) in
      let s1 = (make s).1 in
      let at1 = ap (λ a. a.pools k) made.leaves ∙ pools-with_pool (big s) k (some new_pool) in
      let add = expect _ (f5.add_monitor_to_pool p.monitor k) in
      let added =
        Runs-expect big home _ (f5.add_monitor_to_pool p.monitor k) s1
          (laws.add_monitor_to_pool p.monitor k new_pool s1 at1) in
      let a2 : AppliancePool = record new_pool { monitor = p.monitor } in
      let s2 = (add s1).1 in
      let at2 = ap (λ a. a.pools k) added.leaves ∙ pools-with_pool (big s1) k (some a2) in
      let c : PoolData = record {
        name = "";
        monitor = "";
        load_balancing_mode = (self s).lbmethod;
      } in
      let set = expect _ (f5.modify_pool k c) in
      let done = Runs-expect big home _ (f5.modify_pool k c) s2 (laws.modify_pool k c a2 s2 at2) in
      Runs-put big home (provider.create_pool p) k (some (modified c a2)) _ s
        (Runs-again big home make (add >> set) k (some new_pool) (some (modified c a2)) s made
          (Runs-again big home add set k (some a2) (some (modified c a2)) s1 added done))
        (ap some (
          modified_method home k (self s).lbmethod a2
          ∙ ap (λ m. record p { members = []; monitor = m })
              (keeps_monitor-trim home p.monitor fits)))

  -- The laws of pools that the handlers rely on hold of the provider.
  pub pool_laws : PoolLaws view provider
  pool_laws = record {
    get_pool = refine_get_pool;
    get_pool_members = refine_get_pool_members;
    fits_monitor = keeps_monitor home;
    fits_member = keeps_member;
    stored = stored_member;
    stored_same = λ m. same_member_refl m;
    create_pool = refine_create_pool;
    rewritten = λ p s. p.members;
    edit_pool = refine_edit_pool;
    delete_pool = refine_delete_pool;
    create_pool_member = refine_create_pool_member home colonless big self at_home f5 laws make;
    delete_pool_member = refine_delete_pool_member home colonless big self at_home f5 laws make;
  }

  -- The pools that BIG-IP keeps.
  pub pool_laws-Fits :
      (p : Pool)
      → keeps_monitor home p.monitor ≡ true
      → AllFit keeps_member p.members
      → Fits view pool_laws p
  unfolding pool_laws
  pool_laws-Fits p keeps members = (keeps, members)

  pub pool_laws-fits_monitor : pool_laws.fits_monitor ≡ keeps_monitor home
  unfolding pool_laws
  pool_laws-fits_monitor = refl

  pub pool_laws-fits_member : pool_laws.fits_member ≡ keeps_member
  unfolding pool_laws
  pool_laws-fits_member = refl

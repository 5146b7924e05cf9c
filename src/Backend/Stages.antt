-- ===== src/Backend/Stages.antt =====
-- The stages of `HandleCleanup` on a lawful device: the VIPs, the pool members and the pools.
use lbconfig_operator.Base.{
  String, ◌≡◌, ◌≢◌, refl, ◌∙◌, fun_ext, true, Option, none, some, List, [], ◌∷◌, map, arith,
  string_eq, int_eq, contains, err, panic, Error, ignore_error, for_each, Option-cases, inl, inr,
}
use mathlib.Core.Option
use lbconfig_operator.Api.{Pool, PoolMember, Vip}
use lbconfig_operator.Backend.{Backend}
use lbconfig_operator.Backend.Handle.{cleanup_vips, cleanup_members, cleanup_pools}
use lbconfig_operator.Backend.Loops.{
  Installed, without, Table, remove_all, Passes, All, for_each-Passes, for_each-NeverErrs,
  ignore_error-NeverErrs, ignore_error-ok, All-const,
}
use lbconfig_operator.Backend.Device.{Device, Does, Does-wrap, VipLaws, PoolLaws, put, put_pool}

abbrev pub vip_names : List Vip → List String
vip_names = map (λ v. v.name)

abbrev pub pool_names : List Pool → List String
pool_names = map (λ p. p.name)

abbrev vip_table : Table Vip
vip_table = record {
  get = λ d. d.vips;
  set = λ d f. record d { vips = f };
  get-set = λ d f. refl;
  set-set = λ d f g. refl;
  set-get = λ d. refl;
}

abbrev pool_table : Table Pool
pool_table = record {
  get = λ d. d.pools;
  set = λ d f. record d { pools = f };
  get-set = λ d f. refl;
  set-set = λ d f g. refl;
  set-get = λ d. refl;
}

-- A deletion of a member touches the members of its pool and nothing else, whether it succeeds or
-- reports an error.
pub record MemberFrame {S : Type 0} (view : S → Device) (b : Backend S) : Type 0 where
  pub left : PoolMember → Pool → S → List PoolMember
  pub no_panic : (m : PoolMember) (p : Pool) (s : S) → (b.delete_pool_member m p s).0 ≢ panic
  pub frame :
      (m : PoolMember) (p : Pool) (s : S)
      → view (b.delete_pool_member m p s).1
        ≡ put_pool
            (view s)
            p.name
            (Option.map {A = Pool} (λ q. record q { members = left m p s }) ((view s).pools p.name))

module _ {S : Type 0} (b : Backend S) where
  -- No error that deleting a pool member reports, for whatever members of whatever pools, makes the
  -- members' stage of the cleanup return an error.
  cleanup_members-ne-err : (ps : List Pool) (s : S) (e : Error) → (cleanup_members b ps s).0 ≢ err e
  unfolding cleanup_members
  cleanup_members-ne-err =
      for_each-NeverErrs _ λ p. for_each-NeverErrs _ (λ m. ignore_error-NeverErrs _) p.members

module _ {S : Type 0} (view : S → Device) (b : Backend S) where
  pub cleanup_vips-Does :
      VipLaws view b
      → (vs : List Vip) (s : S) → Installed (view s).vips (vip_names vs)
      → Does view
          (cleanup_vips b vs)
          s
          tt
          (record (view s) { vips = without (view s).vips (vip_names vs) })
  unfolding cleanup_vips
  cleanup_vips-Does laws vs s h =
      remove_all view vip_table _ (λ v. v.name)
        (λ v s here. elim (Option-cases ((view s).vips v.name)) [
          | inl gone ↦ absurd (here gone)
          | inr (old, e) ↦ Does-wrap view _ (b.delete_vip v) s (laws.delete_vip v old s e)
        ])
        vs s h

  pub cleanup_pools-Does :
      PoolLaws view b
      → (ps : List Pool) (s : S) → Installed (view s).pools (pool_names ps)
      → Does view
          (cleanup_pools b ps)
          s
          tt
          (record (view s) { pools = without (view s).pools (pool_names ps) })
  unfolding cleanup_pools
  cleanup_pools-Does laws ps s h =
      remove_all view pool_table _ (λ p. p.name)
        (λ p s here. elim (Option-cases ((view s).pools p.name)) [
          | inl gone ↦ absurd (here gone)
          | inr (old, e) ↦ Does-wrap view _ (b.delete_pool p) s (laws.delete_pool p old s e)
        ])
        ps s h

  -- What the members' stage keeps, for the names of the pools.
  pub record Kept (names : List String) (before after : Device) : Type 0 where
    pub monitors : after.monitors ≡ before.monitors
    pub vips : after.vips ≡ before.vips
    pub rest : without after.pools names ≡ without before.pools names
    pub there : Installed after.pools names

  without-put_pool :
      (f : String → Option Pool) (k : String) (v : Option Pool) (names : List String)
      → contains names k ≡ true
      → without (put f k v) names ≡ without f names
  without-put_pool f k v names h = fun_ext λ j. ground arith

  Installed-update :
      (f : String → Option Pool) (k : String) (v : Option Pool) (names : List String)
      → (f k ≢ none → v ≢ none)
      → Installed f names
      → Installed (put f k v) names
  Installed-update f k v [] same h = tt
  Installed-update f k v (j ∷ names) same (here, fresh, h) =
      (λ e. ground arith, fresh, Installed-update f k v names same h)

  map-ne-none : (f : Pool → Pool) (o : Option Pool) → o ≢ none → Option.map f o ≢ none
  map-ne-none f none h = absurd (h refl)
  map-ne-none f (some q) h = λ e. cc

  module _ (frame : MemberFrame view b) (names : List String) (d : Device) where
    Kept-put_pool :
        (e : Device) (k : String) (f : Pool → Pool)
        → contains names k ≡ true
        → Kept names d e
        → Kept names d (put_pool e k (Option.map f (e.pools k)))
    Kept-put_pool e k f listed h = record {
      monitors = h.monitors;
      vips = h.vips;
      rest = without-put_pool e.pools k _ names listed ∙ h.rest;
      there = Installed-update e.pools k _ names (map-ne-none f (e.pools k)) h.there;
    }

    delete_member-Passes :
        (m : PoolMember) (p : Pool)
        → contains names p.name ≡ true
        → Passes (λ s. Kept names d (view s)) (ignore_error (b.delete_pool_member m p))
    delete_member-Passes m p listed s h =
        rw (ignore_error-ok (b.delete_pool_member m p) s (frame.no_panic m p s))
          (refl, rw frame.frame (Kept-put_pool (view s) p.name _ listed h))

    pub cleanup_members-Passes :
        (ps : List Pool)
        → All (λ p. contains names p.name ≡ true) ps
        → Passes (λ s. Kept names d (view s)) (cleanup_members b ps)
    unfolding cleanup_members
    cleanup_members-Passes ps all = for_each-Passes _ _ ps (each ps all)
      where
        each :
            (ps : List Pool)
            → All (λ p. contains names p.name ≡ true) ps
            → All
                (λ p.
                  Passes
                    (λ s. Kept names d (view s))
                    (for_each (λ m. ignore_error (b.delete_pool_member m p)) p.members))
                ps
        each [] all = tt
        each (p ∷ ps) (listed, all) = (
          for_each-Passes _ _ p.members
              (All-const (λ m. delete_member-Passes m p listed) p.members),
          each ps all,
        )

-- ===== src/Backend/Converge.antt =====
-- `HandlePool` of backend_controller.go on a lawful device, for a pool that is there and for a new
-- one.
use lbconfig_operator.Base.{
  ◌≡◌, true, refl, sym, ap, ◌∙◌, none, some, List, map, [], ◌∷◌, ◌++◌, arith, ◌==◌, string_eq, ◌>>◌,
  for_each, Option-cases, Bool-cases, inl, inr, pure,
}
use lbconfig_operator.Api.{Pool, PoolMember}
use lbconfig_operator.Backend.{Backend}
use lbconfig_operator.Backend.Handle.{
  contains_member, missing, update_pool_monitor, update_pool, handle_pool,
}
use lbconfig_operator.Backend.Members.{
  NodupMembers, AllAbsent, AllPresent, remove_members, missing-Nodup, missing-AllAbsent,
  missing-AllPresent_append, AllFit, missing-AllFit,
}
use lbconfig_operator.Backend.MemberSync.{
  contains_member-synced, synced-Nodup, contains_member-map, map-Nodup,
}
use lbconfig_operator.Backend.Device.{
  Device, Does, Does-bind, Does-cast, Does-return, PoolLaws, Fits, put_pool,
}
use lbconfig_operator.Backend.PoolWrites.{
  put_pool_self, Does-next, holds_next, create_members, delete_members,
}

module _ {S : Type 0} (view : S → Device) (b : Backend S) (laws : PoolLaws view b) (p : Pool) where
  -- What `HandlePool` makes of a pool that exists.
  abbrev pub synced : Pool → Pool
  synced q = record q {
    monitor = p.monitor;
    members =
        remove_members (missing q.members p.members)
          (q.members ++ map laws.stored (missing p.members q.members));
  }

  update_pool_monitor_lem :
      (q c : Pool) (s : S)
      → (view s).pools p.name ≡ some q
      → c.monitor ≡ q.monitor
      → laws.fits_monitor p.monitor ≡ true
      → (ms : List PoolMember) × Does view
          (update_pool_monitor b p c)
          s
          (record p { members = ms })
          (put_pool (view s) p.name (some (record q { monitor = p.monitor })))
  unfolding update_pool_monitor
  update_pool_monitor_lem q c s h same fit = elim (Bool-cases (p.monitor == c.monitor)) [
    | inl e ↦
        let kept : some q ≡ some (record q { monitor = p.monitor }) = ground arith in
        let leaves = sym (put_pool_self (view s) p.name _ (h ∙ kept)) in
        (p.members, rw e (record { returns = refl; leaves = leaves }))
    | inr e ↦ (laws.rewritten p s, rw e (laws.edit_pool p q s h fit))
  ]

AllAbsent-nil : (ms : List PoolMember) → AllAbsent ms []
unfolding contains_member
AllAbsent-nil [] = tt
AllAbsent-nil (m ∷ ms) = (refl, AllAbsent-nil ms)

module _ {S : Type 0} (view : S → Device) (b : Backend S) (laws : PoolLaws view b) where
  -- The two loops of `HandlePool`, over the pool `p` as the calls see it.
  update_members :
      (p : Pool) (add del : List PoolMember) (q : Pool) (s : S)
      → (view s).pools p.name ≡ some q
      → NodupMembers add
      → AllAbsent add q.members
      → AllFit laws.fits_member add
      → NodupMembers del
      → AllPresent del (q.members ++ map laws.stored add)
      → Does view
          (do
            for_each (λ m. b.create_pool_member m p) add
            for_each (λ m. b.delete_pool_member m p) del
            pure p)
          s
          p
          (put_pool
            (view s)
            p.name
            (some (record q { members = remove_members del (q.members ++ map laws.stored add) })))
  update_members p add del q s h ua aa fa ud ad =
      let first = create_members view b laws p add q s h ua aa fa in
      let s' = (for_each (λ m. b.create_pool_member m p) add s).1 in
      let second =
        delete_members view b laws p del (record q { members = q.members ++ map laws.stored add })
          s' (holds_next view b laws p _ s first) ud ad in
      Does-next view b laws p _ _ s _ _ first (Does-return view _ s' p second)

  module _ (p q : Pool) (fit : Fits view laws p) (up : NodupMembers p.members)
      (uq : NodupMembers q.members) where
    abbrev configured : Pool
    configured = record q { name = p.name }

    update_pool_lem :
        (s : S)
        → (view s).pools p.name ≡ some q
        → (ms : List PoolMember) × Does view
            (update_pool b p (some configured))
            s
            (record p { members = ms })
            (put_pool (view s) p.name (some (synced view b laws p q)))
    unfolding update_pool
    update_pool_lem s h =
        let (ms, edit) = update_pool_monitor_lem view b laws p q configured s h refl fit.0 in
        let p' : Pool = record p { members = ms } in
        let s' = (update_pool_monitor b p configured s).1 in
        let loops =
          update_members p' (missing p.members q.members) (missing q.members p.members)
            (record q { monitor = p.monitor }) s' (holds_next view b laws p _ s edit)
            (missing-Nodup p.members q.members up) (missing-AllAbsent p.members q.members)
            (missing-AllFit laws.fits_member p.members q.members fit.1)
            (missing-Nodup q.members p.members uq)
            (missing-AllPresent_append q.members p.members _) in
        (ms, Does-next view b laws p _ _ s _ _ edit loops)

    -- `HandlePool` on a pool that the device has.
    pub handle_pool_existing :
        (s : S)
        → (view s).pools p.name ≡ some q
        → (ms : List PoolMember) × Does view
            (handle_pool b p)
            s
            (record p { members = ms })
            (put_pool (view s) p.name (some (synced view b laws p q)))
    unfolding handle_pool
    handle_pool_existing s h =
        let got : Does view (b.get_pool p) s (some (record configured { members = [] })) (view s) =
          rw h at (laws.get_pool p s) in
        let s1 = (b.get_pool p s).1 in
        let read =
          laws.get_pool_members (record configured { members = [] }) q s1 (rw got.leaves h) in
        let s2 = (b.get_pool_members (record configured { members = [] }) s1).1 in
        let same : view s2 ≡ view s = read.leaves ∙ got.leaves in
        let (ms, update) = update_pool_lem s2 (rw same h) in
        (
          ms,
          Does-bind view _ _ s got (
              Does-bind view _ _ s1 read (
                Does-cast view _ s2
                  (ap (λ d. put_pool d p.name (some (synced view b laws p q))) same) update)),
        )

  -- `HandlePool` on a pool that the device lacks.
  pub handle_pool_new :
      (p : Pool) (s : S)
      → (view s).pools p.name ≡ none
      → Fits view laws p
      → NodupMembers p.members
      → Does view
          (handle_pool b p)
          s
          p
          (put_pool (view s) p.name (some (record p { members = map laws.stored p.members })))
  unfolding handle_pool
  handle_pool_new p s h fit u =
      let got : Does view (b.get_pool p) s none (view s) = rw h at (laws.get_pool p s) in
      let s1 = (b.get_pool p s).1 in
      let made = laws.create_pool p s1 (rw got.leaves h) fit.0 in
      let s2 = (b.create_pool p s1).1 in
      let loop =
        create_members view b laws p p.members (record p { members = [] }) s2
          (holds_next view b laws p _ s1 made) u (AllAbsent-nil p.members) fit.1 in
      let found : Pool = record p { members = map laws.stored p.members } in
      Does-bind view _ _ s got (
        Does-cast view _ s1 (ap (λ d. put_pool d p.name (some found)) got.leaves)
          (Does-next view b laws p _ _ s1 _ _ made (Does-return view _ s2 p loop)))

  -- `HandlePool` at `s` returns; the device then holds the pool's monitor and its members, as a
  -- set without duplicates, under the pool's name, and is otherwise what it was.
  pub record Converges (p : Pool) (s : S) : Type 0 where
    pub result : Pool
    pub found : Pool
    pub does : Does view (handle_pool b p) s result (put_pool (view s) p.name (some found))
    pub result_name : result.name ≡ p.name
    pub monitor : found.monitor ≡ p.monitor
    pub members : (m : PoolMember) → contains_member found.members m ≡ contains_member p.members m
    pub unique : NodupMembers found.members

  -- On a device that obeys the laws and holds no duplicates under the pool's name, `HandlePool`
  -- succeeds for a pool without duplicate members whose monitor and members the device can keep.
  -- Afterwards the device holds the pool's monitor
  -- and exactly its members (by host and port), without duplicates, and nothing else has changed.
  pub handle_pool-Converges :
      (p : Pool) (s : S)
      → Fits view laws p
      → NodupMembers p.members
      → ((q : Pool) → (view s).pools p.name ≡ some q → NodupMembers q.members)
      → Converges p s
  handle_pool-Converges p s fit up us = elim (Option-cases ((view s).pools p.name)) [
    | inl new ↦ record {
      result = p;
      found = record p { members = map laws.stored p.members };
      does = handle_pool_new p s new fit up;
      result_name = refl;
      monitor = refl;
      members = contains_member-map laws.stored laws.stored_same p.members;
      unique = map-Nodup laws.stored laws.stored_same p.members up;
    }
    | inr (q, old) ↦
        let uq = us q old in
        let (ms, done) = handle_pool_existing p q fit up uq s old in
        record {
          result = record p { members = ms };
          found = synced view b laws p q;
          does = done;
          result_name = refl;
          monitor = refl;
          members = contains_member-synced laws.stored laws.stored_same p.members q.members;
          unique = synced-Nodup laws.stored laws.stored_same p.members q.members up uq;
        }
  ]

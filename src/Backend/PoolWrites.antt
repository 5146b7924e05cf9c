-- ===== src/Backend/PoolWrites.antt =====
-- The writes that `HandlePool` makes to one pool of a lawful device: the loops that create and that
-- delete members.
use lbconfig_operator.Base.{
  String, ◌≡◌, refl, sym, ap, ◌∙◌, fun_ext, Option, some, List, map, [], ◌∷◌, ◌++◌, arith,
  string_eq, Action, ◌>>=◌, for_each, pure,
}
use mathlib.Core.List.{append-nil, append_assoc}
use lbconfig_operator.Api.{Pool, PoolMember}
use lbconfig_operator.Backend.{Backend}
use lbconfig_operator.Backend.Members.{
  contains_member_congr, AllFit, NodupMembers, AllAbsent, AllPresent, remove_member, remove_members,
}
use lbconfig_operator.Backend.MemberSync.{AllAbsent-add, AllPresent-remove}
use lbconfig_operator.Backend.Device.{Device, Does, Does-bind, Does-cast, PoolLaws, put_pool}

pub put_pool-put_pool :
    (d : Device) (k : String) (v w : Option Pool) → put_pool (put_pool d k v) k w ≡ put_pool d k w
put_pool-put_pool d k v w = ap (λ f. record d { pools = f }) (fun_ext λ j. ground arith)

pub put_pool_self : (d : Device) (k : String) (v : Option Pool) → d.pools k ≡ v → put_pool d k v ≡ d
put_pool_self d k v h = ap (λ f. record d { pools = f }) (fun_ext λ j. ground (arith, h))

pub pools-put_pool : (d : Device) (k : String) (v : Option Pool) → (put_pool d k v).pools k ≡ v
pools-put_pool d k v = ground arith

module _ {S : Type 0} (view : S → Device) (b : Backend S) (laws : PoolLaws view b) (p : Pool) where
  -- Replacing the pool after a call that replaced it.
  pub Does-next :
      {A B : Type 0} (m : Action S A) (f : A → Action S B) (s : S) {a : A} {c : B}
      (v w : Option Pool)
      → Does view m s a (put_pool (view s) p.name v)
      → Does view (f a) (m s).1 c (put_pool (view (m s).1) p.name w)
      → Does view (m >>= f) s c (put_pool (view s) p.name w)
  Does-next m f s v w h k = Does-bind view m f s h (
      Does-cast view _ _
        (ap (λ d. put_pool d p.name w) h.leaves ∙ put_pool-put_pool (view s) p.name v w) k)

  pub holds_next :
      {A : Type 0} (m : Action S A) (s : S) {a : A} {v : Option Pool}
      → Does view m s a (put_pool (view s) p.name v)
      → (view (m s).1).pools p.name ≡ v
  holds_next m s {v} h = rw h.leaves (pools-put_pool (view s) p.name v)

  pub stays :
      (s : S) (v : Option Pool)
      → (view s).pools p.name ≡ v
      → Does view (pure tt) s tt (put_pool (view s) p.name v)
  stays s v h = record { returns = refl; leaves = sym (put_pool_self (view s) p.name v h) }

  pub create_members :
      (add : List PoolMember) (q : Pool) (s : S)
      → (view s).pools p.name ≡ some q
      → NodupMembers add
      → AllAbsent add q.members
      → AllFit laws.fits_member add
      → Does view (for_each (λ m. b.create_pool_member m p) add) s tt (
          put_pool (view s) p.name (some (record q { members = q.members ++ map laws.stored add })))
  unfolding for_each
  create_members [] q s h u a f = rw append-nil (stays s (some q) h)
  create_members (m ∷ add) q s h (fresh, u) (absent, a) (fit, f) =
      let step = laws.create_pool_member m p q s h absent fit in
      let kept = contains_member_congr add (laws.stored m) m (laws.stored_same m) ∙ fresh in
      let rest =
        create_members add (record q { members = q.members ++ laws.stored m ∷ [] }) _
          (holds_next (b.create_pool_member m p) s step) u
          (AllAbsent-add add q.members (laws.stored m) kept a) f in
      Does-cast view _ s
        (ap (λ ms. put_pool (view s) p.name (some (record q { members = ms })))
          (append_assoc q.members (laws.stored m ∷ []) (map laws.stored add)))
        (Does-next (b.create_pool_member m p) _ s _ _ step rest)

  pub delete_members :
      (del : List PoolMember) (q : Pool) (s : S)
      → (view s).pools p.name ≡ some q
      → NodupMembers del
      → AllPresent del q.members
      → Does view
          (for_each (λ m. b.delete_pool_member m p) del)
          s
          tt
          (put_pool (view s) p.name (some (record q { members = remove_members del q.members })))
  unfolding for_each remove_members
  delete_members [] q s h u a = stays s (some q) h
  delete_members (m ∷ del) q s h (fresh, u) (present, a) =
      let step = laws.delete_pool_member m p q s h present in
      Does-next (b.delete_pool_member m p) _ s _ _ step (
        delete_members del (record q { members = remove_member m q.members }) _
          (holds_next (b.delete_pool_member m p) s step) u
          (AllPresent-remove del q.members m fresh a))

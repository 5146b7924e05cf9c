-- ===== src/Backend/Device.antt =====
-- What the handlers rely on from a provider: a device holds monitors, pools and virtual servers by
-- name, and a provider reads and writes them. The laws are hypotheses on the vendor's code and on
-- the load balancer behind it. They hold for the writes that the handlers make: a create of what is
-- not there, an edit or a delete of what is there.
use lbconfig_operator.Base.{
  String, int_eq, Bool, ◌≡◌, refl, true, false, Option, none, some, List, [], ◌∷◌, ◌++◌, ◌==◌,
  string_eq, if◌then◌else◌, ok, Action, ◌>>=◌, ◌>>◌, pure, wrap, ◌∙◌,
}
use lbconfig_operator.Api.{Monitor, Pool, PoolMember, Vip}
use lbconfig_operator.Backend.{Backend}
use lbconfig_operator.Backend.Handle.{same_member, contains_member}
use lbconfig_operator.Backend.Members.{remove_member, NodupMembers, AllFit}

pub record Device : Type 0 where
  pub monitors : String → Option Monitor
  pub pools : String → Option Pool
  pub vips : String → Option Vip

abbrev pub SameMonitor : Monitor → Monitor → Type 0
SameMonitor a b = (a.port ≡ b.port) × (a.path ≡ b.path) × (a.monitor_type ≡ b.monitor_type)

abbrev pub SameVip : Vip → Vip → Type 0
SameVip a b = (a.port ≡ b.port) × (a.ip ≡ b.ip) × (a.pool ≡ b.pool)

abbrev pub put {ℓ} : {A : Type ℓ} → (String → A) → String → A → String → A
put f k v j = if j == k then v else f j

abbrev pub put_monitor : Device → String → Option Monitor → Device
put_monitor d k v = record d { monitors = put d.monitors k v }

abbrev pub put_pool : Device → String → Option Pool → Device
put_pool d k v = record d { pools = put d.pools k v }

abbrev pub put_vip : Device → String → Option Vip → Device
put_vip d k v = record d { vips = put d.vips k v }

-- A pool as `GetPool` returns it, without its members.
abbrev pub header : String → Option Pool → Option Pool
header k none = none
header k (some p) = some (record { name = k; members = []; monitor = p.monitor })

module _ {S : Type 0} (view : S → Device) where
  -- The call `m` at `s` returns `a` and leaves the device `d`.
  pub record Does {A : Type 0} (m : Action S A) (s : S) (a : A) (d : Device) : Type 0 where
    pub returns : (m s).0 ≡ ok a
    pub leaves : view (m s).1 ≡ d

  pub record MonitorLaws (b : Backend S) : Type 0 where
    -- What the device has under a name can be read, and brought to the monitor that is asked for.
    pub suits : Option Monitor → Monitor → Bool
    pub suits_fresh : (o : Option Monitor) (m : Monitor) → suits o m ≡ true → suits none m ≡ true
    pub suits_same :
        (found m : Monitor)
        → suits none m ≡ true
        → SameMonitor found m
        → suits (some found) m ≡ true
    pub get_monitor :
        (m : Monitor) (s : S)
        → suits ((view s).monitors m.name) m ≡ true
        → Does (b.get_monitor m) s ((view s).monitors m.name) (view s)
    pub create_monitor :
        (m : Monitor) (s : S)
        → (view s).monitors m.name ≡ none
        → suits none m ≡ true
        → Does (b.create_monitor m) s tt (put_monitor (view s) m.name (some m))
    pub edit_monitor :
        (m old : Monitor) (s : S)
        → (view s).monitors m.name ≡ some old
        → suits (some old) m ≡ true
        → Does (b.edit_monitor m) s tt (put_monitor (view s) m.name (some m))
    pub delete_monitor :
        (m old : Monitor) (s : S)
        → (view s).monitors m.name ≡ some old
        → suits (some old) m ≡ true
        → Does (b.delete_monitor m) s tt (put_monitor (view s) m.name none)

  pub record PoolLaws (b : Backend S) : Type 0 where
    pub get_pool :
        (p : Pool) (s : S) → Does (b.get_pool p) s (header p.name ((view s).pools p.name)) (view s)
    pub get_pool_members :
        (p q : Pool) (s : S)
        → (view s).pools p.name ≡ some q
        → Does (b.get_pool_members p) s (some (record p { members = q.members })) (view s)
    -- The monitors and the members that the device can keep, and what it keeps of a member, which
    -- may have another name.
    pub fits_monitor : String → Bool
    pub fits_member : PoolMember → Bool
    pub stored : PoolMember → PoolMember
    pub stored_same : (m : PoolMember) → same_member (stored m) m ≡ true
    pub create_pool :
        (p : Pool) (s : S)
        → (view s).pools p.name ≡ none
        → fits_monitor p.monitor ≡ true
        → Does (b.create_pool p) s tt (put_pool (view s) p.name (some (record p { members = [] })))
    -- The members of the caller's pool may be overwritten, by anything.
    pub rewritten : Pool → S → List PoolMember
    pub edit_pool :
        (p q : Pool) (s : S)
        → (view s).pools p.name ≡ some q
        → fits_monitor p.monitor ≡ true
        → Does
            (b.edit_pool p)
            s
            (record p { members = rewritten p s })
            (put_pool (view s) p.name (some (record q { monitor = p.monitor })))
    pub delete_pool :
        (p q : Pool) (s : S)
        → (view s).pools p.name ≡ some q
        → Does (b.delete_pool p) s tt (put_pool (view s) p.name none)
    pub create_pool_member :
        (m : PoolMember) (p q : Pool) (s : S)
        → (view s).pools p.name ≡ some q
        → contains_member q.members m ≡ false
        → fits_member m ≡ true
        → Does
            (b.create_pool_member m p)
            s
            tt
            (put_pool (view s) p.name (some (record q { members = q.members ++ stored m ∷ [] })))
    pub delete_pool_member :
        (m : PoolMember) (p q : Pool) (s : S)
        → (view s).pools p.name ≡ some q
        → contains_member q.members m ≡ true
        → Does
            (b.delete_pool_member m p)
            s
            tt
            (put_pool (view s) p.name (some (record q { members = remove_member m q.members })))

  -- The device can keep the pool's monitor and its members.
  abbrev pub Fits : {b : Backend S} → PoolLaws b → Pool → Type 0
  Fits laws p = (laws.fits_monitor p.monitor ≡ true) × AllFit laws.fits_member p.members

  pub record VipLaws (b : Backend S) : Type 0 where
    -- As for the monitors.
    pub suits : Option Vip → Vip → Bool
    pub suits_fresh : (o : Option Vip) (v : Vip) → suits o v ≡ true → suits none v ≡ true
    pub suits_same :
        (found v : Vip) → suits none v ≡ true → SameVip found v → suits (some found) v ≡ true
    pub get_vip :
        (v : Vip) (s : S)
        → suits ((view s).vips v.name) v ≡ true
        → Does (b.get_vip v) s ((view s).vips v.name) (view s)
    pub create_vip :
        (v : Vip) (s : S)
        → (view s).vips v.name ≡ none
        → suits none v ≡ true
        → Does (b.create_vip v) s tt (put_vip (view s) v.name (some v))
    pub edit_vip :
        (v old : Vip) (s : S)
        → (view s).vips v.name ≡ some old
        → suits (some old) v ≡ true
        → Does (b.edit_vip v) s tt (put_vip (view s) v.name (some v))
    pub delete_vip :
        (v old : Vip) (s : S)
        → (view s).vips v.name ≡ some old
        → Does (b.delete_vip v) s tt (put_vip (view s) v.name none)

module _ {S : Type 0} (view : S → Device) where
  -- A call followed by another.
  pub Does-bind :
      {A B : Type 0} (m : Action S A) (f : A → Action S B) (s : S) {a : A} {b : B} {d e : Device}
      → Does view m s a d
      → Does view (f a) (m s).1 b e
      → Does view (m >>= f) s b e
  Does-bind m f s {a} {b} {d} {e} h k = record {
    returns = rw h.returns k.returns;
    leaves = rw h.returns k.leaves;
  }

  pub Does-seq :
      {A B : Type 0} (m : Action S A) (n : Action S B) (s : S) {a : A} {b : B} {d e : Device}
      → Does view m s a d
      → Does view n (m s).1 b e
      → Does view (m >> n) s b e
  Does-seq m n s h k = record { returns = rw h.returns k.returns; leaves = rw h.returns k.leaves }

  pub Does-cast :
      {A : Type 0} (m : Action S A) (s : S) {a : A} {d e : Device}
      → d ≡ e
      → Does view m s a d
      → Does view m s a e
  Does-cast m s p h = record { returns = h.returns; leaves = h.leaves ∙ p }

  pub Does-return :
      {A B : Type 0} (m : Action S A) (s : S) (c : B) {a : A} {d : Device}
      → Does view m s a d
      → Does view (m >> pure c) s c d
  Does-return m s c h = record { returns = rw h.returns; leaves = rw h.returns h.leaves }

  pub Does-map :
      {A B : Type 0} (f : A → B) (m : Action S A) (s : S) {a : A} {d : Device}
      → Does view m s a d
      → Does view (m >>= λ x. pure (f x)) s (f a) d
  Does-map f m s h = record { returns = rw h.returns refl; leaves = rw h.returns h.leaves }

  -- An error message that is added to has no effect on a call that succeeds.
  pub Does-wrap :
      {A : Type 0} (f : String → String) (m : Action S A) (s : S) {a : A} {d : Device}
      → Does view m s a d
      → Does view (wrap f m) s a d
  Does-wrap f m s h = record { returns = rw h.returns; leaves = rw h.returns h.leaves }

-- The device holds the pool `p` under its name: its monitor and its members, as a set without
-- duplicates.
pub record HoldsPool (d : Device) (p : Pool) : Type 0 where
  pub found : Pool
  pub at_name : d.pools p.name ≡ some found
  pub monitor : found.monitor ≡ p.monitor
  pub members : (m : PoolMember) → contains_member found.members m ≡ contains_member p.members m

-- The device holds a virtual server with the port, the address and the pool of `v` under its name.
pub record HoldsVip (d : Device) (v : Vip) : Type 0 where
  pub found : Vip
  pub at_name : d.vips v.name ≡ some found
  pub same : SameVip found v

-- No pool of the device has a member twice.
abbrev pub Unique : Device → Type 0
Unique d = (k : String) (q : Pool) → d.pools k ≡ some q → NodupMembers q.members

pub HoldsPool-pools :
    (d e : Device) → d.pools ≡ e.pools → (p : Pool) → HoldsPool d p → HoldsPool e p
HoldsPool-pools d e same p h = record {
  found = h.found;
  at_name = rw (← same) h.at_name;
  monitor = h.monitor;
  members = h.members;
}

pub HoldsVip-vips : (d e : Device) → d.vips ≡ e.vips → (v : Vip) → HoldsVip d v → HoldsVip e v
HoldsVip-vips d e same v h = record {
  found = h.found;
  at_name = rw (← same) h.at_name;
  same = h.same;
}

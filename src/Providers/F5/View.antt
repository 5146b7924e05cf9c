-- ===== src/Providers/F5/View.antt =====
-- BIG-IP's pools as the device of the handlers' theorems: a pool of the device is what the provider
-- reads of the pool on BIG-IP.
use mathlib.Core.Option
use mathlib.Core.Option.{some-injective}
use lbconfig_operator.Base.{
  String, Bool, true, false, not, ◌&&◌, Option, none, some, List, [], ◌∷◌, ◌++◌, map, ◌≡◌, refl, ap,
  fun_ext, ◌==◌, string_eq, int_eq, Bool-cases, inl, inr, arith,
}
use lbconfig_operator.Base.Decimal.{fits_int}
use lbconfig_operator.Base.Text.{has_char, trim, starts_outside, ends_outside}
use lbconfig_operator.Api.{Pool, PoolMember}
use lbconfig_operator.Backend.Handle.{contains_member}
use lbconfig_operator.Backend.Members.{remove_member}
use lbconfig_operator.Backend.Device.{Device, put, put_pool, header}
use lbconfig_operator.Providers.F5.{NodeData, PoolData}
use lbconfig_operator.Providers.F5.Config.{found_pool}
use lbconfig_operator.Providers.F5.RoundTrips.{member_at, trim_qualified}
use lbconfig_operator.Providers.F5.Appliance.{
  name_at, Member, AppliancePool, Appliance, qualified, has_member, drop_member, is_at, with_pool,
  with_node, modified, pool_data,
}

-- The names of monitors that `Trim` leaves whole: not empty, and neither beginning nor ending with a
-- character of the folder.
abbrev pub keeps_monitor : String → String → Bool
keeps_monitor home m = not (m == "") && starts_outside home m && ends_outside home m

-- The members that BIG-IP's names tell apart.
abbrev pub keeps_member : PoolMember → Bool
keeps_member m = not (has_char m.node.host ":") && fits_int m.port

-- What the provider reads of a pool.
abbrev pub read_pool : String → String → AppliancePool → Pool
read_pool home k a = record {
  name = k;
  members = map member_at a.members;
  monitor = trim home (qualified home a.monitor);
}

abbrev pub device_of : String → Appliance → Device
device_of home a = record {
  monitors = a.monitors;
  pools = λ k. Option.map (read_pool home k) (a.pools k);
  vips = a.vips;
}

pub device_of-with_pool :
    (home k : String) (v : Option AppliancePool) (a : Appliance)
    → device_of home (with_pool a k v)
      ≡ put_pool (device_of home a) k (Option.map (read_pool home k) v)
device_of-with_pool home k v a =
    ap (λ f. record (device_of home a) { pools = f }) (fun_ext pointwise)
  where
    pointwise :
        (j : String)
        → Option.map (read_pool home j) (put a.pools k v j)
          ≡ put (device_of home a).pools k (Option.map (read_pool home k) v) j
    pointwise j = elim (Bool-cases (j == k)) [
      | inl e ↦
          let same : j ≡ k = ground arith in rw e (ap (λ i. Option.map (read_pool home i) v) same)
      | inr e ↦ rw e refl
    ]

pub contains_member-member_at :
    (ms : List Member) (m : PoolMember)
    → contains_member (map member_at ms) m ≡ has_member ms m.node.host m.port
unfolding contains_member has_member
contains_member-member_at [] m = refl
contains_member-member_at (x ∷ ms) m = rw (contains_member-member_at ms m) refl

pub drop_member-member_at :
    (ms : List Member) (m : PoolMember)
    → map member_at (drop_member m.node.host m.port ms) ≡ remove_member m (map member_at ms)
unfolding drop_member remove_member
drop_member-member_at [] m = refl
drop_member-member_at (x ∷ ms) m = elim (Bool-cases (is_at m.node.host m.port x)) [
  | inl e ↦ rw e (drop_member-member_at ms m)
  | inr e ↦ rw e (ap (λ t. member_at x ∷ t) (drop_member-member_at ms m))
]

pub append-member_at :
    (ms : List Member) (m : Member)
    → map member_at (ms ++ m ∷ []) ≡ map member_at ms ++ member_at m ∷ []
append-member_at [] m = refl
append-member_at (x ∷ ms) m = ap (λ t. member_at x ∷ t) (append-member_at ms m)

pub from_map :
    {A B : Type 0} (f : A → B) (o : Option A) (q : B)
    → Option.map f o ≡ some q
    → (p : A) × (o ≡ some p) × f p ≡ q
from_map f none q h = absurd (ground arith)
from_map f (some p) q h = (p, refl, some-injective (f p) q h)

pub none_from_map : {A B : Type 0} (f : A → B) (o : Option A) → Option.map f o ≡ none → o ≡ none
none_from_map f none h = refl
none_from_map f (some p) h = absurd (ground arith)

pub found_pool-header :
    (home k : String) (o : Option AppliancePool)
    → found_pool home (Option.map (pool_data home k) o) ≡ header k (Option.map (read_pool home k) o)
found_pool-header home k none = refl
found_pool-header home k (some a) = refl

pub filled : (home m : String) → keeps_monitor home m ≡ true → m == "" ≡ false
filled home m h = ground arith

pub keeps_monitor-trim :
    (home m : String) → keeps_monitor home m ≡ true → trim home (qualified home m) ≡ m
keeps_monitor-trim home m h =
    let named : m == "" ≡ false = filled home m h in
    let starts : starts_outside home m ≡ true = ground arith in
    let ends : ends_outside home m ≡ true = ground arith in
    rw named (trim_qualified home m starts ends)

-- A change of the monitor of a pool, as the provider reads it.
pub modified-kept :
    (home k : String) (c : PoolData) (a : AppliancePool)
    → keeps_monitor home c.monitor ≡ true
    → read_pool home k (modified c a) ≡ record (read_pool home k a) { monitor = c.monitor }
modified-kept home k c a h =
    ap (λ m. record (read_pool home k a) { monitor = m })
      (rw (filled home c.monitor h) (keeps_monitor-trim home c.monitor h))

pub pools-with_pool :
    (a : Appliance) (k : String) (v : Option AppliancePool) → (with_pool a k v).pools k ≡ v
pools-with_pool a k v = ground arith

pub with_pool-with_pool :
    (a : Appliance) (k : String) (v w : Option AppliancePool)
    → with_pool (with_pool a k v) k w ≡ with_pool a k w
with_pool-with_pool a k v w = ap (λ f. record a { pools = f }) (fun_ext λ j. ground arith)

-- A change of the method alone.
pub modified_method :
    (home k method : String) (a : AppliancePool)
    → read_pool home k
        (modified (record { name = ""; monitor = ""; load_balancing_mode = method }) a)
      ≡ read_pool home k a
unfolding string_eq
modified_method home k method a = refl

pub nodes-with_node :
    (a : Appliance) (k : String) (n : NodeData) → (with_node a k n).nodes k ≡ some n
nodes-with_node a k n = ground arith

-- A member as BIG-IP keeps it.
abbrev pub stored_member : PoolMember → PoolMember
stored_member m = record m {
  node = record { name = name_at m.node.host m.port; host = m.node.host; labels = none };
}

pub keeps_member-plain : (m : PoolMember) → keeps_member m ≡ true → has_char m.node.host ":" ≡ false
keeps_member-plain m h = ground arith

pub keeps_member-narrow : (m : PoolMember) → keeps_member m ≡ true → fits_int m.port ≡ true
keeps_member-narrow m h = ground arith

-- ===== src/Examples/BigIpMemory.antt =====
-- A BIG-IP whose world is the load balancer itself, with the laws that f5_controller.go relies on.
use mathlib.Core.Option
use mathlib.Core.Bool.{Bool-set}
use text.Mathlib.TextLemmas.{nil-append, cons-append}
use lbconfig_operator.Base.{
  String, ◌<>◌, ℤ, true, false, Option, none, some, List, [], ◌∷◌, ◌++◌, map, ◌≡◌, refl, ap,
  fun_ext, subst, ◌⊎◌, inl, inr, Bool-cases, string_eq, int_eq, arith, atoi,
}
use lbconfig_operator.Base.Decimal.{fits_int, atoi-itoa}
use lbconfig_operator.Base.Text.{has_char, split}
use lbconfig_operator.Providers.{Call}
use lbconfig_operator.Providers.F5.{BigIp, MemberData}
use lbconfig_operator.Providers.F5.RoundTrips.{split-name_at}
use lbconfig_operator.Providers.F5.Appliance.{
  Member, is_at, has_member, drop_member, AppliancePool, Appliance, name_at, member_data, pool_data,
  modified, with_pool, with_node, new_pool, BigIpLaws,
}

make :
    (host : String) (port : ℤ)
    → (has_char host ":" ≡ true) ⊎ (has_char host ":" ≡ false)
    → (fits_int port ≡ true) ⊎ (fits_int port ≡ false)
    → Option Member
make host port (inr e) (inl f) = some (record { host = host; port = port; plain = e; narrow = f })
make host port (inr e) (inr f) = none
make host port (inl e) f = none

made : String → Option ℤ → Option Member
unfolding make
made host none = none
made host (some port) = make host port (Bool-cases (has_char host ":")) (Bool-cases (fits_int port))

of_parts : List String → Option Member
unfolding made
of_parts (host ∷ port ∷ []) = made host (atoi port)
of_parts [] = none
of_parts (host ∷ []) = none
of_parts (host ∷ port ∷ x ∷ xs) = none

parse_member : String → Option Member
unfolding of_parts
parse_member text = of_parts (split ":" text)

make-Member :
    (m : Member) (e : (has_char m.host ":" ≡ true) ⊎ (has_char m.host ":" ≡ false))
    (f : (fits_int m.port ≡ true) ⊎ (fits_int m.port ≡ false))
    → make m.host m.port e f ≡ some m
unfolding make
make-Member m (inr e) (inl f) =
    ap₂-proofs e m.plain f m.narrow (Bool-set _ _ e m.plain) (Bool-set _ _ f m.narrow)
  where
    ap₂-proofs :
        (e e' : has_char m.host ":" ≡ false) (f f' : fits_int m.port ≡ true)
        → e ≡ e'
        → f ≡ f'
        → Path
            (Option Member)
            (some (record { host = m.host; port = m.port; plain = e; narrow = f }))
            (some (record { host = m.host; port = m.port; plain = e'; narrow = f' }))
    ap₂-proofs e e' f f' p q = cc
make-Member m (inr e) (inr f) = absurd (ground (arith, m.narrow))
make-Member m (inl e) f = absurd (ground (arith, m.plain))

parse_member-name_at : (m : Member) → parse_member (name_at m.host m.port) ≡ some m
unfolding parse_member of_parts made
parse_member-name_at m =
    rw (split-name_at m.host m.port m.plain, atoi-itoa m.port m.narrow)
      (make-Member m (Bool-cases (has_char m.host ":")) (Bool-cases (fits_int m.port)))

-- The name behind a folder.
strip : String → String → String
strip String.[] path = path
strip (String.◌∷◌ c home) String.[] = String.[]
strip (String.◌∷◌ c home) (String.◌∷◌ d path) = strip home path

strip-append : (home k : String) → strip home (home <> k) ≡ k
unfolding strip
strip-append String.[] k = rw nil-append refl
strip-append (String.◌∷◌ c home) k = rw cons-append (strip-append home k)

abbrev pub common : String
common = "/Common/"

abbrev pub itself : Appliance → Appliance
itself a = a

abbrev succeed : Call Appliance (Unit {0})
succeed a = (record { value = some tt; error = none }, a)

abbrev refuse : {A : Type 0} → Call Appliance A
refuse a = (record { value = none; error = some "01020036: not found" }, a)

abbrev answer : {A : Type 0} → Option A → Call Appliance A
answer o a = (record { value = o; error = none }, a)

abbrev change_found :
    String
    → (AppliancePool → Option AppliancePool)
    → Option AppliancePool
    → Call Appliance (Unit {0})
change_found k f none a = refuse a
change_found k f (some p) a = succeed (with_pool a k (f p))

abbrev change : String → (AppliancePool → Option AppliancePool) → Call Appliance (Unit {0})
change k f a = change_found k f (a.pools k) a

abbrev add : String → Option Member → Call Appliance (Unit {0})
add k none = refuse
add k (some m) = change k (λ p. some (record p { members = p.members ++ m ∷ [] }))

abbrev remove : String → Option Member → Call Appliance (Unit {0})
remove k none = refuse
remove k (some m) =
    change k (λ p. some (record p { members = drop_member m.host m.port p.members }))

abbrev data_of : Option AppliancePool → Call Appliance (List MemberData)
data_of none = refuse
data_of (some p) = answer (some (map (member_data common) p.members))

-- It has no monitors and no virtual servers of its own.
unfoldable pub big_ip : BigIp Appliance
unfolding parse_member strip
big_ip = record {
  url_host = λ text. some text;
  quote = λ text. text;
  print_server = λ d. d.name;
  new_session = λ host user password a. a;
  get_monitor = λ name kind. answer none;
  add_monitor = λ d kind. succeed;
  patch_monitor = λ name kind d. succeed;
  delete_monitor = λ name kind. succeed;
  get_pool = λ k a. answer (Option.map (pool_data common k) (a.pools k)) a;
  create_pool = λ k a. succeed (with_pool a k (some new_pool));
  add_monitor_to_pool = λ m k. change k (λ p. some (record p { monitor = m }));
  modify_pool = λ k c. change k (λ p. some (modified c p));
  delete_pool = λ k. change k (λ p. none);
  pool_members = λ k a. data_of (a.pools k) a;
  add_pool_member = λ k text. add k (parse_member text);
  pool_member_status = λ k text status. succeed;
  delete_pool_member = λ path text. remove (strip common path) (parse_member text);
  get_node = λ k a. answer (a.nodes k) a;
  modify_node = λ k c a. succeed (with_node a k c);
  create_node =
      λ name address a. succeed (with_node a name (record { name = name; address = address }));
  get_virtual_server = λ name. answer none;
  add_virtual_server = λ d. succeed;
  patch_virtual_server = λ name d. succeed;
  delete_virtual_server = λ name. succeed;
}

-- The member of a pool that a name is that of.
member_of :
    (ms : List Member) (host : String) (port : ℤ)
    → has_member ms host port ≡ true
    → (m : Member) × (m.host ≡ host) × m.port ≡ port
unfolding has_member
member_of [] host port h = absurd (ground arith)
member_of (m ∷ ms) host port h = elim (Bool-cases (is_at host port m)) [
  | inl here ↦ (m, ground arith, ground arith)
  | inr other ↦ member_of ms host port (ground arith)
]

pub big_ip_laws : BigIpLaws common itself big_ip
unfolding big_ip
big_ip_laws = record {
  get_pool = λ k s. record { value = refl; error = refl; leaves = refl };
  create_pool = λ k s h. record { error = refl; leaves = refl };
  add_monitor_to_pool = λ m k a s h. record { error = rw h refl; leaves = rw h refl };
  modify_pool = λ k c a s h. record { error = rw h refl; leaves = rw h refl };
  delete_pool = λ k a s h. record { error = rw h refl; leaves = rw h refl };
  pool_members = λ k a s h. record { value = rw h refl; error = rw h refl; leaves = rw h refl };
  get_node = λ k s. record { value = refl; error = refl; leaves = refl };
  create_node = λ k s h. record { error = refl; leaves = refl };
  changed = λ c n. c;
  modify_node = λ k c n s h. record { error = refl; leaves = refl };
  add_pool_member = λ k m a n s h here lacks. record {
    error = rw (parse_member-name_at m, h) refl;
    leaves = rw (parse_member-name_at m, h) refl;
  };
  delete_pool_member = λ k host port a s h has.
      let (m, e, f) = member_of a.members host port has in
      let read : parse_member (name_at host port) ≡ some m =
        subst (λ t. parse_member (name_at t port) ≡ some m) e
          (subst (λ z. parse_member (name_at m.host z) ≡ some m) f (parse_member-name_at m)) in
      record {
        error = rw (read, strip-append common k, h) refl;
        leaves = rw (read, strip-append common k, h, e, f) refl;
      };
}

-- The members that a deletion leaves.
left_of : Option Member → Option AppliancePool → List Member
left_of m none = []
left_of none (some p) = p.members
left_of (some m) (some p) = drop_member m.host m.port p.members

pub left_in : String → String → ℤ → Appliance → List Member
left_in k host port a = left_of (parse_member (name_at host port)) (a.pools k)

with_pool_self :
    (a : Appliance) (k : String) (v : Option AppliancePool) → a.pools k ≡ v → a ≡ with_pool a k v
with_pool_self a k v h = ap (λ f. record a { pools = f }) (fun_ext λ j. ground (arith, h))

removed :
    (k : String) (m : Option Member) (o : Option AppliancePool) (a : Appliance)
    → a.pools k ≡ o
    → (remove k m a).1
      ≡ with_pool a k (Option.map {A = AppliancePool} (λ p. record p { members = left_of m o }) o)
unfolding left_of
removed k none none a h = with_pool_self a k none h
removed k none (some p) a h = with_pool_self a k (some p) h
removed k (some m) none a h = rw h (with_pool_self a k none h)
removed k (some m) (some p) a h = rw h refl

pub big_ip-delete_frame :
    (k host : String) (port : ℤ) (a : Appliance)
    → (big_ip.delete_pool_member (common <> k) (name_at host port) a).1
      ≡ with_pool a k (
          Option.map {A = AppliancePool}
            (λ p. record p { members = left_in k host port a })
            (a.pools k))
unfolding big_ip left_in
big_ip-delete_frame k host port a =
    rw (strip-append common k) (removed k (parse_member (name_at host port)) (a.pools k) a refl)

pub big_ip-new_session :
    (host user password : String) (a : Appliance) → big_ip.new_session host user password a ≡ a
unfolding big_ip
big_ip-new_session host user password a = refl

-- ===== src/Examples/DataPlaneMemory.antt =====
-- A data plane that keeps the servers of every backend under their names.
use lbconfig_operator.Base.{
  String, ℤ, pos, ◌≡◌, refl, ap, ◌∙◌, true, false, Option, none, some, List, [], ◌∷◌, ◌++◌, map,
  ◌==◌, string_eq, if◌then◌else◌, arith, pure, Bool-cases, inl, inr,
}
use mathlib.Core.Option.{some-injective}
use lbconfig_operator.Api.{PoolMember}
use lbconfig_operator.Backend.Device.{put}
use lbconfig_operator.Providers.{Cell, Reply}
use lbconfig_operator.Providers.Haproxy.{HaproxyProvider, ServerData, DataPlane}
use lbconfig_operator.Providers.Haproxy.Objects.{add_server, read_servers}
use lbconfig_operator.Providers.Haproxy.Names.{plain, used, drop_named}
use lbconfig_operator.Providers.Haproxy.Book.{Book}

pub record Entry : Type 0 where
  pub name : String
  pub address : String
  pub port : ℤ

pub record Ledger : Type 0 where
  pub object : HaproxyProvider
  pub entries : String → List Entry

abbrev pub object_cell : Cell Ledger HaproxyProvider
object_cell = record {
  get = λ w. w.object;
  set = λ p w. record w { object = p };
  get-set = λ p w. refl;
}

abbrev pub member_at_entry : Entry → PoolMember
member_at_entry e = record {
  node = record { name = e.name; host = e.address; labels = none };
  port = e.port;
}

abbrev data_of : Entry → ServerData
data_of e = record {
  name = e.name;
  address = e.address;
  port = some e.port;
  check = "enabled";
  check_ssl = "";
  verify = "";
  maintenance = "";
  inter = some (pos 1000);
  health_check_port = none;
}

abbrev pub members : String → Ledger → List PoolMember
members k w = map member_at_entry (w.entries k)

abbrev answer : {A : Type 0} → A → Ledger → Reply A × Ledger
answer a w = (record { value = some a; error = none }, w)

abbrev fails : {A : Type 0} → String → Ledger → Reply A × Ledger
fails e w = (record { value = none; error = some e }, w)

abbrev write : String → List Entry → Ledger → Ledger
write k es w = record w { entries = put w.entries k es }

abbrev drop_entry : String → List Entry → List Entry
drop_entry n [] = []
drop_entry n (e ∷ es) = let rest = drop_entry n es in if e.name == n then rest else e ∷ rest

abbrev add_entry : String → ServerData → Option ℤ → Ledger → Reply (Unit {0}) × Ledger
add_entry k d none w = fails "a server has a port" w
add_entry k d (some port) w =
    if used (members k w) d.name
    then fails "the server is there already" w
    else answer tt
        (write k (w.entries k ++ record { name = d.name; address = d.address; port = port } ∷ []) w)

abbrev pub plane : DataPlane Ledger
plane = record {
  create = λ host port user password validate debug. pure tt;
  get_sites = answer (pos 1);
  start_transaction = λ version. answer "transaction";
  commit_transaction = λ t force. answer tt;
  delete_transaction = λ t. answer tt;
  get_backend = λ k t. answer (record {
    name = k;
    algorithm = "roundrobin";
    mode = "tcp";
    adv_check = "";
    httpchk_params = none;
  });
  create_backend = λ d t. fails "the backend is there already";
  replace_backend = λ k d t. answer tt;
  delete_backend = λ k t w. answer tt (write k [] w);
  get_servers = λ k t w. answer (some (map data_of (w.entries k))) w;
  create_server = λ k d t. add_entry k d d.port;
  replace_server = λ k n d t. answer tt;
  delete_server = λ k n t w. answer tt (write k (drop_entry n (w.entries k)) w);
  get_frontend = λ k t. fails "getFrontendNotFound";
  create_frontend = λ d t. answer tt;
  replace_frontend = λ k d t. answer tt;
  delete_frontend = λ k t. answer tt;
  get_bind = λ k f t. fails "getBindNotFound";
  create_bind = λ f d t. answer tt;
  replace_bind = λ k f d t. answer tt;
}

read_entries : (es : List Entry) → read_servers (map data_of es) ≡ some (map member_at_entry es)
unfolding read_servers
read_entries [] = refl
read_entries (e ∷ es) = ap (add_server (data_of e) (some e.port)) (read_entries es)

map-append :
    (es : List Entry) (e : Entry)
    → map member_at_entry (es ++ e ∷ []) ≡ map member_at_entry es ++ member_at_entry e ∷ []
map-append [] e = refl
map-append (x ∷ es) e = ap (λ l. member_at_entry x ∷ l) (map-append es e)

map-drop_entry :
    (n : String) (es : List Entry)
    → map member_at_entry (drop_entry n es) ≡ drop_named n (map member_at_entry es)
unfolding drop_named
map-drop_entry n [] = refl
map-drop_entry n (e ∷ es) = elim (Bool-cases (e.name == n)) [
  | inl h ↦ rw h (map-drop_entry n es)
  | inr h ↦ rw h (ap (λ l. member_at_entry e ∷ l) (map-drop_entry n es))
]

written : (k : String) (es : List Entry) (w : Ledger) → (write k es w).entries k ≡ es
written k es w = ground arith

added :
    (k : String) (m : PoolMember) (d : ServerData) (o : Option ℤ) (w : Ledger)
    → used (members k w) m.node.name ≡ false
    → d.name ≡ m.node.name
    → d.address ≡ m.node.host
    → o ≡ some m.port
    → let r = add_entry k d o w in
      (r.0.error ≡ none) × (members k r.1 ≡ members k w ++ plain m ∷ [])
added k m d none w fresh a b c = absurd cc
added k m d (some port) w fresh a b c =
    let entry : Entry = record { name = d.name; address = d.address; port = port } in
    let new : used (members k w) d.name ≡ false = ap (used (members k w)) a ∙ fresh in
    let number : port ≡ m.port = some-injective port m.port c in
    let same : member_at_entry entry ≡ plain m =
      λ i. record { node = record { name = a i; host = b i; labels = none }; port = number i } in
    rw new (
      refl,
      ap (map member_at_entry) (written k (w.entries k ++ entry ∷ []) w)
          ∙ map-append (w.entries k) entry
          ∙ ap (λ x. members k w ++ x ∷ []) same,
    )

refused :
    (k : String) (d : ServerData) (o : Option ℤ) (w : Ledger)
    → used (members k w) d.name ≡ true
    → (e : String) × ((add_entry k d o w).0.error ≡ some e)
refused k d none w h = (_, refl)
refused k d (some port) w h = rw h ("the server is there already", refl)

pub plane-Book : Book plane members
plane-Book = record {
  get_backend = λ k t w. (_, refl, refl);
  get_servers = λ k t w. (map data_of (w.entries k), read_entries (w.entries k), refl);
  replace_backend = λ k d t w. (refl, refl);
  replace_server = λ k m d t w there reads. (refl, refl);
  create_server =
      λ k m d t w fresh reads. let (a, b, c) = reads in added k m d d.port w fresh a b c;
  create_used = λ k d t w there. refused k d d.port w there;
  delete_server = λ k n t w there. (
    refl,
    ap (map member_at_entry) (written k (drop_entry n (w.entries k)) w)
        ∙ map-drop_entry n (w.entries k),
  );
}

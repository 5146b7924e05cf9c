-- ===== src/Providers/Haproxy/Servers.antt =====
-- The servers of a pool at the HAProxy provider: what `GetPoolMembers` reads back, and what
-- `EditPool` makes of an unreadable or an outdated list.
use lbconfig_operator.Base.{
  String, ℤ, Bool, false, ◌||◌, ◌==◌, string_eq, ◌≡◌, refl, ap, sym, subst, ◌∙◌, Option, none, some,
  List, [], ◌∷◌, ◌++◌, ok, panic,
}
use lbconfig_operator.Api.{Pool, PoolMember}
use lbconfig_operator.Providers.{Cell, Call}
use lbconfig_operator.Providers.Haproxy.{HaproxyProvider, ServerData, DataPlane}
use lbconfig_operator.Providers.Haproxy.Session.{tx, checked, expect}
use lbconfig_operator.Providers.Haproxy.Objects.{
  backend_data, server_data, member_of, add_server, read_servers, with_members, get_pool_members,
  create_pool_member, enable_members, edit_pool,
}

abbrev appended : Option (List PoolMember) → PoolMember → Option (List PoolMember)
appended none m = none
appended (some ms) m = some (ms ++ m ∷ [])

add_server-appended :
    (d : ServerData) (o : Option ℤ) (r : Option (List PoolMember)) (m : PoolMember)
    → add_server d o (appended r m) ≡ appended (add_server d o r) m
add_server-appended d none r m = refl
add_server-appended d (some port) none m = refl
add_server-appended d (some port) (some ms) m = refl

read_servers-append :
    (ds : List ServerData) (d : ServerData) (port : ℤ)
    → d.port ≡ some port
    → read_servers (ds ++ d ∷ []) ≡ appended (read_servers ds) (member_of d port)
unfolding read_servers
read_servers-append [] d port h = ap (λ o. add_server d o (some [])) h
read_servers-append (c ∷ ds) d port h =
    ap (add_server c c.port) (read_servers-append ds d port h)
    ∙ add_server-appended c c.port (read_servers ds) (member_of d port)

-- A server of the list has the name.
abbrev pub serves : List ServerData → String → Bool
serves [] name = false
serves (d ∷ ds) name = d.name == name || serves ds name

module _ {S : Type 0} (self : Cell S HaproxyProvider) (dp : DataPlane S) where
  -- The client lists the servers of a backend, and a created server, whose name is new to the
  -- backend, is listed last.
  pub record ServerLaws (servers : String → S → List ServerData) : Type 0 where
    pub get_servers :
        (k t : String) (s : S)
        → dp.get_servers k t s ≡ (record { value = some (some (servers k s)); error = none }, s)
    pub create_error :
        (k t : String) (d : ServerData) (s : S)
        → serves (servers k s) d.name ≡ false
        → (dp.create_server k d t s).0.error ≡ none
    pub create_server :
        (k t : String) (d : ServerData) (s : S)
        → serves (servers k s) d.name ≡ false
        → servers k (dp.create_server k d t s).1 ≡ servers k s ++ d ∷ []

  checked-ok :
      (text : String → String) (o : Option String) (v : Option (Unit {0})) (s : S)
      → o ≡ none
      → checked self dp text (record { value = v; error = o }, s) ≡ (ok tt, s)
  checked-ok text none v s h = refl
  checked-ok text (some e) v s h = cc

  pub expect-ok :
      (text : String → String) (call : S → Call S (Unit {0})) (s : S)
      → (call s s).0.error ≡ none
      → expect self dp text call s ≡ (ok tt, (call s s).1)
  unfolding expect
  expect-ok text call s h = checked-ok text (call s s).0.error (call s s).0.value (call s s).1 h

  got_members :
      (servers : String → S → List ServerData)
      → ServerLaws servers
      → (p : Pool) (t : S) (ms : List PoolMember) → read_servers (servers p.name t) ≡ some ms
      → get_pool_members self dp p t ≡ (ok (some (record p { members = ms })), t)
  unfolding get_pool_members
  got_members servers laws p t ms h =
      rw (laws.get_servers p.name (tx self dp t) t) (ap (λ o. with_members self dp p o t) h)

  -- On a client that lists the servers of a backend, a created one last, for a pool whose servers
  -- have ports and none of which has the name of the member's node: `CreatePoolMember` succeeds, and `GetPoolMembers` then returns the members
  -- as before, and after them one with the name, the host and the port of the created member.
  pub get_pool_members-create_pool_member :
      (servers : String → S → List ServerData)
      → ServerLaws servers
      → (p : Pool) (m : PoolMember) (ms : List PoolMember) (s : S)
      → read_servers (servers p.name s) ≡ some ms
      → serves (servers p.name s) m.node.name ≡ false
      → let t = (create_pool_member self dp m p s).1 in
        let new : PoolMember = record { node = record m.node { labels = none }; port = m.port } in
        ((create_pool_member self dp m p s).0 ≡ ok tt)
        × (get_pool_members self dp p t ≡ (ok (some (record p { members = ms ++ new ∷ [] })), t))
  unfolding create_pool_member
  get_pool_members-create_pool_member servers laws p m ms s h new =
      let d = server_data (self.get s) "" m in
      let t = (dp.create_server p.name d (tx self dp s) s).1 in
      let made : create_pool_member self dp m p s ≡ (ok tt, t) =
        expect-ok _ (λ s. dp.create_server p.name (server_data (self.get s) "" m) (tx self dp s)) s
          (laws.create_error p.name (tx self dp s) d s new) in
      let listed : read_servers (servers p.name t) ≡ appended (some ms) (member_of d m.port) =
        ap read_servers (laws.create_server p.name (tx self dp s) d s new)
        ∙ read_servers-append (servers p.name s) d m.port refl
        ∙ ap (λ o. appended o (member_of d m.port)) h in
      let q : Pool = record p { members = ms ++ member_of d m.port ∷ [] } in
      subst (λ r. (r.0 ≡ ok tt) × (get_pool_members self dp p r.1 ≡ (ok (some q), r.1))) (sym made)
        (refl, got_members servers laws p t _ listed)

  -- If the backend is replaced and its servers cannot be read, `EditPool` panics.
  edit_pool-panic :
      (p : Pool) (s t u : S) (unit : Unit {0}) (o : Option (Option (List ServerData))) (e : String)
      → dp.replace_backend p.name (backend_data (self.get s) p) (tx self dp s) s
        ≡ (record { value = some unit; error = none }, t)
      → dp.get_servers p.name (tx self dp t) t ≡ (record { value = o; error = some e }, u)
      → (edit_pool self dp p s).0 ≡ panic
  unfolding edit_pool get_pool_members
  edit_pool-panic p s t u unit o e a b = rw (a, b) refl

  -- If the backend is replaced, its servers are read, and each of them is enabled, `EditPool`
  -- succeeds, and the caller's pool then has the members that were read in place of its own.
  edit_pool-read :
      (p : Pool) (s t u v : S) (unit : Unit {0}) (ds : List ServerData) (ms : List PoolMember)
      → dp.replace_backend p.name (backend_data (self.get s) p) (tx self dp s) s
        ≡ (record { value = some unit; error = none }, t)
      → dp.get_servers p.name (tx self dp t) t
        ≡ (record { value = some (some ds); error = none }, u)
      → read_servers ds ≡ some ms
      → enable_members self dp (record p { members = ms }) ms u ≡ (ok tt, v)
      → edit_pool self dp p s ≡ (ok (record p { members = ms }), v)
  unfolding edit_pool get_pool_members
  edit_pool-read p s t u v unit ds ms a b c d = rw (a, b, c, d) refl

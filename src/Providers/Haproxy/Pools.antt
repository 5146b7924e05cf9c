-- ===== src/Providers/Haproxy/Pools.antt =====
-- `HandlePool` over the HAProxy provider, on a data plane that keeps servers under their names.
use lbconfig_operator.Base.{
  String, ◌≡◌, refl, sym, ap, subst, ◌∙◌, Option, none, some, List, [], ◌∷◌, ◌++◌, map, ok, err,
  Error, Action, inl, inr, string_eq, Bool-cases, ◌==◌,
}
use lbconfig_operator.Api.{Pool, PoolMember}
use lbconfig_operator.Backend.Handle.{
  contains_member, missing, update_pool_monitor, update_pool, handle_found_pool, handle_pool,
}
use lbconfig_operator.Backend.Members.{NodupMembers, remove_members}
use lbconfig_operator.Backend.MemberSync.{contains_member-synced, added-Nodup}
use lbconfig_operator.Providers.{Cell}
use lbconfig_operator.Providers.Haproxy.{HaproxyProvider, DataPlane}
use lbconfig_operator.Providers.Haproxy.Session.{tx, look_up}
use lbconfig_operator.Providers.Haproxy.Objects.{
  haproxy, backend_data, get_pool, edit_pool, get_pool_members, enable_members, replaced,
  with_members,
}
use lbconfig_operator.Providers.Haproxy.Names.{
  plain, plain_same, NodupNames, AllElem, AllElem-refl, AllFresh, AnyUsed, missing-NodupNames,
  missing-AllElem, added-NodupNames, added-AllElem,
}
use lbconfig_operator.Providers.Haproxy.Book.{
  Book, Leaves, edit-Leaves, create_all, delete_all, create_clash,
}

module _ {S : Type 0} (self : Cell S HaproxyProvider) (dp : DataPlane S)
    (members : String → S → List PoolMember) (book : Book dp members) where
  enable_all :
      (p : Pool) (ms : List PoolMember) (s : S)
      → AllElem ms (members p.name s)
      → Leaves self dp members book (enable_members self dp p ms) s tt p.name (members p.name s)
  unfolding enable_members
  enable_all p [] s all = (s, refl, refl)
  enable_all p (m ∷ ms) s (here, all) =
      let (t, e, h) = edit-Leaves self dp members book p m "enable" s here in
      let (u, e2, h2) = enable_all p ms t (rw h all) in (u, rw (e, e2) refl, h2 ∙ h)

  read_pool :
      (p : Pool) (s : S)
      → get_pool_members self dp p s ≡ (ok (some (record p { members = members p.name s })), s)
  unfolding get_pool_members
  read_pool p s =
      let (ds, read, e) = book.get_servers p.name (tx self dp s) s in
      rw e (ap (λ o. with_members self dp p o s) read)

  -- `EditPool` succeeds, and leaves the members as they are.
  replaced-Leaves :
      (p : Pool) (o : Option String) (v : Option (Unit {0})) (s : S)
      → o ≡ none
      → (x : Pool) × (x.name ≡ p.name)
        × (t : S) × (replaced self dp p (record { value = v; error = o }, s) ≡ (ok x, t))
        × (members p.name t ≡ members p.name s)
  replaced-Leaves p (some e) v s h = absurd cc
  replaced-Leaves p none none s h = (p, refl, s, refl, refl)
  replaced-Leaves p none (some u) s h =
      let ms = members p.name s in
      let x : Pool = record p { members = ms } in
      let (t, e, now) = enable_all x ms s (AllElem-refl ms) in
      (x, refl, t, rw (read_pool p s, e) refl, now)

  -- The caller's pool keeps its name, and the servers stay as they are.
  record Edited (m : Action S Pool) (p : Pool) (s : S) : Type 0 where
    pool : Pool
    name : pool.name ≡ p.name
    after : S
    returns : m s ≡ (ok pool, after)
    same : members p.name after ≡ members p.name s

  edit_pool-Edited : (p : Pool) (s : S) → Edited (edit_pool self dp p) p s
  unfolding edit_pool
  edit_pool-Edited p s =
      let d = backend_data (self.get s) p in
      let r = dp.replace_backend p.name d (tx self dp s) s in
      let (fine, now) = book.replace_backend p.name d (tx self dp s) s in
      let (x, named, t, e, kept) = replaced-Leaves p r.0.error r.0.value r.1 fine in
      record { pool = x; name = named; after = t; returns = e; same = kept ∙ now }

  update_monitor-Edited :
      (p q : Pool) (s : S) → Edited (update_pool_monitor (haproxy self dp) p q) p s
  unfolding update_pool_monitor haproxy
  update_monitor-Edited p q s = elim (Bool-cases (p.monitor == q.monitor)) [
    | inl e ↦ rw e (record { pool = p; name = refl; after = s; returns = refl; same = refl })
    | inr e ↦ rw e (edit_pool-Edited p s)
  ]

  -- `HandlePool` reads the backend and its servers, and updates the pool.
  handle_pool-reads :
      (p : Pool) (s : S)
      → (q : Pool) × (q.members ≡ members p.name s)
        × (handle_pool (haproxy self dp) p s ≡ update_pool (haproxy self dp) p (some q) s)
  unfolding handle_pool handle_found_pool haproxy get_pool look_up
  handle_pool-reads p s =
      let (d, named, e) = book.get_backend p.name (tx self dp s) s in
      let q : Pool = record { name = d.name; members = []; monitor = "changed" } in
      (
        record q { members = members d.name s },
        ap (λ k. members k s) named,
        rw (e, read_pool q s) refl,
      )

  update_pool-Leaves :
      (p q : Pool) (s : S)
      → NodupMembers p.members
      → NodupNames q.members
      → NodupMembers q.members
      → AllFresh (missing p.members q.members) q.members
      → members p.name s ≡ q.members
      → (x : Pool) × Leaves self dp members book
          (update_pool (haproxy self dp) p (some q))
          s
          x
          p.name
          (remove_members
            (missing q.members p.members)
            (q.members ++ map plain (missing p.members q.members)))
  unfolding update_pool haproxy
  update_pool-Leaves p q s want names have fresh at =
      let edited = update_monitor-Edited p q s in
      let x = edited.pool in
      let add = missing p.members q.members in
      let del = missing q.members p.members in
      let now : members x.name edited.after ≡ q.members =
        ap (λ k. members k edited.after) edited.name ∙ edited.same ∙ at in
      let (t, e, h) = create_all self dp members book x add q.members edited.after now fresh in
      let (u, e2, h2) =
        delete_all self dp members book x del (q.members ++ map plain add) t h
          (added-NodupNames add q.members fresh names)
          (added-Nodup plain plain_same p.members q.members want have)
          (missing-NodupNames q.members p.members names)
          (added-AllElem add del q.members (missing-AllElem q.members p.members)) in
      let left : Leaves self dp members book (update_pool (haproxy self dp) p (some q)) s x p.name
          _ =
        (u, rw (edited.returns, e, e2) refl, ap (λ k. members k u) (sym edited.name) ∙ h2) in
      (x, left)

  -- On a data plane that keeps the servers of each backend under their names, `HandlePool` over the
  -- HAProxy provider succeeds for a pool of distinct members whose backend is there, with servers of
  -- which no two have one name or one address and port, if the members that the backend lacks have
  -- names that are new to it and distinct. The backend then has exactly the pool's members, by host
  -- and port.
  pub handle_pool-haproxy :
      (p : Pool) (s : S)
      → NodupMembers p.members
      → NodupNames (members p.name s)
      → NodupMembers (members p.name s)
      → AllFresh (missing p.members (members p.name s)) (members p.name s)
      → (x : Pool) × (t : S) × (handle_pool (haproxy self dp) p s ≡ (ok x, t))
        × ((m : PoolMember) → contains_member (members p.name t) m ≡ contains_member p.members m)
  handle_pool-haproxy p s want names have fresh =
      let (q, read, e) = handle_pool-reads p s in
      let (x, left) =
        update_pool-Leaves p q s want (subst NodupNames (sym read) names)
          (subst NodupMembers (sym read) have)
          (subst (λ l. AllFresh (missing p.members l) l) (sym read) fresh) (sym read) in
      let (t, e2, h) = left in
      (
        x,
        t,
        e ∙ e2,
        λ m.
            ap (λ l. contains_member l m) h
            ∙ contains_member-synced plain plain_same p.members q.members m,
      )

  update_clash :
      (p q : Pool) (s : S)
      → members p.name s ≡ q.members
      → AnyUsed (missing p.members q.members) q.members
      → (e : Error) × ((update_pool (haproxy self dp) p (some q) s).0 ≡ err e)
  unfolding update_pool haproxy
  update_clash p q s at clash =
      let edited = update_monitor-Edited p q s in
      let x = edited.pool in
      let now : members x.name edited.after ≡ q.members =
        ap (λ k. members k edited.after) edited.name ∙ edited.same ∙ at in
      let (e, failed) =
        create_clash self dp members book x (missing p.members q.members) edited.after
          (subst (AnyUsed (missing p.members q.members)) (sym now) clash) in
      (e, rw (edited.returns, failed) refl)

  -- If a member that the backend lacks has the name of one of its servers, as a node does whose
  -- address has changed, `HandlePool` returns an error: the new server is created before the old one
  -- is deleted.
  pub handle_pool-clash :
      (p : Pool) (s : S)
      → AnyUsed (missing p.members (members p.name s)) (members p.name s)
      → (e : Error) × ((handle_pool (haproxy self dp) p s).0 ≡ err e)
  handle_pool-clash p s clash =
      let (q, read, e) = handle_pool-reads p s in
      let (x, failed) =
        update_clash p q s (sym read)
          (subst (λ l. AnyUsed (missing p.members l) l) (sym read) clash) in
      (x, ap (λ r. r.0) e ∙ failed)

-- ===== src/Providers/Haproxy/Book.antt =====
-- A data plane that keeps the servers of each backend under their names, and what the loops of
-- `HandlePool` and of `EditPool` do to them.
use lbconfig_operator.Base.{
  String, ◌≢◌, ◌≡◌, refl, sym, ap, subst, ◌∙◌, true, false, Option, none, some, List, [], ◌∷◌, ◌++◌,
  map, Outcome, ok, err, Error, Action, ◌>>=◌, resume, for_each, inl, inr, string_eq, Bool-cases,
  ◌==◌, if◌then◌else◌,
}
use mathlib.Core.List.{append-nil, append_assoc}
use lbconfig_operator.Api.{Pool, PoolMember}
use lbconfig_operator.Backend.Members.{NodupMembers, remove_member, remove_members}
use lbconfig_operator.Backend.MemberSync.{remove_member-Nodup}
use lbconfig_operator.Providers.{Cell}
use lbconfig_operator.Providers.Haproxy.{HaproxyProvider, BackendData, ServerData, DataPlane}
use lbconfig_operator.Providers.Haproxy.Session.{tx, checked, expect}
use lbconfig_operator.Providers.Haproxy.Servers.{expect-ok}
use lbconfig_operator.Providers.Haproxy.Objects.{
  server_data, read_servers, create_pool_member, edit_pool_member, delete_pool_member,
}
use lbconfig_operator.Providers.Haproxy.Names.{
  plain, used, drop_named, NodupNames, Elem, AllElem, AllFresh, AnyUsed, AllFresh-add, AnyUsed-add,
  Elem-used, drop_named-remove, drop_named-NodupNames, AllElem-drop,
}

-- The data of a server that reads as the member.
abbrev pub Reads : ServerData → PoolMember → Type 0
Reads d m = (d.name ≡ m.node.name) × (d.address ≡ m.node.host) × (d.port ≡ some m.port)

-- `members k` is what `GetPoolMembers` reads of the backend `k`, which is there. A created server
-- is listed last, if its name is new; a server that is replaced by its own data reads as before.
pub record Book {S : Type 0} (dp : DataPlane S) (members : String → S → List PoolMember)
    : Type 0 where
  pub get_backend :
      (k t : String) (s : S)
      → (d : BackendData) × (d.name ≡ k)
        × (dp.get_backend k t s ≡ (record { value = some d; error = none }, s))
  pub get_servers :
      (k t : String) (s : S)
      → (ds : List ServerData) × (read_servers ds ≡ some (members k s))
        × (dp.get_servers k t s ≡ (record { value = some (some ds); error = none }, s))
  pub replace_backend :
      (k : String) (d : BackendData) (t : String) (s : S)
      → let r = dp.replace_backend k d t s in (r.0.error ≡ none) × (members k r.1 ≡ members k s)
  pub replace_server :
      (k : String) (m : PoolMember) (d : ServerData) (t : String) (s : S)
      → Elem m (members k s)
      → Reads d m
      → let r = dp.replace_server k m.node.name d t s in
        (r.0.error ≡ none) × (members k r.1 ≡ members k s)
  pub create_server :
      (k : String) (m : PoolMember) (d : ServerData) (t : String) (s : S)
      → used (members k s) m.node.name ≡ false
      → Reads d m
      → let r = dp.create_server k d t s in
        (r.0.error ≡ none) × (members k r.1 ≡ members k s ++ plain m ∷ [])
  pub create_used :
      (k : String) (d : ServerData) (t : String) (s : S)
      → used (members k s) d.name ≡ true
      → (e : String) × ((dp.create_server k d t s).0.error ≡ some e)
  pub delete_server :
      (k n t : String) (s : S)
      → used (members k s) n ≡ true
      → let r = dp.delete_server k n t s in
        (r.0.error ≡ none) × (members k r.1 ≡ drop_named n (members k s))

true-ne-false : true ≢ false
true-ne-false h = cc

module _ {S : Type 0} (self : Cell S HaproxyProvider) (dp : DataPlane S)
    (members : String → S → List PoolMember) (book : Book dp members) where
  -- The call succeeds, and the backend then has these members.
  abbrev pub Leaves : {A : Type 0} → Action S A → S → A → String → List PoolMember → Type 0
  Leaves m s a k ms = (t : S) × (m s ≡ (ok a, t)) × (members k t ≡ ms)

  pub Leaves-bind :
      {A B : Type 0} (m : Action S A) (f : A → Action S B) (s : S) (a : A) (b : B) (k : String)
      (ms ns : List PoolMember)
      → Leaves m s a k ms
      → ((t : S) → members k t ≡ ms → Leaves (f a) t b k ns)
      → Leaves (m >>= f) s b k ns
  Leaves-bind m f s a b k ms ns (t, e, h) next = let (u, e2, h2) = next t h in (u, rw e e2, h2)

  pub create-Leaves :
      (p : Pool) (m : PoolMember) (s : S)
      → used (members p.name s) m.node.name ≡ false
      → Leaves (create_pool_member self dp m p) s tt p.name (members p.name s ++ plain m ∷ [])
  unfolding create_pool_member
  create-Leaves p m s fresh =
      let d = server_data (self.get s) "" m in
      let (fine, now) = book.create_server p.name m d (tx self dp s) s fresh (refl, refl, refl) in
      (
        _,
        expect-ok self dp _
            (λ u. dp.create_server p.name (server_data (self.get u) "" m) (tx self dp u)) s fine,
        now,
      )

  pub delete-Leaves :
      (p : Pool) (m : PoolMember) (s : S)
      → used (members p.name s) m.node.name ≡ true
      → Leaves
          (delete_pool_member self dp m p)
          s
          tt
          p.name
          (drop_named m.node.name (members p.name s))
  unfolding delete_pool_member
  delete-Leaves p m s there =
      let (fine, now) = book.delete_server p.name m.node.name (tx self dp s) s there in
      (_, expect-ok self dp _ (λ u. dp.delete_server p.name m.node.name (tx self dp u)) s fine, now)

  pub edit-Leaves :
      (p : Pool) (m : PoolMember) (status : String) (s : S)
      → Elem m (members p.name s)
      → Leaves (edit_pool_member self dp m p status) s tt p.name (members p.name s)
  unfolding edit_pool_member
  edit-Leaves p m status s there =
      let maintenance = if status == "enable" then "disabled" else "enabled" in
      let d = server_data (self.get s) maintenance m in
      let (fine, now) = book.replace_server p.name m d (tx self dp s) s there (refl, refl, refl) in
      (
        _,
        expect-ok self dp _
            (λ u.
              dp.replace_server p.name m.node.name (server_data (self.get u) maintenance m)
                (tx self dp u))
            s fine,
        now,
      )

  pub create_all :
      (p : Pool) (add have : List PoolMember) (s : S)
      → members p.name s ≡ have
      → AllFresh add have
      → Leaves
          (for_each (λ m. create_pool_member self dp m p) add)
          s
          tt
          p.name
          (have ++ map plain add)
  unfolding for_each
  create_all p [] have s h fresh = (s, refl, h ∙ sym (append-nil have))
  create_all p (m ∷ add) have s h (new, alone, fresh) =
      let next = have ++ plain m ∷ [] in
      let (t, e, now) = create-Leaves p m s (rw h new) in
      subst (Leaves (for_each (λ m. create_pool_member self dp m p) (m ∷ add)) s tt p.name)
        (append_assoc have (plain m ∷ []) (map plain add))
        (Leaves-bind (create_pool_member self dp m p) _ s tt tt p.name next _
          (t, e, now ∙ ap (λ x. x ++ plain m ∷ []) h)
          λ u g. create_all p add next u g (AllFresh-add add have m alone fresh))

  pub delete_all :
      (p : Pool) (del have : List PoolMember) (s : S)
      → members p.name s ≡ have
      → NodupNames have
      → NodupMembers have
      → NodupNames del
      → AllElem del have
      → Leaves
          (for_each (λ m. delete_pool_member self dp m p) del)
          s
          tt
          p.name
          (remove_members del have)
  unfolding for_each remove_members
  delete_all p [] have s h u v w all = (s, refl, h)
  delete_all p (d ∷ del) have s h u v (alone, w) (here, all) =
      let same = drop_named-remove d have u v here in
      let next = remove_member d have in
      let (t, e, now) = delete-Leaves p d s (rw h (Elem-used d have here)) in
      Leaves-bind (delete_pool_member self dp d p) _ s tt tt p.name next _
        (t, e, now ∙ ap (drop_named d.node.name) h ∙ same)
        λ x g.
          delete_all p del next x g
            (subst NodupNames same (drop_named-NodupNames d.node.name have u))
            (remove_member-Nodup d have v) w
            (subst (AllElem del) same (AllElem-drop del have d.node.name alone all))

  checked-fails :
      (text : String → String) (o : Option String) (v : Option (Unit {0})) (s : S) (e : String)
      → o ≡ some e
      → (x : Error) × ((checked self dp text (record { value = v; error = o }, s)).0 ≡ err x)
  checked-fails text none v s e h = absurd cc
  checked-fails text (some x) v s e h = (_, refl)

  create-fails :
      (p : Pool) (m : PoolMember) (s : S)
      → used (members p.name s) m.node.name ≡ true
      → (e : Error) × ((create_pool_member self dp m p s).0 ≡ err e)
  unfolding create_pool_member expect
  create-fails p m s there =
      let d = server_data (self.get s) "" m in
      let r = dp.create_server p.name d (tx self dp s) s in
      let (e, h) = book.create_used p.name d (tx self dp s) s there in
      checked-fails _ r.0.error r.0.value r.1 e h

  resumed-fails :
      {A B : Type 0} (r : Outcome A × S) (f : A → Action S B) (e : Error)
      → r.0 ≡ err e
      → (resume r.0 f r.1).0 ≡ err e
  resumed-fails r f e h = rw h refl

  -- If one of the names is in use, the loop stops at an error.
  pub create_clash :
      (p : Pool) (add : List PoolMember) (s : S)
      → AnyUsed add (members p.name s)
      → (e : Error) × ((for_each (λ m. create_pool_member self dp m p) add s).0 ≡ err e)
  unfolding for_each
  create_clash p [] s h = elim h [ ]
  create_clash p (m ∷ add) s h = elim (Bool-cases (used (members p.name s) m.node.name)) [
    | inl there ↦
        let (e, failed) = create-fails p m s there in
        (e, resumed-fails (create_pool_member self dp m p s) _ e failed)
    | inr new ↦
        let (t, done, now) = create-Leaves p m s new in
        let (e, failed) =
          create_clash p add t (rw now (AnyUsed-add add (members p.name s) m (later h new))) in
        (e, rw done failed)
  ]
    where
      later :
          AnyUsed (m ∷ add) (members p.name s)
          → used (members p.name s) m.node.name ≡ false
          → AnyUsed add (members p.name s)
      later (inl a) b = absurd (true-ne-false (sym a ∙ b))
      later (inr a) b = a

-- ===== src/Providers/Haproxy/Transaction.antt =====
-- The HAProxy provider on a data plane whose running configuration only a commit changes.
use lbconfig_operator.Base.{
  String, ℤ, Bool, ◌≡◌, refl, ◌∙◌, Option, none, some, List, [], ◌∷◌, string_eq, Outcome, ok, err,
  panic, pure, Bool-cases, Option-cases, inl, inr,
}
use lbconfig_operator.Base.Keeps.{Keeps, Keeps-seq, Keeps-bind}
use lbconfig_operator.Api.{Pool, PoolMember, Vip}
use lbconfig_operator.Providers.{Cell, Call}
use lbconfig_operator.Providers.Haproxy.{
  HaproxyProvider, BackendData, ServerData, FrontendData, BindData, DataPlane, has_text,
}
use lbconfig_operator.Providers.Haproxy.Session.{tx, close_error, expect, checked, look_up, looked}
use lbconfig_operator.Providers.Haproxy.Objects.{
  backend_data, get_pool, edit_pool, get_pool_members, edit_pool_member, get_vip, enable_members,
  read_servers, with_members, members_of, got_servers, edit_members, replaced, bound, read_bind,
  re_abort,
}

-- The calls of the client leave the running configuration, since a write that names no version of
-- it is staged in a transaction or refused, and so does a commit that fails and a
-- write of the provider's object.
pub record Staged {S D : Type 0} (live : S → D) (self : Cell S HaproxyProvider) (dp : DataPlane S)
    : Type 0 where
  pub set : (p : HaproxyProvider) (s : S) → live (self.set p s) ≡ live s
  pub get_sites : (s : S) → live (dp.get_sites s).1 ≡ live s
  pub start_transaction : (v : ℤ) (s : S) → live (dp.start_transaction v s).1 ≡ live s
  pub commit_fails :
      (t : String) (f : Bool) (e : String) (s : S)
      → (dp.commit_transaction t f s).0.error ≡ some e
      → live (dp.commit_transaction t f s).1 ≡ live s
  pub delete_transaction : (t : String) (s : S) → live (dp.delete_transaction t s).1 ≡ live s
  pub get_backend : (k t : String) (s : S) → live (dp.get_backend k t s).1 ≡ live s
  pub create_backend :
      (d : BackendData) (t : String) (s : S) → live (dp.create_backend d t s).1 ≡ live s
  pub replace_backend :
      (k : String) (d : BackendData) (t : String) (s : S)
      → live (dp.replace_backend k d t s).1 ≡ live s
  pub delete_backend : (k t : String) (s : S) → live (dp.delete_backend k t s).1 ≡ live s
  pub get_servers : (k t : String) (s : S) → live (dp.get_servers k t s).1 ≡ live s
  pub create_server :
      (k : String) (d : ServerData) (t : String) (s : S)
      → live (dp.create_server k d t s).1 ≡ live s
  pub replace_server :
      (k n : String) (d : ServerData) (t : String) (s : S)
      → live (dp.replace_server k n d t s).1 ≡ live s
  pub delete_server : (k n t : String) (s : S) → live (dp.delete_server k n t s).1 ≡ live s
  pub get_frontend : (k t : String) (s : S) → live (dp.get_frontend k t s).1 ≡ live s
  pub create_frontend :
      (d : FrontendData) (t : String) (s : S) → live (dp.create_frontend d t s).1 ≡ live s
  pub replace_frontend :
      (k : String) (d : FrontendData) (t : String) (s : S)
      → live (dp.replace_frontend k d t s).1 ≡ live s
  pub delete_frontend : (k t : String) (s : S) → live (dp.delete_frontend k t s).1 ≡ live s
  pub get_bind : (k f t : String) (s : S) → live (dp.get_bind k f t s).1 ≡ live s
  pub create_bind :
      (f : String) (d : BindData) (t : String) (s : S) → live (dp.create_bind f d t s).1 ≡ live s
  pub replace_bind :
      (k : String) (f : Option String) (d : BindData) (t : String) (s : S)
      → live (dp.replace_bind k f d t s).1 ≡ live s

module _ {S D : Type 0} (live : S → D) (self : Cell S HaproxyProvider) (dp : DataPlane S)
    (staged : Staged live self dp) where
  pub closed : (s : S) → live (close_error self dp s) ≡ live s
  closed s = staged.delete_transaction (tx self dp s) s

  checked-live :
      (text : String → String) (o : Option String) (v : Option (Unit {0})) (s : S)
      → live (checked self dp text (record { value = v; error = o }, s)).1 ≡ live s
  checked-live text none v s = refl
  checked-live text (some e) v s = closed s

  pub expect-Keeps :
      (text : String → String) (call : S → Call S (Unit {0}))
      → ((s : S) → live (call s s).1 ≡ live s)
      → Keeps live (expect self dp text call)
  unfolding expect
  expect-Keeps text call k = record {
    kept = λ s. checked-live text (call s s).0.error (call s s).0.value (call s s).1 ∙ k s;
  }

  looked-live :
      {A : Type 0} (missing : String) (text : String → String) (o : Option String) (v : Option A)
      (s : S)
      → live (looked self dp missing text (record { value = v; error = o }, s)).1 ≡ live s
  looked-live missing text none v s = refl
  looked-live missing text (some e) v s = elim (Bool-cases (has_text e missing)) [
    | inl h ↦ rw h refl
    | inr h ↦ rw h (closed s)
  ]

  look_up-Keeps :
      {A : Type 0} (missing : String) (text : String → String) (call : S → Call S A)
      → ((s : S) → live (call s s).1 ≡ live s)
      → Keeps live (look_up self dp missing text call)
  unfolding look_up
  look_up-Keeps missing text call k = record {
    kept = λ s. looked-live missing text (call s s).0.error (call s s).0.value (call s s).1 ∙ k s;
  }

  pub get_pool-Keeps : (p : Pool) → Keeps live (get_pool self dp p)
  unfolding get_pool
  get_pool-Keeps p =
      Keeps-bind live (look_up self dp _ _ _) _
        (look_up-Keeps _ _ _ (λ s. staged.get_backend p.name (tx self dp s) s))
        λ o s e. record { kept = λ t. refl }

  pub with_members-live :
      (p : Pool) (o : Option (List PoolMember)) (s : S)
      → live (with_members self dp p o s).1 ≡ live s
  with_members-live p none s = refl
  with_members-live p (some ms) s = refl

  members_of-live :
      (p : Pool) (v : Option (Option (List ServerData))) (s : S)
      → live (members_of self dp p v s).1 ≡ live s
  members_of-live p none s = refl
  members_of-live p (some none) s = refl
  members_of-live p (some (some ds)) s = with_members-live p (read_servers ds) s

  got_servers-live :
      (p : Pool) (o : Option String) (v : Option (Option (List ServerData))) (s : S)
      → live (got_servers self dp p (record { value = v; error = o }, s)).1 ≡ live s
  got_servers-live p none v s = members_of-live p v s
  got_servers-live p (some e) v s = closed s

  pub get_pool_members-Keeps : (p : Pool) → Keeps live (get_pool_members self dp p)
  unfolding get_pool_members
  get_pool_members-Keeps p = record {
    kept = λ s.
        let r = dp.get_servers p.name (tx self dp s) s in
        got_servers-live p r.0.error r.0.value r.1 ∙ staged.get_servers p.name (tx self dp s) s;
  }

  edit_pool_member-Keeps :
      (m : PoolMember) (p : Pool) (status : String)
      → Keeps live (edit_pool_member self dp m p status)
  unfolding edit_pool_member
  edit_pool_member-Keeps m p status =
      expect-Keeps _ _ λ s. staged.replace_server p.name m.node.name _ (tx self dp s) s

  re_abort-live :
      {A : Type 0} (text : String → String) (r : Outcome A × S)
      → live (re_abort self dp text r).1 ≡ live r.1
  re_abort-live text (ok a, s) = refl
  re_abort-live text (err e, s) = closed s
  re_abort-live text (panic, s) = refl

  enable_members-Keeps :
      (p : Pool) (ms : List PoolMember) → Keeps live (enable_members self dp p ms)
  unfolding enable_members
  enable_members-Keeps p [] = record { kept = λ s. refl }
  enable_members-Keeps p (m ∷ ms) =
      Keeps-seq live (λ s. re_abort self dp _ (edit_pool_member self dp m p "enable" s))
        (enable_members self dp p ms)
        (record {
          kept = λ s.
              re_abort-live _ (edit_pool_member self dp m p "enable" s)
              ∙ (edit_pool_member-Keeps m p "enable").kept s;
        })
        (enable_members-Keeps p ms)

  edit_members-live :
      (p : Pool) (r : Outcome (Option Pool) × S) → live (edit_members self dp p r).1 ≡ live r.1
  edit_members-live p (err e, s) = closed s
  edit_members-live p (panic, s) = refl
  edit_members-live p (ok none, s) = refl
  edit_members-live p (ok (some q), s) =
      (Keeps-seq live (enable_members self dp q q.members) (pure q)
          (enable_members-Keeps q q.members) (record { kept = λ t. refl })).kept
        s

  replaced-live :
      (p : Pool) (o : Option String) (v : Option (Unit {0})) (s : S)
      → live (replaced self dp p (record { value = v; error = o }, s)).1 ≡ live s
  replaced-live p (some e) v s = closed s
  replaced-live p none none s = refl
  replaced-live p none (some u) s =
      edit_members-live p (get_pool_members self dp p s) ∙ (get_pool_members-Keeps p).kept s

  pub edit_pool-Keeps : (p : Pool) → Keeps live (edit_pool self dp p)
  unfolding edit_pool
  edit_pool-Keeps p = record {
    kept = λ s.
        let r = dp.replace_backend p.name (backend_data (self.get s) p) (tx self dp s) s in
        replaced-live p r.0.error r.0.value r.1
        ∙ staged.replace_backend p.name (backend_data (self.get s) p) (tx self dp s) s;
  }

  bound-live :
      (v : Vip) (f : FrontendData) (o : Option String) (b : Option BindData) (s : S)
      → live (bound self dp v f (record { value = b; error = o }, s)).1 ≡ live s
  bound-live v f (some e) b s = closed s
  bound-live v f none none s = refl
  bound-live v f none (some b) s = elim (Option-cases b.port) [
    | inl h ↦ rw h refl
    | inr (p, h) ↦ rw h refl
  ]

  read_bind-Keeps : (v : Vip) (o : Option FrontendData) → Keeps live (read_bind self dp v o)
  read_bind-Keeps v none = record { kept = λ s. refl }
  read_bind-Keeps v (some f) = record {
    kept = λ s.
        let r = dp.get_bind v.name v.name (tx self dp s) s in
        bound-live v f r.0.error r.0.value r.1 ∙ staged.get_bind v.name v.name (tx self dp s) s;
  }

  pub get_vip-Keeps : (v : Vip) → Keeps live (get_vip self dp v)
  unfolding get_vip
  get_vip-Keeps v =
      Keeps-bind live (look_up self dp _ _ _) (read_bind self dp v)
        (look_up-Keeps _ _ _ (λ s. staged.get_frontend v.name (tx self dp s) s))
        λ o s e. read_bind-Keeps v o

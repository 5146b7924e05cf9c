-- ===== src/Providers/Haproxy/Aborts.antt =====
-- The error paths of the HAProxy provider's calls.
use lbconfig_operator.Base.{
  String, ◌≡◌, refl, Option, none, some, List, [], ◌∷◌, string_eq, Outcome, ok, err, panic, Action,
  pure, ◌>>=◌, resume, Bool-cases, Option-cases, inl, inr,
}
use lbconfig_operator.Api.{Pool, PoolMember, Vip}
use lbconfig_operator.Providers.{Cell, Call}
use lbconfig_operator.Providers.Haproxy.{
  HaproxyProvider, ServerData, FrontendData, BindData, DataPlane, has_text,
}
use lbconfig_operator.Providers.Haproxy.Session.{
  tx, close_error, expect, checked, look_up, looked, close,
}
use lbconfig_operator.Providers.Haproxy.Objects.{
  haproxy, backend_data, get_pool, create_pool, edit_pool, delete_pool, get_pool_members,
  create_pool_member, edit_pool_member, delete_pool_member, get_vip, create_vip, edit_vip,
  delete_vip, enable_members, read_servers, with_members, members_of, got_servers, edit_members,
  replaced, bound, read_bind, re_abort,
}

module _ {S : Type 0} (self : Cell S HaproxyProvider) (dp : DataPlane S) where
  -- An outcome with an error comes from a state that `CloseError` left.
  abbrev Closed : {A : Type 0} → Outcome A × S → Type 0
  Closed (ok a, s) = Unit
  Closed (err e, s) = (t : S) × (s ≡ close_error self dp t)
  Closed (panic, s) = Unit

  -- If the call returns an error, the last thing that it did was `CloseError`.
  pub record Aborts {A : Type 0} (m : Action S A) : Type 0 where
    pub closed : (s : S) → Closed (m s)

  Closed-resume :
      {A B : Type 0} (r : Outcome A × S) (f : A → Action S B)
      → Closed r
      → ((a : A) → Aborts (f a))
      → Closed (resume r.0 f r.1)
  Closed-resume (ok a, s) f h k = (k a).closed s
  Closed-resume (err e, s) f h k = h
  Closed-resume (panic, s) f h k = tt

  Aborts-bind :
      {A B : Type 0} (m : Action S A) (f : A → Action S B)
      → Aborts m
      → ((a : A) → Aborts (f a))
      → Aborts (m >>= f)
  Aborts-bind m f h k = record { closed = λ s. Closed-resume (m s) f (h.closed s) k }

  pure-Aborts : {A : Type 0} (a : A) → Aborts (pure a)
  pure-Aborts a = record { closed = λ s. tt }

  Closed-checked :
      (text : String → String) (o : Option String) (v : Option (Unit {0})) (s : S)
      → Closed (checked self dp text (record { value = v; error = o }, s))
  Closed-checked text none v s = tt
  Closed-checked text (some e) v s = (s, refl)

  expect-Aborts :
      (text : String → String) (call : S → Call S (Unit {0})) → Aborts (expect self dp text call)
  unfolding expect
  expect-Aborts text call = record {
    closed = λ s. Closed-checked text (call s s).0.error (call s s).0.value (call s s).1;
  }

  Closed-looked :
      {A : Type 0} (missing : String) (text : String → String) (o : Option String) (v : Option A)
      (s : S)
      → Closed (looked self dp missing text (record { value = v; error = o }, s))
  Closed-looked missing text none v s = tt
  Closed-looked missing text (some e) v s = elim (Bool-cases (has_text e missing)) [
    | inl h ↦ rw h tt
    | inr h ↦ rw h (s, refl)
  ]

  look_up-Aborts :
      {A : Type 0} (missing : String) (text : String → String) (call : S → Call S A)
      → Aborts (look_up self dp missing text call)
  unfolding look_up
  look_up-Aborts missing text call = record {
    closed = λ s. Closed-looked missing text (call s s).0.error (call s s).0.value (call s s).1;
  }

  get_pool-Aborts : (p : Pool) → Aborts (get_pool self dp p)
  unfolding get_pool
  get_pool-Aborts p =
      Aborts-bind (look_up self dp _ _ _) _ (look_up-Aborts _ _ _) (λ o. pure-Aborts _)

  with_members-Closed :
      (p : Pool) (o : Option (List PoolMember)) (s : S) → Closed (with_members self dp p o s)
  with_members-Closed p none s = tt
  with_members-Closed p (some ms) s = tt

  members_of-Closed :
      (p : Pool) (v : Option (Option (List ServerData))) (s : S) → Closed (members_of self dp p v s)
  members_of-Closed p none s = tt
  members_of-Closed p (some none) s = tt
  members_of-Closed p (some (some ds)) s = with_members-Closed p (read_servers ds) s

  got_servers-Closed :
      (p : Pool) (o : Option String) (v : Option (Option (List ServerData))) (s : S)
      → Closed (got_servers self dp p (record { value = v; error = o }, s))
  got_servers-Closed p none v s = members_of-Closed p v s
  got_servers-Closed p (some e) v s = (s, refl)

  get_pool_members-Aborts : (p : Pool) → Aborts (get_pool_members self dp p)
  unfolding get_pool_members
  get_pool_members-Aborts p = record {
    closed = λ s.
        let r = dp.get_servers p.name (tx self dp s) s in
        got_servers-Closed p r.0.error r.0.value r.1;
  }

  re_abort-Closed :
      {A : Type 0} (text : String → String) (r : Outcome A × S) → Closed (re_abort self dp text r)
  re_abort-Closed text (ok a, s) = tt
  re_abort-Closed text (err e, s) = (s, refl)
  re_abort-Closed text (panic, s) = tt

  enable_members-Aborts : (p : Pool) (ms : List PoolMember) → Aborts (enable_members self dp p ms)
  unfolding enable_members
  enable_members-Aborts p [] = pure-Aborts tt
  enable_members-Aborts p (m ∷ ms) = record {
    closed = λ s.
        Closed-resume _ _ (re_abort-Closed _ (edit_pool_member self dp m p "enable" s))
          (λ u. enable_members-Aborts p ms);
  }

  edit_members-Closed :
      (p : Pool) (r : Outcome (Option Pool) × S) → Closed (edit_members self dp p r)
  edit_members-Closed p (err e, s) = tt
  edit_members-Closed p (panic, s) = tt
  edit_members-Closed p (ok none, s) = tt
  edit_members-Closed p (ok (some q), s) =
      Closed-resume _ _ ((enable_members-Aborts q q.members).closed s) (λ u. pure-Aborts q)

  replaced-Closed :
      (p : Pool) (o : Option String) (v : Option (Unit {0})) (s : S)
      → Closed (replaced self dp p (record { value = v; error = o }, s))
  replaced-Closed p (some e) v s = (s, refl)
  replaced-Closed p none none s = tt
  replaced-Closed p none (some u) s = edit_members-Closed p (get_pool_members self dp p s)

  edit_pool-Aborts : (p : Pool) → Aborts (edit_pool self dp p)
  unfolding edit_pool
  edit_pool-Aborts p = record {
    closed = λ s.
        let r = dp.replace_backend p.name (backend_data (self.get s) p) (tx self dp s) s in
        replaced-Closed p r.0.error r.0.value r.1;
  }

  bound-Closed :
      (v : Vip) (f : FrontendData) (o : Option String) (b : Option BindData) (s : S)
      → Closed (bound self dp v f (record { value = b; error = o }, s))
  bound-Closed v f (some e) b s = (s, refl)
  bound-Closed v f none none s = tt
  bound-Closed v f none (some b) s = elim (Option-cases b.port) [
    | inl h ↦ rw h tt
    | inr (p, h) ↦ rw h tt
  ]

  read_bind-Aborts : (v : Vip) (o : Option FrontendData) → Aborts (read_bind self dp v o)
  read_bind-Aborts v none = record { closed = λ s. tt }
  read_bind-Aborts v (some f) = record {
    closed = λ s.
        let r = dp.get_bind v.name v.name (tx self dp s) s in
        bound-Closed v f r.0.error r.0.value r.1;
  }

  get_vip-Aborts : (v : Vip) → Aborts (get_vip self dp v)
  unfolding get_vip
  get_vip-Aborts v =
      Aborts-bind (look_up self dp _ _ _) (read_bind self dp v) (look_up-Aborts _ _ _)
        (read_bind-Aborts v)

  -- Whenever a call of the provider on a pool, on a pool's member or on a virtual server, or
  -- `Close`, returns an error, whatever the client answers, the last thing that it did is to delete
  -- the transaction of the provider.
  pub haproxy-Aborts :
      (p : Pool) (m : PoolMember) (v : Vip) (status : String)
      → let b = haproxy self dp in
        Aborts b.close
        × (Aborts (b.get_pool p)
            × Aborts (b.create_pool p)
            × Aborts (b.edit_pool p)
            × Aborts (b.delete_pool p))
        × (Aborts (b.get_pool_members p)
            × Aborts (b.create_pool_member m p)
            × Aborts (b.edit_pool_member m p status)
            × Aborts (b.delete_pool_member m p))
        × (Aborts (b.get_vip v)
            × Aborts (b.create_vip v)
            × Aborts (b.edit_vip v)
            × Aborts (b.delete_vip v))
  unfolding haproxy close create_pool delete_pool create_pool_member edit_pool_member
      delete_pool_member create_vip edit_vip delete_vip
  haproxy-Aborts p m v status = (
    expect-Aborts _ _,
    (get_pool-Aborts p, expect-Aborts _ _, edit_pool-Aborts p, expect-Aborts _ _),
    (get_pool_members-Aborts p, expect-Aborts _ _, expect-Aborts _ _, expect-Aborts _ _),
    (
      get_vip-Aborts v,
      Aborts-bind (expect self dp _ _) (λ u. expect self dp _ _) (expect-Aborts _ _)
          (λ u. expect-Aborts _ _),
      Aborts-bind (expect self dp _ _) (λ u. expect self dp _ _) (expect-Aborts _ _)
          (λ u. expect-Aborts _ _),
      expect-Aborts _ _,
    ),
  )

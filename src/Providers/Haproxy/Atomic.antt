-- ===== src/Providers/Haproxy/Atomic.antt =====
-- The sessions of `Reconcile` with the HAProxy provider: all of a session is committed, or nothing.
use lbconfig_operator.Base.{
  String, ℤ, ◌≡◌, refl, ap, sym, ◌∙◌, Option, none, some, List, string_eq, Outcome, ok, err, panic,
  pure, true,
}
use lbconfig_operator.Base.Keeps.{Keeps, Keeps-seq}
use lbconfig_operator.Base.Ends.{Ends}
use lbconfig_operator.Api.{Node, Pool, PoolMember, ExternalLoadBalancer}
use lbconfig_operator.Backend.Handle.{handle_cleanup}
use lbconfig_operator.Reconcile.Answers.{Answers-bind, Answers-pure}
use lbconfig_operator.Providers.Haproxy.{ServerData}
use lbconfig_operator.Backend.Deletes.{handle_cleanup-Guards}
use lbconfig_operator.Backend.Loops.{All-const}
use lbconfig_operator.Providers.{Cell, Call}
use lbconfig_operator.Providers.Haproxy.{HaproxyProvider, DataPlane}
use lbconfig_operator.Providers.Haproxy.Session.{
  tx, expect, checked, connect, start, open_site, close, set_monitor, delete_monitor, get_monitor,
}
use lbconfig_operator.Providers.Haproxy.Objects.{
  haproxy, backend_data, create_pool, edit_pool, delete_pool, get_pool_members, create_pool_member,
  delete_pool_member, create_vip, edit_vip, delete_vip, enable_members, edit_members, replaced,
  read_servers, with_members, members_of, got_servers,
}
use lbconfig_operator.Providers.Haproxy.Transaction.{
  Staged, closed, expect-Keeps, get_pool-Keeps, get_pool_members-Keeps, edit_pool-Keeps,
  get_vip-Keeps,
}
use lbconfig_operator.Reconcile.{Cluster, metric_key}
use lbconfig_operator.Reconcile.Loop.{configure, finalize_load_balancer}
use lbconfig_operator.Reconcile.Isolated.{OwnCalls}
use lbconfig_operator.Reconcile.Atomic.{
  Transactional, AllOrNothing, configure-atomic, finalize-atomic,
}

ok_some-injective :
    (x y : Pool) → ◌≡◌ {A = Outcome (Option Pool)} (ok (some x)) (ok (some y)) → x ≡ y
ok_some-injective x y h = cc

none-ne-some : (y : Pool) → ◌≡◌ {A = Outcome (Option Pool)} (ok none) (ok (some y)) → ⊥
none-ne-some y h = cc

module _ {S D : Type 0} (live : S → D) (self : Cell S HaproxyProvider) (dp : DataPlane S)
    (staged : Staged live self dp) where
  start-live :
      (o : Option String) (v : Option String) (s : S)
      → live (start self dp (record { value = v; error = o }, s)).1 ≡ live s
  start-live (some e) v s = closed live self dp staged s
  start-live none none s = refl
  start-live none (some id) s = staged.set _ s

  open_site-live :
      (o : Option String) (v : Option ℤ) (s : S)
      → live (open_site self dp (record { value = v; error = o }, s)).1 ≡ live s
  open_site-live (some e) v s = refl
  open_site-live none none s = refl
  open_site-live none (some version) s =
      let s1 = self.set (record (self.get s) { version = version }) s in
      let r = dp.start_transaction version s1 in
      start-live r.0.error r.0.value r.1 ∙ staged.start_transaction version s1 ∙ staged.set _ s

  connect-Keeps : Keeps live (connect self dp)
  unfolding connect
  connect-Keeps = record {
    kept =
        λ s. let r = dp.get_sites s in open_site-live r.0.error r.0.value r.1 ∙ staged.get_sites s;
  }

  checked-Ends :
      (o : Option String) (v : Option (Unit {0})) (s : S) (d : D)
      → ((e : String) → o ≡ some e → live s ≡ d)
      → Ends
          (λ _ _. Unit {0})
          (λ t. live t ≡ d)
          (checked self dp (λ e. e) (record { value = v; error = o }, s))
  checked-Ends none v s d h = tt
  checked-Ends (some e) v s d h = closed live self dp staged s ∙ h e refl

  close-Ends : (s : S) → Ends (λ _ _. Unit {0}) (λ t. live t ≡ live s) (close self dp s)
  unfolding close expect
  close-Ends s =
      let r = dp.commit_transaction (tx self dp s) true s in
      checked-Ends r.0.error r.0.value r.1 (live s)
        (λ e h. staged.commit_fails (tx self dp s) true e s h)

  with_members-name :
      (p q : Pool) (o : Option (List PoolMember)) (s : S)
      → (with_members self dp p o s).0 ≡ ok (some q)
      → q.name ≡ p.name
  with_members-name p q none s h = absurd cc
  with_members-name p q (some ms) s h =
      ap (λ x. x.name) (sym (ok_some-injective (record p { members = ms }) q h))

  members_of-name :
      (p q : Pool) (v : Option (Option (List ServerData))) (s : S)
      → (members_of self dp p v s).0 ≡ ok (some q)
      → q.name ≡ p.name
  members_of-name p q none s h = absurd cc
  members_of-name p q (some none) s h = absurd (none-ne-some q h)
  members_of-name p q (some (some ds)) s h = with_members-name p q (read_servers ds) s h

  got_servers-name :
      (p q : Pool) (o : Option String) (v : Option (Option (List ServerData))) (s : S)
      → (got_servers self dp p (record { value = v; error = o }, s)).0 ≡ ok (some q)
      → q.name ≡ p.name
  got_servers-name p q none v s h = members_of-name p q v s h
  got_servers-name p q (some e) v s h = absurd cc

  edit_members-name :
      (p q : Pool) (r : Outcome (Option Pool) × S)
      → ((x : Pool) → r.0 ≡ ok (some x) → x.name ≡ p.name)
      → (edit_members self dp p r).0 ≡ ok q
      → q.name ≡ p.name
  edit_members-name p q (err e, s) h k = absurd cc
  edit_members-name p q (panic, s) h k = absurd cc
  edit_members-name p q (ok none, s) h k = Answers-pure (λ x. x.name ≡ p.name) p refl s q k
  edit_members-name p q (ok (some x), s) h k =
      Answers-bind (λ y. y.name ≡ p.name) (enable_members self dp x x.members) (λ _. pure x)
        (λ _ _ _. Answers-pure (λ y. y.name ≡ p.name) x (h x refl)) s q k

  replaced-name :
      (p q : Pool) (o : Option String) (v : Option (Unit {0})) (s : S)
      → (replaced self dp p (record { value = v; error = o }, s)).0 ≡ ok q
      → q.name ≡ p.name
  unfolding get_pool_members
  replaced-name p q (some e) v s h = absurd cc
  replaced-name p q none none s h = Answers-pure (λ x. x.name ≡ p.name) p refl s q h
  replaced-name p q none (some u) s h =
      let r = dp.get_servers p.name (tx self dp s) s in
      edit_members-name p q (get_pool_members self dp p s)
        (λ x k. got_servers-name p x r.0.error r.0.value r.1 k) h

  edit_pool-name : (p q : Pool) (s : S) → (edit_pool self dp p s).0 ≡ ok q → q.name ≡ p.name
  unfolding edit_pool
  edit_pool-name p q s h =
      let r = dp.replace_backend p.name (backend_data (self.get s) p) (tx self dp s) s in
      replaced-name p q r.0.error r.0.value r.1 h

  expected :
      (text : String → String) (call : S → Call S (Unit {0}))
      → ((s : S) → live (call s s).1 ≡ live s)
      → Keeps live (expect self dp text call)
  expected = expect-Keeps live self dp staged

  haproxy-OwnCalls : (lb : ExternalLoadBalancer) → OwnCalls live lb (haproxy self dp)
  unfolding haproxy get_monitor set_monitor delete_monitor create_pool delete_pool
      create_pool_member delete_pool_member create_vip edit_vip delete_vip
  haproxy-OwnCalls lb = record {
    get_monitor = λ m. record { kept = λ s. refl };
    create_monitor = λ m own. record { kept = λ s. staged.set _ s };
    edit_monitor = λ m own. record { kept = λ s. staged.set _ s };
    delete_monitor = λ m own. record { kept = λ s. staged.set _ s };
    get_pool = get_pool-Keeps live self dp staged;
    get_pool_members = get_pool_members-Keeps live self dp staged;
    create_pool = λ p own. expected _ _ λ s. staged.create_backend _ _ s;
    edit_pool = λ p own. edit_pool-Keeps live self dp staged p;
    edit_pool_name = edit_pool-name;
    delete_pool = λ p own. expected _ _ λ s. staged.delete_backend _ _ s;
    create_pool_member = λ m p own. expected _ _ λ s. staged.create_server _ _ _ s;
    delete_pool_member = λ m p own. expected _ _ λ s. staged.delete_server _ _ _ s;
    get_vip = get_vip-Keeps live self dp staged;
    create_vip = λ v own.
        Keeps-seq live (expect self dp _ _) (expect self dp _ _)
          (expected _ _ λ s. staged.create_frontend _ _ s)
          (expected _ _ λ s. staged.create_bind _ _ _ s);
    edit_vip = λ v own.
        Keeps-seq live (expect self dp _ _) (expect self dp _ _)
          (expected _ _ λ s. staged.replace_frontend _ _ _ s)
          (expected _ _ λ s. staged.replace_bind _ _ _ _ s);
    delete_vip = λ v own. expected _ _ λ s. staged.delete_frontend _ _ s;
  }

  haproxy-Transactional : (lb : ExternalLoadBalancer) → Transactional live (haproxy self dp) lb
  unfolding haproxy
  haproxy-Transactional lb = record {
    connect = connect-Keeps;
    calls = haproxy-OwnCalls lb;
    close = close-Ends;
  }

  cleanup-Keeps : (x : ExternalLoadBalancer) → Keeps live (handle_cleanup (haproxy self dp) x)
  unfolding haproxy delete_monitor delete_pool delete_pool_member delete_vip
  cleanup-Keeps x = record {
    kept = λ s.
        handle_cleanup-Guards (λ t. live t ≡ live s) (haproxy self dp) x
          (All-const
            (λ v t i. (expected _ _ λ u. staged.delete_frontend v.name (tx self dp u) u).kept t ∙ i)
            x.status.vips)
          (All-const
            (λ p. record {
              delete_pool = λ t i.
                  (expected _ _ λ u. staged.delete_backend p.name (tx self dp u) u).kept t ∙ i;
              delete_pool_member = λ m t i.
                  (expected _ _ λ u. staged.delete_server p.name m.node.name (tx self dp u) u).kept
                    t
                  ∙ i;
            })
            x.status.pools)
          (λ t i. staged.set _ t ∙ i) s refl;
  }

  -- On a data plane whose running configuration only a commit that succeeds changes, a session of
  -- `Reconcile` with the HAProxy provider that does not succeed leaves the running configuration as
  -- it was, whatever error or panic ends it: the one that configures a load balancer, and the one
  -- that cleans it up, where the deletion of the gauge has no error.
  pub haproxy-atomic :
      (c : Cluster S) (lb : ExternalLoadBalancer) (nodes : List Node)
      → ((s : S) → (c.delete_nodes (metric_key lb) s).0 ≡ ok tt)
      → (s : S)
      → AllOrNothing live (haproxy self dp) (configure (haproxy self dp) lb nodes) s
        × AllOrNothing live (haproxy self dp) (finalize_load_balancer c (haproxy self dp) lb) s
  haproxy-atomic c lb nodes gauge s = (
    configure-atomic live (haproxy self dp) lb (haproxy-Transactional lb) nodes s,
    finalize-atomic live (haproxy self dp) lb (haproxy-Transactional lb) c lb gauge
        (cleanup-Keeps lb) s,
  )

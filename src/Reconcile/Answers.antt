-- ===== src/Reconcile/Answers.antt =====
-- The objects that a session of `Reconcile` of externalloadbalancer_controller.go returns for the
-- status.
use lbconfig_operator.Base.{
  String, ℤ, ◌≡◌, refl, subst, true, Option, none, some, List, [], ◌∷◌, map, contains, string_eq,
  Outcome, ok, err, panic, Action, pure, wrap, for_each, ◌>>=◌, resume, arith,
}
use lbconfig_operator.Api.{Monitor, Node, Pool, Vip, ExternalLoadBalancer}
use lbconfig_operator.Backend.{Backend}
use lbconfig_operator.Backend.Handle.{
  missing, update_pool_monitor, handle_monitors, handle_vip, update_pool, make_pool,
  handle_found_pool, handle_pool,
}
use lbconfig_operator.Backend.Loops.{All}
use lbconfig_operator.Reconcile.{
  monitor_for, pool_name, pool_for, vip_for, handle_pools, handle_vips,
}
use lbconfig_operator.Reconcile.Loop.{configure}
use lbconfig_operator.Reconcile.Vips.{vip_name}
use lbconfig_operator.Reconcile.Isolated.{OwnPool, OwnVip, OwnCalls, update_pool_monitor-name}

ok-injective : {A : Type 0} (a y : A) → ◌≡◌ {A = Outcome A} (ok a) (ok y) → a ≡ y
ok-injective a y e = cc

module _ {S : Type 0} where
  -- What the call returns satisfies `P`.
  abbrev pub Answers : {A : Type 0} → (A → Type 0) → Action S A → Type 0
  Answers {A} P m = (s : S) (y : A) → (m s).0 ≡ ok y → P y

  pub Answers-pure : {A : Type 0} (P : A → Type 0) (a : A) → P a → Answers P (pure a)
  Answers-pure P a h s y e = subst P (ok-injective a y e) h

  resumed-answers :
      {A B : Type 0} (P : B → Type 0) (r : Outcome A × S) (f : A → Action S B)
      → ((a : A) → r.0 ≡ ok a → Answers P (f a))
      → (y : B) → (resume r.0 f r.1).0 ≡ ok y
      → P y
  resumed-answers P (ok a, s) f k y h = k a refl s y h
  resumed-answers P (err e, s) f k y h = absurd cc
  resumed-answers P (panic, s) f k y h = absurd cc

  pub Answers-bind :
      {A B : Type 0} (P : B → Type 0) (m : Action S A) (f : A → Action S B)
      → ((a : A) (s : S) → (m s).0 ≡ ok a → Answers P (f a))
      → Answers P (m >>= f)
  Answers-bind P m f k s y h = resumed-answers P (m s) f (λ a. k a s) y h

module _ {S D : Type 0} (view : S → D) (b : Backend S) (lb : ExternalLoadBalancer)
    (calls : OwnCalls view lb b) where
  abbrev Named : Pool → Pool → Type 0
  Named p x = x.name ≡ p.name

  update_pool-Answers : (p : Pool) (o : Option Pool) → Answers (Named p) (update_pool b p o)
  unfolding update_pool
  update_pool-Answers p none = λ s y h. absurd cc
  update_pool-Answers p (some q) = Answers-bind (Named p) (update_pool_monitor b p q) _ λ x s e.
      let named = update_pool_monitor-name view b lb calls p q x s e in
      Answers-bind (Named p)
        (for_each (λ m. b.create_pool_member m x) (missing p.members q.members)) _
        λ u s2 e2.
          Answers-bind (Named p)
            (for_each (λ m. b.delete_pool_member m x) (missing q.members p.members)) _
            λ w s3 e3. Answers-pure (Named p) x named

  handle_found_pool-Answers :
      (p : Pool) (o : Option Pool) → Answers (Named p) (handle_found_pool b p o)
  unfolding handle_found_pool make_pool
  handle_found_pool-Answers p none = Answers-bind (Named p) (b.create_pool p) _ λ u s e.
      Answers-bind (Named p) (for_each (λ m. b.create_pool_member m p) p.members) _
        λ w s2 e2. Answers-pure (Named p) p refl
  handle_found_pool-Answers p (some q) =
      Answers-bind (Named p) (b.get_pool_members q) _ λ o s e. update_pool-Answers p o

  handle_pool-Answers : (p : Pool) → Answers (Named p) (handle_pool b p)
  unfolding handle_pool
  handle_pool-Answers p =
      Answers-bind (Named p) (b.get_pool p) _ λ o s e. handle_found_pool-Answers p o

  handle_pools-Answers :
      (nodes : List Node) (m : Monitor) (ports : List ℤ)
      → ((k : String)
          → contains (map (pool_name lb) ports) k ≡ true
          → contains (map (pool_name lb) lb.spec.ports) k ≡ true)
      → Answers (All (OwnPool lb)) (handle_pools b lb nodes m ports)
  unfolding handle_pools pool_for
  handle_pools-Answers nodes m [] own = Answers-pure (All (OwnPool lb)) [] tt
  handle_pools-Answers nodes m (p ∷ ports) own =
      Answers-bind (All (OwnPool lb)) (handle_pool b (pool_for lb nodes m p)) _ λ x s e.
        let named : x.name ≡ pool_name lb p = handle_pool-Answers (pool_for lb nodes m p) s x e in
        let owned : OwnPool lb x = rw named (own (pool_name lb p) (ground arith)) in
        Answers-bind (All (OwnPool lb)) (handle_pools b lb nodes m ports) _ λ xs s2 e2.
          Answers-pure (All (OwnPool lb)) (x ∷ xs)
            (owned, handle_pools-Answers nodes m ports (λ k h. own k (ground arith)) s2 xs e2)

  handle_vips-Answers :
      (ports : List ℤ)
      → ((k : String)
          → contains (map (vip_name lb) ports) k ≡ true
          → contains (map (vip_name lb) lb.spec.ports) k ≡ true)
      → Answers (All (OwnVip lb)) (handle_vips b lb ports)
  unfolding handle_vips vip_for
  handle_vips-Answers [] own = Answers-pure (All (OwnVip lb)) [] tt
  handle_vips-Answers (p ∷ ports) own =
      Answers-bind (All (OwnVip lb)) (handle_vip b (vip_for lb p)) _ λ x s e.
        Answers-bind (All (OwnVip lb)) (handle_vips b lb ports) _ λ xs s2 e2.
          Answers-pure (All (OwnVip lb)) (vip_for lb p ∷ xs) (
            own (vip_name lb p) (ground arith),
            handle_vips-Answers ports (λ k h. own k (ground arith)) s2 xs e2,
          )

  -- The pools and the virtual servers that the session returns have names of the load balancer.
  abbrev pub Owns : List Pool × List Vip → Type 0
  Owns (pools, vips) = All (OwnPool lb) pools × All (OwnVip lb) vips

  pub configure-Answers : (nodes : List Node) → Answers Owns (configure b lb nodes)
  unfolding configure
  configure-Answers nodes = Answers-bind Owns b.connect _ λ u s e.
      Answers-bind Owns (wrap _ (handle_monitors b (monitor_for lb))) _ λ w s2 e2.
        Answers-bind Owns (handle_pools b lb nodes (monitor_for lb) lb.spec.ports) _ λ pools s3 e3.
          Answers-bind Owns (handle_vips b lb lb.spec.ports) _ λ vips s4 e4.
            Answers-bind Owns b.close _ λ z s5 e5.
              Answers-pure Owns (pools, vips)
                (
                  handle_pools-Answers nodes (monitor_for lb) lb.spec.ports (λ k h. h) s3 pools e3,
                  handle_vips-Answers lb.spec.ports (λ k h. h) s4 vips e4,
                )

-- ===== src/Reconcile/Refused.antt =====
-- `Reconcile` for a load balancer that it refuses: without a type and node labels, or with a vendor
-- that is not registered.
use lbconfig_operator.Base.{
  String, ℕ, ◌≡◌, ◌≢◌, ◌⊎◌, refl, ◌∙◌, true, Option, none, some, Outcome, ok, err, panic, Error,
  Action, ◌>>=◌, resume, wrap, to_lower, Bool-cases, inl, inr,
}
use lbconfig_operator.Base.Dict.{Dict, lookup}
use lbconfig_operator.Api.{Labels, ExternalLoadBalancer}
use lbconfig_operator.Backend.{Backend}
use lbconfig_operator.Labels.{compute_labels}
use lbconfig_operator.Nodes.{select_nodes}
use lbconfig_operator.Registry.{Registry, create_backend}
use lbconfig_operator.Reconcile.{NamespacedName, MetricKey, Cluster, length, metric_key, find}
use lbconfig_operator.Reconcile.Loop.{
  is_unselective, check_selection, reconcile_selected, reconcile_found, reconcile,
}

-- The calls of the cluster that read, and those that set a gauge, leave what `view` shows alone,
-- whether they succeed or not.
pub record ClusterFrame {S D : Type 0} (view : S → D) (c : Cluster S) : Type 0 where
  pub list_balancers : (s : S) → view (c.list_balancers s).1 ≡ view s
  pub get_balancer : (r : NamespacedName) (s : S) → view (c.get_balancer r s).1 ≡ view s
  pub get_secret : (r : NamespacedName) (s : S) → view (c.get_secret r s).1 ≡ view s
  pub list_nodes : (l : Labels) (s : S) → view (c.list_nodes l s).1 ≡ view s
  pub set_balancers : (n : ℕ) (s : S) → view (c.set_balancers n s).1 ≡ view s
  pub set_nodes : (k : MetricKey) (n : ℕ) (s : S) → view (c.set_nodes k n s).1 ≡ view s

err-ne-ok : {A : Type 0} (e : Error) (a : A) → ◌≡◌ {A = Outcome A} (err e) (ok a) → ⊥
err-ne-ok e a p = cc

none-ne-some : {A : Type 0} (a : A) → ok none ≢ ok (some a)
none-ne-some a p = cc

module _ {S : Type 0} where
  pub find-some :
      (r : Outcome ExternalLoadBalancer × S) (s : S) (lb : ExternalLoadBalancer)
      → (find (λ s'. r) s).0 ≡ ok (some lb)
      → r.0 ≡ ok lb
  find-some (ok lb', t) s lb h = cc
  find-some (err e, t) s lb h = elim (Bool-cases e.not_found) [
    | inl q ↦ absurd (none-ne-some lb (rw q at h))
    | inr q ↦ absurd (err-ne-ok _ (some lb) (rw q at h))
  ]
  find-some (panic, t) s lb h = cc

  find-none :
      (r : Outcome ExternalLoadBalancer × S) (s : S)
      → (find (λ s'. r) s).0 ≡ ok none
      → (e : Error) × (r.0 ≡ err e) × (e.not_found ≡ true)
  find-none (ok lb, t) s h = cc
  find-none (err e, t) s h = elim (Bool-cases e.not_found) [
    | inl q ↦ (e, refl, q)
    | inr q ↦ absurd (err-ne-ok _ none (rw q at h))
  ]
  find-none (panic, t) s h = cc

module _ {S D : Type 0} (view : S → D) (c : Cluster S) (frame : ClusterFrame view c)
    (providers : Registry S) (req : NamespacedName) where
  -- A read of the load balancer reports that there is none.
  abbrev pub Missing : Type 0
  Missing = (t : S) × (e : Error) × ((c.get_balancer req t).0 ≡ err e) × (e.not_found ≡ true)

  -- The view is `d`, and there is no success or the load balancer is missing.
  abbrev pub Refuses : D → Outcome (Unit {0}) × S → Type 0
  Refuses d r = (view r.1 ≡ d) × ((r.0 ≢ ok tt) ⊎ Missing)

  Refuses-resume :
      {A : Type 0} (d : D) (r : Outcome A × S) (f : A → Action S (Unit {0}))
      → view r.1 ≡ d
      → ((a : A) (s : S) → r.0 ≡ ok a → view s ≡ d → Refuses d (f a s))
      → Refuses d (resume r.0 f r.1)
  Refuses-resume d (ok a, s) f h k = k a s refl h
  Refuses-resume d (err e, s) f h k = (h, inl (λ q. cc))
  Refuses-resume d (panic, s) f h k = (h, inl (λ q. cc))

  view-wrap :
      {A : Type 0} (f : String → String) (r : Outcome A × S) (s : S)
      → view (wrap f (λ s'. r) s).1 ≡ view r.1
  view-wrap f (ok a, t) s = refl
  view-wrap f (err e, t) s = refl
  view-wrap f (panic, t) s = refl

  pub view-find :
      (r : Outcome ExternalLoadBalancer × S) (s : S) → view (find (λ s'. r) s).1 ≡ view r.1
  view-find (ok lb, t) s = refl
  view-find (err e, t) s = elim (Bool-cases e.not_found) [ inl h ↦ rw h refl | inr h ↦ rw h refl ]
  view-find (panic, t) s = refl

  -- The load balancers that the reads return are refused.
  abbrev pub Refused : ExternalLoadBalancer → Type 0
  Refused lb =
      (is_unselective lb ≡ true) ⊎ (lookup (to_lower lb.spec.provider.vendor) providers ≡ none)

  create_backend-Refuses :
      (lb : ExternalLoadBalancer) (user password : String) (f : Backend S → Action S (Unit {0}))
      (s : S)
      → lookup (to_lower lb.spec.provider.vendor) providers ≡ none
      → Refuses (view s) ((create_backend providers lb.spec.provider user password >>= f) s)
  unfolding create_backend
  create_backend-Refuses lb user password f s h = rw (h, create_backend) (refl, inl (λ q. cc))

  selected-Refuses :
      (lb : ExternalLoadBalancer) (secret : Dict String) (s : S)
      → lookup (to_lower lb.spec.provider.vendor) providers ≡ none
      → Refuses (view s) (reconcile_selected c providers req lb secret s)
  unfolding reconcile_selected
  selected-Refuses lb secret s h =
      let labels = compute_labels lb in
      Refuses-resume (view s) (c.list_nodes labels s) _ (frame.list_nodes labels s)
        λ items t e same.
          let nodes = select_nodes labels items in
          Refuses-resume (view s) (c.set_nodes (metric_key lb) (length nodes) t) _
            (frame.set_nodes (metric_key lb) (length nodes) t ∙ same)
            λ u t2 e2 same2.
              let (kept, none_ok) = create_backend-Refuses lb _ _ _ t2 h in (kept ∙ same2, none_ok)

  check-Refuses :
      (lb : ExternalLoadBalancer) (secret : Dict String) (s : S)
      → Refused lb
      → Refuses
          (view s)
          (check_selection c providers req lb (reconcile_selected c providers req lb secret) s)
  check-Refuses lb secret s (inl h) = rw h (refl, inl (λ q. cc))
  check-Refuses lb secret s (inr h) = elim (Bool-cases (is_unselective lb)) [
    | inl q ↦ rw q (refl, inl (λ q. cc))
    | inr q ↦ rw q (selected-Refuses lb secret s h)
  ]

  found-Refuses :
      (lb : ExternalLoadBalancer) (s : S)
      → Refused lb
      → Refuses (view s) (reconcile_found c providers req (some lb) s)
  unfolding reconcile_found
  found-Refuses lb s h =
      let key : NamespacedName = record {
        name = lb.spec.provider.creds;
        namespace = lb.namespace;
      } in
      Refuses-resume (view s) (wrap _ (c.get_secret key) s) _
        (view-wrap _ (c.get_secret key s) s ∙ frame.get_secret key s)
        λ secret t e same.
          let (kept, none_ok) = check-Refuses lb secret t h in (kept ∙ same, none_ok)

  -- Whatever the cluster answers, as long as every load balancer that it returns under the request's
  -- name has neither a type nor node labels or has a vendor that is not registered: `Reconcile`
  -- changes nothing that the calls of the cluster leave alone, so it makes no change on a device,
  -- and it does not succeed unless a read reports that the load balancer does not exist.
  pub reconcile-Refuses :
      ((t : S) (lb : ExternalLoadBalancer) → (c.get_balancer req t).0 ≡ ok lb → Refused lb)
      → (s : S) → Refuses (view s) (reconcile c providers req s)
  unfolding reconcile reconcile_found
  reconcile-Refuses all s =
      Refuses-resume (view s) (wrap _ c.list_balancers s) _
        (view-wrap _ (c.list_balancers s) s ∙ frame.list_balancers s)
        λ items t e same.
          Refuses-resume (view s) (c.set_balancers (length items) t) _
            (frame.set_balancers (length items) t ∙ same)
            λ u t2 e2 same2.
              Refuses-resume (view s) (find (c.get_balancer req) t2) _
                (view-find (c.get_balancer req t2) t2 ∙ frame.get_balancer req t2 ∙ same2)
                (on_found t2)
    where
      on_found :
          (t2 : S) (o : Option ExternalLoadBalancer) (t3 : S)
          → (find (c.get_balancer req) t2).0 ≡ ok o
          → view t3 ≡ view s
          → Refuses (view s) (reconcile_found c providers req o t3)
      on_found t2 none t3 h same =
          let (e, failed, gone) = find-none (c.get_balancer req t2) t2 h in
          (same, inr (t2, e, failed, gone))
      on_found t2 (some lb) t3 h same =
          let (kept, none_ok) =
            found-Refuses lb t3 (all t2 lb (find-some (c.get_balancer req t2) t2 lb h)) in
          (kept ∙ same, none_ok)

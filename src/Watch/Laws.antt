-- ===== src/Watch/Laws.antt =====
-- The requests that a node enqueues.
use lbconfig_operator.Base.{
  String, ◌≡◌, refl, ◌∙◌, Bool, true, false, not, ◌&&◌, ◌||◌, Option, List, [], ◌∷◌, map, arith,
  ◌==◌, string_eq, contains, if◌then◌else◌, Bool-cases, inl, inr,
}
use lbconfig_operator.Api.{Labels, ExternalLoadBalancer}
use lbconfig_operator.Reconcile.{NamespacedName}
use lbconfig_operator.Watch.{request, matches, enqueue}

-- Some load balancer of the list has the name and selects nodes with these labels.
abbrev pub names_matching : Option Labels → List ExternalLoadBalancer → String → Bool
names_matching held [] k = false
names_matching held (lb ∷ lbs) k = (matches held lb && k == lb.name) || names_matching held lbs k

-- Every load balancer of the list that selects nodes with these labels, in order.
abbrev pub all_matching : Option Labels → List ExternalLoadBalancer → List NamespacedName
all_matching held [] = []
all_matching held (lb ∷ lbs) =
    let rest = all_matching held lbs in if matches held lb then request lb ∷ rest else rest

abbrev pub request_names : List NamespacedName → List String
request_names = map (λ r. r.name)

abbrev pub NodupTexts : List String → Type 0
NodupTexts [] = Unit
NodupTexts (k ∷ ks) = (contains ks k ≡ false) × NodupTexts ks

enqueue-contains :
    (held : Option Labels) (lbs : List ExternalLoadBalancer) (seen : List String) (k : String)
    → contains (request_names (enqueue held lbs seen)) k
      ≡ (names_matching held lbs k && not (contains seen k))
unfolding enqueue
enqueue-contains held [] seen k = ground arith
enqueue-contains held (lb ∷ lbs) seen k =
    ground (arith, enqueue-contains held lbs seen k, enqueue-contains held lbs (lb.name ∷ seen) k)

enqueue-Nodup :
    (held : Option Labels) (lbs : List ExternalLoadBalancer) (seen : List String)
    → NodupTexts (request_names (enqueue held lbs seen))
unfolding enqueue
enqueue-Nodup held [] seen = tt
enqueue-Nodup held (lb ∷ lbs) seen =
    elim (Bool-cases (matches held lb && not (contains seen lb.name))) [
      | inl takes ↦ rw takes (
        ground (arith, enqueue-contains held lbs (lb.name ∷ seen) lb.name),
        enqueue-Nodup held lbs (lb.name ∷ seen),
      )
      | inr skips ↦ rw skips (enqueue-Nodup held lbs seen)
    ]

-- A node enqueues no two requests with one name, and a request with a name exactly if some load
-- balancer with that name selects nodes with the node's labels.
pub enqueue-names :
    (held : Option Labels) (lbs : List ExternalLoadBalancer)
    → NodupTexts (request_names (enqueue held lbs []))
      × ((k : String)
          → contains (request_names (enqueue held lbs [])) k ≡ names_matching held lbs k)
enqueue-names held lbs =
    (enqueue-Nodup held lbs [], λ k. enqueue-contains held lbs [] k ∙ ground arith)

enqueue_fresh :
    (held : Option Labels) (lbs : List ExternalLoadBalancer) (seen : List String)
    → NodupTexts (map (λ lb. lb.name) lbs)
    → ((k : String) → contains (map (λ lb. lb.name) lbs) k ≡ true → contains seen k ≡ false)
    → enqueue held lbs seen ≡ all_matching held lbs
unfolding enqueue
enqueue_fresh held [] seen u fresh = refl
enqueue_fresh held (lb ∷ lbs) seen (new, u) fresh =
    let skipped = enqueue_fresh held lbs seen u (λ k h. ground (arith, fresh k)) in
    let taken = enqueue_fresh held lbs (lb.name ∷ seen) u (λ k h. ground (arith, fresh k)) in
    ground (arith, fresh lb.name, skipped, taken)

-- If no two load balancers have one name, in whatever namespaces, a node enqueues exactly the load
-- balancers that select nodes with its labels, in the order of the list.
pub enqueue-all_matching :
    (held : Option Labels) (lbs : List ExternalLoadBalancer)
    → NodupTexts (map (λ lb. lb.name) lbs)
    → enqueue held lbs [] ≡ all_matching held lbs
enqueue-all_matching held lbs u = enqueue_fresh held lbs [] u (λ k h. refl)

-- ===== src/Reconcile/Pools.antt =====
-- The loop of `Reconcile` over the ports that handles the pools, on a lawful device.
use lbconfig_operator.Base.{
  String, ℤ, ◌≡◌, refl, sym, ap, subst, ◌∙◌, true, false, Option, some, List, [], ◌∷◌, map, arith,
  ◌==◌, string_eq, contains, Action, Bool-cases, inl, inr,
}
use lbconfig_operator.Base.Decimal.{itoa-injective}
use mathlib.Core.Option.{some-injective}
use text.Mathlib.TextLemmas.{append_cancel_left}
use lbconfig_operator.Api.{Monitor, Node, PoolMember, Pool, ExternalLoadBalancer}
use lbconfig_operator.Backend.{Backend}
use lbconfig_operator.Backend.Handle.{contains_member, handle_pool}
use lbconfig_operator.Backend.Members.{NodupMembers}
use lbconfig_operator.Backend.Device.{
  Device, Does, Does-bind, Does-cast, Does-map, PoolLaws, Fits, put_pool, HoldsPool,
  HoldsPool-pools, Unique,
}
use lbconfig_operator.Backend.Converge.{handle_pool-Converges}
use lbconfig_operator.Backend.Loops.{All, All-map, without, without-cons, without_at}
use lbconfig_operator.Reconcile.{pool_name, pool_for, handle_pools}

-- Two ports of one load balancer whose pools have the same name are the same port.
pub pool_name-injective :
    (lb : ExternalLoadBalancer) (p q : ℤ) → pool_name lb p ≡ pool_name lb q → p ≡ q
pool_name-injective lb p q h =
    itoa-injective p q (
      append_cancel_left "-" _ _
        (append_cancel_left lb.name _ _ (append_cancel_left "Pool-" _ _ h)))

-- No two nodes have the same host.
abbrev pub NodupHosts : List Node → Type 0
NodupHosts [] = Unit
NodupHosts (n ∷ nodes) = (contains (map (λ m. m.host) nodes) n.host ≡ false) × NodupHosts nodes

abbrev member : ℤ → Node → PoolMember
member p n = record { node = n; port = p }

contains_member-nodes :
    (p : ℤ) (nodes : List Node) (n : Node)
    → contains (map (λ m. m.host) nodes) n.host ≡ false
    → contains_member (map (member p) nodes) (member p n) ≡ false
unfolding contains_member
contains_member-nodes p [] n h = refl
contains_member-nodes p (m ∷ nodes) n h = ground (arith, contains_member-nodes p nodes n)

pub pool_for-Nodup :
    (lb : ExternalLoadBalancer) (nodes : List Node) (m : Monitor) (p : ℤ)
    → NodupHosts nodes
    → NodupMembers (pool_for lb nodes m p).members
unfolding pool_for
pool_for-Nodup lb [] m p u = tt
pool_for-Nodup lb (n ∷ nodes) m p (fresh, u) =
    (contains_member-nodes p nodes n fresh, pool_for-Nodup lb nodes m p u)

-- What the loop of the pools has done from the state `s`.
pub record PoolsDone {S : Type 0} (view : S → Device) (lb : ExternalLoadBalancer)
    (nodes : List Node) (m : Monitor) (ports : List ℤ) (run : Action S (List Pool)) (s : S)
    : Type 0 where
  pub result : List Pool
  pub pools : String → Option Pool
  pub does : Does view run s result (record (view s) { pools = pools })
  pub names : map (λ p. p.name) result ≡ map (pool_name lb) ports
  pub holds : All (λ p. HoldsPool (record (view s) { pools = pools }) (pool_for lb nodes m p)) ports
  pub others :
      without pools (map (pool_name lb) ports) ≡ without (view s).pools (map (pool_name lb) ports)
  pub unique : Unique (record (view s) { pools = pools })

abbrev pub set_pools : (String → Option Pool) → Device → Device
set_pools f d = record d { pools = f }

Unique-put_pool :
    (d : Device) (k : String) (q : Pool)
    → NodupMembers q.members
    → Unique d
    → Unique (put_pool d k (some q))
Unique-put_pool d k q uq u j r h = elim (Bool-cases (j == k)) [
  | inl same ↦ subst (λ x. NodupMembers x.members) (some-injective q r (rw same at h)) uq
  | inr other ↦ u j r (rw other at h)
]

holds_of_name :
    (d : Device) (lb : ExternalLoadBalancer) (nodes : List Node) (m : Monitor) (ports : List ℤ)
    (p : ℤ)
    → contains (map (pool_name lb) ports) (pool_name lb p) ≡ true
    → All (λ q. HoldsPool d (pool_for lb nodes m q)) ports
    → HoldsPool d (pool_for lb nodes m p)
holds_of_name d lb nodes m [] p e all = cc
holds_of_name d lb nodes m (q ∷ ports) p e (first, all) =
    elim (string_eq.dec (pool_name lb q) (pool_name lb p)) [
      | yes same ↦
          subst (λ r. HoldsPool d (pool_for lb nodes m r)) (pool_name-injective lb q p same) first
      | no other ↦ holds_of_name d lb nodes m ports p (ground arith) all
    ]

module _ {S : Type 0} (view : S → Device) (b : Backend S) (laws : PoolLaws view b)
    (lb : ExternalLoadBalancer) (nodes : List Node) (m : Monitor) (hosts : NodupHosts nodes) where
  -- For nodes of distinct hosts, a provider that obeys the laws of pools and can keep the ports'
  -- pools, and a device on which no pool has a member twice, the loop over the ports succeeds. Each port's pool is then on the
  -- device with its monitor and exactly the nodes as members, the rest of the device is
  -- unchanged, no pool has a member twice, and the result lists the ports' pools by name.
  pub handle_pools-PoolsDone :
      (ports : List ℤ) (s : S)
      → All (λ p. Fits view laws (pool_for lb nodes m p)) ports
      → Unique (view s)
      → PoolsDone view lb nodes m ports (handle_pools b lb nodes m ports) s
  unfolding handle_pools pool_for
  handle_pools-PoolsDone [] s fits u = record {
    result = [];
    pools = (view s).pools;
    does = record { returns = refl; leaves = refl };
    names = refl;
    holds = tt;
    others = refl;
    unique = u;
  }
  handle_pools-PoolsDone (p ∷ ports) s (fit, fits) u =
      let pool = pool_for lb nodes m p in
      let k = pool_name lb p in
      let names = map (pool_name lb) ports in
      let now =
        handle_pool-Converges view b laws pool s fit (pool_for-Nodup lb nodes m p hosts) (u k) in
      let t = (handle_pool b pool s).1 in
      let d = put_pool (view s) k (some now.found) in
      let rest =
        handle_pools-PoolsDone ports t fits (
          subst Unique (sym now.does.leaves) (Unique-put_pool (view s) k now.found now.unique u)) in
      let others : without rest.pools names ≡ without d.pools names =
        rest.others ∙ ap (λ e. without e.pools names) now.does.leaves in
      let final : Device = record (view s) { pools = rest.pools } in
      let holds : All (λ q. HoldsPool final (pool_for lb nodes m q)) ports =
        All-map
          (λ q.
            HoldsPool-pools (record (view t) { pools = rest.pools }) final refl
              (pool_for lb nodes m q))
          ports rest.holds in
      let first : HoldsPool final pool = elim (Bool-cases (contains names k)) [
        | inl again ↦ holds_of_name final lb nodes m ports p again holds
        | inr once ↦
            let put_at : d.pools k ≡ some now.found = ground arith in
            record {
              found = now.found;
              at_name = without_at rest.pools d.pools k names once others ∙ put_at;
              monitor = now.monitor;
              members = now.members;
            }
      ] in
      record {
        result = now.result ∷ rest.result;
        pools = rest.pools;
        does = Does-bind view _ _ s now.does (
            Does-map view _ _ t
              (Does-cast view _ t (ap (set_pools rest.pools) now.does.leaves) rest.does));
        names = λ i. now.result_name i ∷ rest.names i;
        holds = (first, holds);
        others = without-cons rest.pools (view s).pools k _ names others;
        unique = rest.unique;
      }

-- ===== src/Providers/F5/MemberWrites.antt =====
-- The members of f5_controller.go's pools, on a BIG-IP that obeys its laws.
use lbconfig_operator.Base.{
  String, ◌<>◌, ℤ, true, false, Option, none, some, [], ◌∷◌, ◌++◌, ◌≡◌, refl, sym, ap, ◌∙◌,
  string_eq, int_eq, Action, ◌>>=◌,
}
use lbconfig_operator.Base.Text.{has_char}
use lbconfig_operator.Api.{Provider, Pool, PoolMember}
use lbconfig_operator.Backend.{Backend}
use lbconfig_operator.Backend.Handle.{contains_member}
use lbconfig_operator.Backend.Members.{remove_member}
use lbconfig_operator.Backend.Device.{Device, Does, put_pool}
use lbconfig_operator.Providers.F5.{F5Provider, BigIp, NodeData}
use lbconfig_operator.Providers.F5.Methods.{
  methods, create_pool_member, delete_pool_member, put_node,
}
use lbconfig_operator.Providers.F5.Calls.{query, expect}
use lbconfig_operator.Providers.F5.Runs.{
  Runs, Runs-Does, Runs-put, Runs-seq, Runs-bind, Runs-query, Runs-expect,
}
use lbconfig_operator.Providers.F5.Config.{member_name}
use lbconfig_operator.Providers.F5.RoundTrips.{member_at}
use lbconfig_operator.Providers.F5.Appliance.{
  Member, AppliancePool, Appliance, BigIpLaws, drop_member, with_node,
}
use lbconfig_operator.Providers.F5.View.{
  keeps_member, read_pool, device_of, device_of-with_pool, contains_member-member_at,
  drop_member-member_at, append-member_at, from_map, nodes-with_node, stored_member,
  keeps_member-plain, keeps_member-narrow,
}

module _ {S : Type 0} (home : String) (colonless : has_char home ":" ≡ false) (big : S → Appliance)
    (self : S → F5Provider) (at_home : (s : S) → (self s).partition ≡ home) (f5 : BigIp S)
    (laws : BigIpLaws home big f5) (make : Provider → String → String → Action S (Unit {0})) where
  abbrev provider : Backend S
  provider = methods self f5 make

  abbrev view : S → Device
  view s = device_of home (big s)

  -- The node of a new member is there afterwards, whether it was there or not.
  Runs-put_node :
      (m : PoolMember) (o : Option NodeData) (s : S)
      → (big s).nodes m.node.host ≡ o
      → (n : NodeData) × Runs big (put_node self f5 m o s) tt (with_node (big s) m.node.host n)
  unfolding put_node
  Runs-put_node m none s h = (
    record { name = m.node.host; address = m.node.host },
    Runs-expect big home _ (f5.create_node m.node.host m.node.host) s
        (laws.create_node m.node.host s h),
  )
  Runs-put_node m (some n) s h =
      let c : NodeData = record { name = member_name m; address = m.node.host } in
      (
        laws.changed c n,
        Runs-expect big home _ (f5.modify_node m.node.host c) s
            (laws.modify_node m.node.host c n s h),
      )

  pub refine_create_pool_member :
      (m : PoolMember) (p q : Pool) (s : S)
      → (view s).pools p.name ≡ some q
      → contains_member q.members m ≡ false
      → keeps_member m ≡ true
      → Does view (provider.create_pool_member m p) s tt (
          put_pool
            (view s)
            p.name
            (some (record q { members = q.members ++ stored_member m ∷ [] })))
  unfolding methods create_pool_member
  refine_create_pool_member m p q s h absent fits =
      let k = p.name in
      let host = m.node.host in
      let (a, there, same) = from_map (read_pool home k) ((big s).pools k) q h in
      let lacks =
        sym (contains_member-member_at a.members m)
        ∙ ap (λ r. contains_member r.members m) same
        ∙ absent in
      let new : Member = record {
        host = host;
        port = m.port;
        plain = keeps_member-plain m fits;
        narrow = keeps_member-narrow m fits;
      } in
      let asked = Runs-query big home (λ e. e) (f5.get_node host) s (laws.get_node host s) in
      let s1 = (query (λ e. e) (f5.get_node host) s).1 in
      let (n, node) =
        Runs-put_node m ((big s).nodes host) s1 (ap (λ b. b.nodes host) asked.leaves) in
      let put = query (λ e. e) (f5.get_node host) >>= put_node self f5 m in
      let ready =
        Runs-bind big (query (λ e. e) (f5.get_node host)) (put_node self f5 m) s asked node in
      let s2 = (put s).1 in
      let at2 = ready.leaves ∙ ap (λ b. with_node b host n) asked.leaves in
      let here : (big s2).pools k ≡ some a = ap (λ b. b.pools k) at2 ∙ there in
      let known = ap (λ b. b.nodes host) at2 ∙ nodes-with_node (big s) host n in
      let sent = laws.add_pool_member k new a n s2 here known lacks in
      let added = Runs-expect big home _ (f5.add_pool_member k (member_name m)) s2 sent in
      let grown : AppliancePool = record a { members = a.members ++ new ∷ [] } in
      Runs-Does big home (provider.create_pool_member m p) s
        (Runs-seq big put (expect _ (f5.add_pool_member k (member_name m))) s ready added) refl
        (device_of-with_pool home k (some grown) (big s2)
          ∙ ap (λ b. put_pool (device_of home b) k (some (read_pool home k grown))) at2
          ∙ ap (λ r. put_pool (view s) k (some r))
              (ap (λ ms. record (read_pool home k a) { members = ms })
                  (append-member_at a.members new)
                ∙ ap {A = Pool} (λ r. record r { members = r.members ++ member_at new ∷ [] }) same))

  pub refine_delete_pool_member :
      (m : PoolMember) (p q : Pool) (s : S)
      → (view s).pools p.name ≡ some q
      → contains_member q.members m ≡ true
      → Does view
          (provider.delete_pool_member m p)
          s
          tt
          (put_pool (view s) p.name (some (record q { members = remove_member m q.members })))
  unfolding methods delete_pool_member
  refine_delete_pool_member m p q s h present =
      let (a, there, same) = from_map (read_pool home p.name) ((big s).pools p.name) q h in
      let has =
        sym (contains_member-member_at a.members m)
        ∙ ap (λ r. contains_member r.members m) same
        ∙ present in
      let (host, port) : String × ℤ = (m.node.host, m.port) in
      let left : AppliancePool = record a { members = drop_member host port a.members } in
      Runs-put big home (provider.delete_pool_member m p) p.name (some left) _ s
        (rw (at_home s) (
          Runs-expect big home _ (f5.delete_pool_member (home <> p.name) (member_name m)) s
            (laws.delete_pool_member p.name host port a s there has)))
        (ap some (
          ap (λ ms. record (read_pool home p.name a) { members = ms })
            (drop_member-member_at a.members m)
          ∙ ap {A = Pool} (λ r. record r { members = remove_member m r.members }) same))

-- ===== src/Labels/Laws.antt =====
-- What `computeLabels` puts into its map, and what `containsLabels` decides.
use lbconfig_operator.Base.{
  String, ◌≡◌, ◌≢◌, ◌↔◌, refl, ap, ◌∙◌, true, Option, none, some, [], ◌∷◌, arith, ◌==◌, string_eq,
  if◌then◌else◌,
}
use lbconfig_operator.Base.Dict.{
  lookup, insert, NodupKeys, lookup-insert, insert-NodupKeys, deep_equal, deep_equal_iff,
}
use lbconfig_operator.Api.{Labels, ExternalLoadBalancer}
use lbconfig_operator.Labels.{
  copy_labels, role_label, role_labels, add_node_labels, compute_labels, read, has_key, common,
  entries, contains_labels,
}

lookup-copy_labels :
    (from into : Labels) (k : String)
    → NodupKeys from
    → lookup k (copy_labels from into)
      ≡ (elim (lookup k from) [ none ↦ lookup k into | some v ↦ some v ])
unfolding copy_labels
lookup-copy_labels [] into k u = refl
lookup-copy_labels ((j, v) ∷ from) into k (fresh, u) =
    ground (arith, lookup-copy_labels from (insert j v into) k u, lookup-insert k j v into)

lookup-common :
    (held : Option Labels) (bs labels : Labels) (k : String)
    → NodupKeys bs
    → lookup k (common held bs labels) ≡ (elim (lookup k bs) [
      | none ↦ lookup k labels
      | some v ↦ if has_key k held then some v else lookup k labels
    ])
unfolding common
lookup-common held [] labels k u = refl
lookup-common held ((j, v) ∷ bs) labels k (fresh, u) = ground (
  arith,
  lookup-common held bs (insert j v labels) k u,
  lookup-common held bs labels k u,
  lookup-insert k j v labels,
)

common-NodupKeys :
    (held : Option Labels) (bs labels : Labels)
    → NodupKeys labels
    → NodupKeys (common held bs labels)
unfolding common
common-NodupKeys held [] labels u = u
common-NodupKeys held ((j, v) ∷ bs) labels u =
    common-NodupKeys held bs _ (ground (arith, insert-NodupKeys j v labels u))

copy_labels-NodupKeys : (from into : Labels) → NodupKeys into → NodupKeys (copy_labels from into)
unfolding copy_labels
copy_labels-NodupKeys [] into u = u
copy_labels-NodupKeys ((k, v) ∷ from) into u =
    copy_labels-NodupKeys from (insert k v into) (insert-NodupKeys k v into u)

-- The labels that a load balancer asks for: those that it lists, and else its role's, which is
-- empty.
abbrev pub wanted_label : ExternalLoadBalancer → String → Option String
wanted_label lb k = elim (read k lb.spec.node_labels) [
  | some v ↦ some v
  | none ↦
      if lb.spec.type == "" then none else if k == role_label lb.spec.type then some "" else none
]

lookup-add_node_labels :
    (o : Option Labels) (base : Labels) (k : String)
    → NodupKeys (entries o)
    → lookup k (add_node_labels o base)
      ≡ (elim (read k o) [ none ↦ lookup k base | some v ↦ some v ])
lookup-add_node_labels none base k u = refl
lookup-add_node_labels (some extra) base k u = lookup-copy_labels extra base k u

add_node_labels-NodupKeys :
    (o : Option Labels) (base : Labels) → NodupKeys base → NodupKeys (add_node_labels o base)
add_node_labels-NodupKeys none base u = u
add_node_labels-NodupKeys (some extra) base u = copy_labels-NodupKeys extra base u

wanted_of_base :
    (type : String) (o : Option String) (k : String)
    → ◌≡◌ {A = Option String}
        (elim o [ none ↦ lookup k (role_labels type) | some v ↦ some v ])
        (elim o [
          | some v ↦ some v
          | none ↦ if type == "" then none else if k == role_label type then some "" else none
        ])
wanted_of_base type none k = ground arith
wanted_of_base type (some v) k = refl

role_labels-NodupKeys : (type : String) → NodupKeys (role_labels type)
role_labels-NodupKeys type = ground arith

-- `computeLabels` maps each key that the load balancer's node labels list to their value, the role's
-- key to the empty text unless the type is empty or the node labels list it, and no other key. The
-- node labels, a Go map, have no key twice; nor has the result.
pub lookup-compute_labels :
    (lb : ExternalLoadBalancer)
    → NodupKeys (entries lb.spec.node_labels)
    → ((k : String) → lookup k (compute_labels lb) ≡ wanted_label lb k)
      × NodupKeys (compute_labels lb)
unfolding compute_labels
lookup-compute_labels lb u = (
  λ k.
      lookup-add_node_labels lb.spec.node_labels (role_labels lb.spec.type) k u
      ∙ wanted_of_base lb.spec.type (read k lb.spec.node_labels) k,
  add_node_labels-NodupKeys lb.spec.node_labels (role_labels lb.spec.type)
      (role_labels-NodupKeys lb.spec.type),
)

-- For labels `bs` without repeated keys `containsLabels` holds exactly if `as` has each of their
-- keys.
pub contains_labels_iff :
    (held : Option Labels) (bs : Labels)
    → NodupKeys bs
    → (contains_labels held (some bs) ≡ true)
      ↔ ((k : String) → lookup k bs ≢ none → read k held ≢ none)
unfolding contains_labels
contains_labels_iff held bs u = (
  λ h k listed gone.
      let same = (deep_equal_iff bs (common held bs []) u copied).0 h k in
      ground (arith, lookup-common held bs [] k u),
  λ all.
      (deep_equal_iff bs (common held bs []) u copied).1
        λ k. ground (arith, lookup-common held bs [] k u, all k),
)
  where
    copied : NodupKeys (common held bs [])
    copied = common-NodupKeys held bs [] tt

common-keys :
    (held other : Option Labels)
    → ((k : String) → has_key k held ≡ has_key k other)
    → (bs labels : Labels) → common held bs labels ≡ common other bs labels
unfolding common
common-keys held other same [] labels = refl
common-keys held other same ((k, v) ∷ bs) labels = rw (same k) (common-keys held other same bs _)

-- The values of the first map play no part: with the same keys, any other map gives the same answer.
contains_labels-keys :
    (held other : Option Labels) (bs : Option Labels)
    → ((k : String) → has_key k held ≡ has_key k other)
    → contains_labels held bs ≡ contains_labels other bs
unfolding contains_labels
contains_labels-keys held other bs same =
    ap (λ l. deep_equal bs (some l)) (common-keys held other same (entries bs) [])

-- ===== src/Labels.antt =====
-- internal/controller/utility_functions.go: `computeLabels` and `containsLabels`.
pub mod Laws
use lbconfig_operator.Base.{
  String, ◌<>◌, ◌≡◌, ◌≢◌, ◌↔◌, refl, Bool, true, false, Option, none, some, List, [], ◌∷◌, arith,
  ◌==◌, string_eq, if◌then◌else◌,
}
use lbconfig_operator.Base.Dict.{
  lookup, insert, NodupKeys, lookup-insert, insert-NodupKeys, deep_equal, deep_equal_iff,
}
use lbconfig_operator.Api.{Labels, ExternalLoadBalancer, ExternalLoadBalancerSpec}

-- `for k, v := range from { into[k] = v }`
unfoldable pub copy_labels : Labels → Labels → Labels
copy_labels [] into = into
copy_labels ((k, v) ∷ from) into = copy_labels from (insert k v into)

abbrev pub role_label : String → String
role_label type = "node-role.kubernetes.io/" <> type

abbrev pub role_labels : String → Labels
role_labels type = if type == "" then [] else insert (role_label type) "" []

-- A range over a nil map makes no round.
abbrev pub add_node_labels : Option Labels → Labels → Labels
add_node_labels none labels = labels
add_node_labels (some extra) labels = copy_labels extra labels

unfoldable pub compute_labels : ExternalLoadBalancer → Labels
unfolding copy_labels
compute_labels lb = add_node_labels lb.spec.node_labels (role_labels lb.spec.type)

-- A read of a nil map finds nothing.
abbrev pub read : String → Option Labels → Option String
read k none = none
read k (some labels) = lookup k labels

abbrev pub has_key : String → Option Labels → Bool
has_key k held = elim (read k held) [ none ↦ false | some _ ↦ true ]

-- The loop of `containsLabels`: what it copies is the entry of `bs`.
unfoldable pub common : Option Labels → Labels → Labels → Labels
common held [] labels = labels
common held ((k, v) ∷ bs) labels =
    common held bs (if has_key k held then insert k v labels else labels)

abbrev pub entries : Option Labels → Labels
entries none = []
entries (some bs) = bs

-- A nil `bs` is not deeply equal to the map that `make` returns.
unfoldable pub contains_labels : Option Labels → Option Labels → Bool
unfolding common
contains_labels held bs = deep_equal bs (some (common held (entries bs) []))

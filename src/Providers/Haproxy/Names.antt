-- ===== src/Providers/Haproxy/Names.antt =====
-- Members under their names, as HAProxy keeps the servers of a backend.
use lbconfig_operator.Base.{
  String, ◌≡◌, refl, sym, ap, subst, ◌∙◌, Bool, true, false, none, ◌⊎◌, inl, inr, List, [], ◌∷◌,
  ◌++◌, map, arith, string_eq, int_eq, ◌==◌, contains, if◌then◌else◌, Bool-cases,
}
use mathlib.Core.List.{append-nil, append_assoc}
use lbconfig_operator.Api.{PoolMember}
use lbconfig_operator.Backend.Handle.{same_member, contains_member, missing}
use lbconfig_operator.Backend.Members.{
  NodupMembers, remove_member, same_member_refl, contains_member_congr,
}

-- A member as `GetPoolMembers` reads its server.
abbrev pub plain : PoolMember → PoolMember
plain m = record { node = record m.node { labels = none }; port = m.port }

pub plain_same : (m : PoolMember) → same_member (plain m) m ≡ true
plain_same m = ground arith

abbrev pub used : List PoolMember → String → Bool
used ms n = contains (map (λ m. m.node.name) ms) n

unfoldable pub drop_named : String → List PoolMember → List PoolMember
drop_named n [] = []
drop_named n (m ∷ ms) = let rest = drop_named n ms in if m.node.name == n then rest else m ∷ rest

abbrev pub NodupNames : List PoolMember → Type 0
NodupNames [] = Unit
NodupNames (m ∷ ms) = (used ms m.node.name ≡ false) × NodupNames ms

abbrev pub Elem : PoolMember → List PoolMember → Type 0
Elem m [] = ⊥
Elem m (x ∷ xs) = (x ≡ m) ⊎ Elem m xs

abbrev pub AllElem : List PoolMember → List PoolMember → Type 0
AllElem [] ms = Unit
AllElem (d ∷ del) ms = Elem d ms × AllElem del ms

-- No name of the first list is in use in the second, or twice in the first.
abbrev pub AllFresh : List PoolMember → List PoolMember → Type 0
AllFresh [] have = Unit
AllFresh (m ∷ add) have =
    (used have m.node.name ≡ false) × (used add m.node.name ≡ false) × AllFresh add have

-- A member of the first list has a name that is in use in the second.
abbrev pub AnyUsed : List PoolMember → List PoolMember → Type 0
AnyUsed [] have = ⊥
AnyUsed (m ∷ add) have = (used have m.node.name ≡ true) ⊎ AnyUsed add have

used-append :
    (xs : List PoolMember) (x : PoolMember) (n : String)
    → used (xs ++ x ∷ []) n ≡ (if used xs n then true else x.node.name == n)
used-append [] x n = ground arith
used-append (y ∷ xs) x n = ground (arith, used-append xs x n)

pub AllFresh-add :
    (add have : List PoolMember) (m : PoolMember)
    → used add m.node.name ≡ false
    → AllFresh add have
    → AllFresh add (have ++ plain m ∷ [])
AllFresh-add [] have m e h = tt
AllFresh-add (x ∷ add) have m e h =
    ground (arith, AllFresh-add add have m, used-append have (plain m) x.node.name)

pub AnyUsed-add :
    (add have : List PoolMember) (m : PoolMember)
    → AnyUsed add have
    → AnyUsed add (have ++ plain m ∷ [])
AnyUsed-add [] have m h = h
AnyUsed-add (x ∷ add) have m (inl h) = inl (ground (arith, used-append have (plain m) x.node.name))
AnyUsed-add (x ∷ add) have m (inr h) = inr (AnyUsed-add add have m h)

pub NodupNames-add :
    (have : List PoolMember) (m : PoolMember)
    → NodupNames have
    → used have m.node.name ≡ false
    → NodupNames (have ++ plain m ∷ [])
NodupNames-add [] m u e = (refl, tt)
NodupNames-add (x ∷ have) m (fresh, u) e =
    (ground (arith, used-append have (plain m) x.node.name), NodupNames-add have m u (ground arith))

pub Elem-used : (m : PoolMember) (ms : List PoolMember) → Elem m ms → used ms m.node.name ≡ true
Elem-used m [] h = elim h [ ]
Elem-used m (x ∷ ms) (inl same) = ground arith
Elem-used m (x ∷ ms) (inr h) = ground (arith, Elem-used m ms h)

Elem-contains : (m : PoolMember) (ms : List PoolMember) → Elem m ms → contains_member ms m ≡ true
unfolding contains_member
Elem-contains m [] h = elim h [ ]
Elem-contains m (x ∷ ms) (inl same) =
    ground (arith, same_member_refl m, ap (λ y. same_member y m) same)
Elem-contains m (x ∷ ms) (inr h) = ground (arith, Elem-contains m ms h)

drop_unused : (n : String) (ms : List PoolMember) → used ms n ≡ false → drop_named n ms ≡ ms
unfolding drop_named
drop_unused n [] h = refl
drop_unused n (m ∷ ms) h = ground (arith, drop_unused n ms)

remove_absent :
    (d : PoolMember) (ms : List PoolMember) → contains_member ms d ≡ false → remove_member d ms ≡ ms
unfolding remove_member contains_member
remove_absent d [] h = refl
remove_absent d (m ∷ ms) h = ground (arith, remove_absent d ms)

-- Where no name and no host and port stand twice, a member goes by its name.
drop_head :
    (x : PoolMember) (ms : List PoolMember)
    → used ms x.node.name ≡ false
    → contains_member ms x ≡ false
    → drop_named x.node.name (x ∷ ms) ≡ remove_member x (x ∷ ms)
unfolding drop_named remove_member
drop_head x ms a b =
    ground (arith, drop_unused x.node.name ms a, remove_absent x ms b, same_member_refl x)

pub drop_named-remove :
    (d : PoolMember) (ms : List PoolMember)
    → NodupNames ms
    → NodupMembers ms
    → Elem d ms
    → drop_named d.node.name ms ≡ remove_member d ms
unfolding drop_named remove_member
drop_named-remove d [] u v h = elim h [ ]
drop_named-remove d (x ∷ ms) (name, u) (member, v) (inl same) =
    subst (λ y. drop_named y.node.name (x ∷ ms) ≡ remove_member y (x ∷ ms)) same
      (drop_head x ms name member)
drop_named-remove d (x ∷ ms) (name, u) (member, v) (inr h) = ground (
  arith,
  drop_named-remove d ms u v h,
  Elem-used d ms h,
  Elem-contains d ms h,
  contains_member_congr ms x d,
)

Elem-drop :
    (m : PoolMember) (n : String) (ms : List PoolMember)
    → (m.node.name == n) ≡ false
    → Elem m ms
    → Elem m (drop_named n ms)
unfolding drop_named
Elem-drop m n [] e h = h
Elem-drop m n (x ∷ ms) e (inl same) =
    let other : (x.node.name == n) ≡ false = ap (λ y. y.node.name == n) same ∙ e in
    rw other (inl same)
Elem-drop m n (x ∷ ms) e (inr h) = elim (Bool-cases (x.node.name == n)) [
  | inl a ↦ rw a (Elem-drop m n ms e h)
  | inr a ↦ rw a (inr (Elem-drop m n ms e h))
]

pub AllElem-drop :
    (del ms : List PoolMember) (n : String)
    → used del n ≡ false
    → AllElem del ms
    → AllElem del (drop_named n ms)
AllElem-drop [] ms n e h = tt
AllElem-drop (d ∷ del) ms n e (h, all) =
    (Elem-drop d n ms (ground arith) h, AllElem-drop del ms n (ground arith) all)

used-drop_named :
    (n k : String) (ms : List PoolMember) → used ms k ≡ false → used (drop_named n ms) k ≡ false
unfolding drop_named
used-drop_named n k [] e = refl
used-drop_named n k (m ∷ ms) e = ground (arith, used-drop_named n k ms)

pub drop_named-NodupNames :
    (n : String) (ms : List PoolMember) → NodupNames ms → NodupNames (drop_named n ms)
unfolding drop_named
drop_named-NodupNames n [] u = tt
drop_named-NodupNames n (m ∷ ms) (fresh, u) =
    ground (arith, drop_named-NodupNames n ms, used-drop_named n m.node.name ms)

used-missing :
    (want have : List PoolMember) (n : String)
    → used want n ≡ false
    → used (missing want have) n ≡ false
unfolding missing
used-missing [] have n e = refl
used-missing (m ∷ want) have n e = ground (arith, used-missing want have n)

pub missing-NodupNames :
    (want have : List PoolMember) → NodupNames want → NodupNames (missing want have)
unfolding missing
missing-NodupNames [] have u = tt
missing-NodupNames (m ∷ want) have (fresh, u) =
    ground (arith, missing-NodupNames want have, used-missing want have m.node.name)

AllElem-cons : (del ms : List PoolMember) (x : PoolMember) → AllElem del ms → AllElem del (x ∷ ms)
AllElem-cons [] ms x h = tt
AllElem-cons (d ∷ del) ms x (h, all) = (inr h, AllElem-cons del ms x all)

pub AllElem-refl : (ms : List PoolMember) → AllElem ms ms
AllElem-refl [] = tt
AllElem-refl (m ∷ ms) = (inl refl, AllElem-cons ms ms m (AllElem-refl ms))

pub missing-AllElem : (want have : List PoolMember) → AllElem (missing want have) want
unfolding missing
missing-AllElem [] have = tt
missing-AllElem (m ∷ want) have =
    let rest = AllElem-cons (missing want have) want m (missing-AllElem want have) in
    elim (Bool-cases (contains_member have m)) [ inl e ↦ rw e rest | inr e ↦ rw e (inl refl, rest) ]

Elem-append : (m x : PoolMember) (ms : List PoolMember) → Elem m ms → Elem m (ms ++ x ∷ [])
Elem-append m x [] h = elim h [ ]
Elem-append m x (y ∷ ms) (inl same) = inl same
Elem-append m x (y ∷ ms) (inr h) = inr (Elem-append m x ms h)

pub AllElem-append :
    (del ms : List PoolMember) (x : PoolMember) → AllElem del ms → AllElem del (ms ++ x ∷ [])
AllElem-append [] ms x h = tt
AllElem-append (d ∷ del) ms x (h, all) = (Elem-append d x ms h, AllElem-append del ms x all)

pub added-NodupNames :
    (add have : List PoolMember)
    → AllFresh add have
    → NodupNames have
    → NodupNames (have ++ map plain add)
added-NodupNames [] have h u = subst NodupNames (sym (append-nil have)) u
added-NodupNames (m ∷ add) have (new, alone, h) u =
    subst NodupNames (append_assoc have (plain m ∷ []) (map plain add)) (
      added-NodupNames add (have ++ plain m ∷ []) (AllFresh-add add have m alone h)
        (NodupNames-add have m u new))

pub added-AllElem :
    (add del have : List PoolMember) → AllElem del have → AllElem del (have ++ map plain add)
added-AllElem [] del have all = subst (AllElem del) (sym (append-nil have)) all
added-AllElem (m ∷ add) del have all =
    subst (AllElem del) (append_assoc have (plain m ∷ []) (map plain add))
      (added-AllElem add del (have ++ plain m ∷ []) (AllElem-append del have (plain m) all))

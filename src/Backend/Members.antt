-- ===== src/Backend/Members.antt =====
-- Lists of pool members as sets of host and port: the lemmas that the convergence proof uses.
use lbconfig_operator.Base.{
  ◌≡◌, refl, ◌∙◌, Bool, true, false, not, ◌&&◌, ◌||◌, List, [], ◌∷◌, ◌++◌, arith, string_eq, int_eq,
  if◌then◌else◌,
}
use lbconfig_operator.Api.{PoolMember}
use lbconfig_operator.Backend.Handle.{same_member, contains_member, missing}

-- What a device does to delete a member.
unfoldable pub remove_member : PoolMember → List PoolMember → List PoolMember
remove_member d [] = []
remove_member d (a ∷ ms) =
    let rest = remove_member d ms in if same_member a d then rest else a ∷ rest

unfoldable pub remove_members : List PoolMember → List PoolMember → List PoolMember
remove_members [] ms = ms
remove_members (d ∷ del) ms = remove_members del (remove_member d ms)

-- No two members have the same host and port.
abbrev pub NodupMembers : List PoolMember → Type 0
NodupMembers [] = Unit
NodupMembers (m ∷ ms) = (contains_member ms m ≡ false) × NodupMembers ms

-- None of the first list is in the second; all of the first list are in the second.
abbrev pub AllAbsent : List PoolMember → List PoolMember → Type 0
AllAbsent [] have = Unit
AllAbsent (m ∷ ms) have = (contains_member have m ≡ false) × AllAbsent ms have

abbrev pub AllPresent : List PoolMember → List PoolMember → Type 0
AllPresent [] have = Unit
AllPresent (m ∷ ms) have = (contains_member have m ≡ true) × AllPresent ms have

-- Every member of the list passes the test.
abbrev pub AllFit : (PoolMember → Bool) → List PoolMember → Type 0
AllFit fits [] = Unit
AllFit fits (m ∷ ms) = (fits m ≡ true) × AllFit fits ms

-- A device that keeps every member.
pub all_fit : (ms : List PoolMember) → AllFit (λ _. true) ms
all_fit [] = tt
all_fit (m ∷ ms) = (refl, all_fit ms)

pub missing-AllFit :
    (fits : PoolMember → Bool) (want have : List PoolMember)
    → AllFit fits want
    → AllFit fits (missing want have)
unfolding missing
missing-AllFit fits [] have h = tt
missing-AllFit fits (m ∷ want) have h = ground (arith, missing-AllFit fits want have)

pub same_member_comm : (a b : PoolMember) → same_member a b ≡ same_member b a
same_member_comm a b = ground arith

pub same_member_congr :
    (a b m : PoolMember) → same_member a b ≡ true → same_member m a ≡ same_member m b
same_member_congr a b m h = ground arith

pub contains_member_congr :
    (have : List PoolMember) (a b : PoolMember)
    → same_member a b ≡ true
    → contains_member have a ≡ contains_member have b
unfolding contains_member
contains_member_congr [] a b h = refl
contains_member_congr (x ∷ have) a b h =
    ap₂-or (same_member_congr a b x h) (contains_member_congr have a b h)
  where
    ap₂-or : {p q r s : Bool} → p ≡ q → r ≡ s → (p || r) ≡ (q || s)
    ap₂-or e f = cc

pub contains_member-append :
    (xs ys : List PoolMember) (m : PoolMember)
    → contains_member (xs ++ ys) m ≡ (contains_member xs m || contains_member ys m)
unfolding contains_member
contains_member-append [] ys m = refl
contains_member-append (x ∷ xs) ys m = ground (arith, contains_member-append xs ys m)

pub contains_member-missing :
    (want have : List PoolMember) (m : PoolMember)
    → contains_member (missing want have) m
      ≡ (contains_member want m && not (contains_member have m))
unfolding contains_member missing
contains_member-missing [] have m = refl
contains_member-missing (x ∷ want) have m =
    ground (arith, contains_member-missing want have m, contains_member_congr have x m)

pub contains_member-remove_member :
    (d : PoolMember) (ms : List PoolMember) (m : PoolMember)
    → contains_member (remove_member d ms) m
      ≡ (if same_member d m then false else contains_member ms m)
unfolding contains_member remove_member
contains_member-remove_member d [] m = ground arith
contains_member-remove_member d (x ∷ ms) m = ground (
  arith,
  contains_member-remove_member d ms m,
  same_member_congr x d m,
  same_member_comm x m,
  same_member_comm d m,
)

pub contains_member-remove_members :
    (del ms : List PoolMember) (m : PoolMember)
    → contains_member (remove_members del ms) m
      ≡ (contains_member ms m && not (contains_member del m))
unfolding contains_member remove_members
contains_member-remove_members [] ms m = ground arith
contains_member-remove_members (d ∷ del) ms m =
    contains_member-remove_members del (remove_member d ms) m
    ∙ ground (arith, contains_member-remove_member d ms m)

-- What `HandlePool` adds is new to the device and has no duplicates.
pub missing-AllAbsent : (want have : List PoolMember) → AllAbsent (missing want have) have
unfolding missing
missing-AllAbsent [] have = tt
missing-AllAbsent (m ∷ want) have = ground (arith, missing-AllAbsent want have)

pub missing-Nodup :
    (want have : List PoolMember) → NodupMembers want → NodupMembers (missing want have)
unfolding missing
missing-Nodup [] have u = tt
missing-Nodup (m ∷ want) have u =
    ground (arith, missing-Nodup want have, contains_member-missing want have m)

AllPresent-cons :
    (xs ys : List PoolMember) (m : PoolMember) → AllPresent xs ys → AllPresent xs (m ∷ ys)
unfolding contains_member
AllPresent-cons [] ys m h = tt
AllPresent-cons (x ∷ xs) ys m h = ground (arith, AllPresent-cons xs ys m)

AllPresent-append : (xs ys more : List PoolMember) → AllPresent xs ys → AllPresent xs (ys ++ more)
AllPresent-append [] ys more h = tt
AllPresent-append (x ∷ xs) ys more h =
    ground (arith, AllPresent-append xs ys more, contains_member-append ys more x)

pub same_member_refl : (m : PoolMember) → same_member m m ≡ true
same_member_refl m = ground arith

-- What it deletes is on the device, also after the additions.
missing-AllPresent : (want have : List PoolMember) → AllPresent (missing want have) want
unfolding missing contains_member
missing-AllPresent [] have = tt
missing-AllPresent (m ∷ want) have =
    let rest = AllPresent-cons (missing want have) want m (missing-AllPresent want have) in
    ground (arith, same_member_refl m)

pub missing-AllPresent_append :
    (want have more : List PoolMember) → AllPresent (missing want have) (want ++ more)
missing-AllPresent_append want have more =
    AllPresent-append (missing want have) want more (missing-AllPresent want have)

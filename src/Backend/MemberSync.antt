-- ===== src/Backend/MemberSync.antt =====
-- What the additions and the deletions of `HandlePool` make of the members of a pool.
use lbconfig_operator.Base.{
  ◌≡◌, refl, ap, ◌∙◌, map, true, false, ◌||◌, List, [], ◌∷◌, ◌++◌, arith, string_eq, int_eq,
}
use lbconfig_operator.Api.{PoolMember}
use lbconfig_operator.Backend.Handle.{same_member, contains_member, missing}
use lbconfig_operator.Backend.Members.{
  AllAbsent, AllPresent, NodupMembers, contains_member-append, contains_member-missing,
  contains_member-remove_member, contains_member-remove_members, contains_member_congr,
  missing-AllAbsent, missing-Nodup, remove_member, remove_members, same_member_comm,
  same_member_congr, same_member_refl,
}

-- The rest of the work stays valid after one addition and after one deletion.
pub AllAbsent-add :
    (add have : List PoolMember) (m : PoolMember)
    → contains_member add m ≡ false
    → AllAbsent add have
    → AllAbsent add (have ++ m ∷ [])
unfolding contains_member
AllAbsent-add [] have m e h = tt
AllAbsent-add (x ∷ add) have m e h =
    ground (
      arith,
      AllAbsent-add add have m,
      contains_member-append have (m ∷ []) x,
      same_member_comm x m,
    )

pub AllPresent-remove :
    (del ms : List PoolMember) (d : PoolMember)
    → contains_member del d ≡ false
    → AllPresent del ms
    → AllPresent del (remove_member d ms)
unfolding contains_member
AllPresent-remove [] ms d e h = tt
AllPresent-remove (x ∷ del) ms d e h =
    ground (
      arith,
      AllPresent-remove del ms d,
      contains_member-remove_member d ms x,
      same_member_comm x d,
    )

-- A member of the first list is not among later ones that are all absent from it.
AllAbsent-contains :
    (ys xs : List PoolMember) (x : PoolMember)
    → AllAbsent ys (x ∷ xs)
    → (contains_member ys x ≡ false) × AllAbsent ys xs
unfolding contains_member
AllAbsent-contains [] xs x a = (refl, tt)
AllAbsent-contains (y ∷ ys) xs x a =
    ground (arith, AllAbsent-contains ys xs x, same_member_comm x y)

Nodup-append :
    (xs ys : List PoolMember)
    → NodupMembers xs
    → NodupMembers ys
    → AllAbsent ys xs
    → NodupMembers (xs ++ ys)
Nodup-append [] ys ux uy a = uy
Nodup-append (x ∷ xs) ys (fresh, ux) uy a =
    let (new, rest) = AllAbsent-contains ys xs x a in
    (rw (contains_member-append xs ys x, fresh) new, Nodup-append xs ys ux uy rest)

pub add-Nodup :
    (ms : List PoolMember) (m : PoolMember)
    → NodupMembers ms
    → contains_member ms m ≡ false
    → NodupMembers (ms ++ m ∷ [])
unfolding contains_member
add-Nodup ms m u absent = Nodup-append ms (m ∷ []) u (refl, tt) (absent, tt)

pub remove_member-Nodup :
    (d : PoolMember) (ms : List PoolMember) → NodupMembers ms → NodupMembers (remove_member d ms)
unfolding remove_member
remove_member-Nodup d [] u = tt
remove_member-Nodup d (m ∷ ms) u =
    ground (arith, remove_member-Nodup d ms, contains_member-remove_member d ms m)

remove_members-Nodup :
    (del ms : List PoolMember) → NodupMembers ms → NodupMembers (remove_members del ms)
unfolding remove_members
remove_members-Nodup [] ms u = u
remove_members-Nodup (d ∷ del) ms u =
    remove_members-Nodup del (remove_member d ms) (remove_member-Nodup d ms u)

-- A device may keep another name for a member, with the same host and port.
module _ (stored : PoolMember → PoolMember)
    (same : (m : PoolMember) → same_member (stored m) m ≡ true) where
  same_member-stored : (x m : PoolMember) → same_member (stored x) m ≡ same_member x m
  same_member-stored x m =
      same_member_comm (stored x) m
      ∙ same_member_congr (stored x) x m (same x)
      ∙ same_member_comm m x

  pub contains_member-map :
      (xs : List PoolMember) (m : PoolMember)
      → contains_member (map stored xs) m ≡ contains_member xs m
  unfolding contains_member
  contains_member-map [] m = refl
  contains_member-map (x ∷ xs) m =
      ap (λ b. b || contains_member (map stored xs) m) (same_member-stored x m)
      ∙ ap (λ b. same_member x m || b) (contains_member-map xs m)

  pub map-Nodup : (xs : List PoolMember) → NodupMembers xs → NodupMembers (map stored xs)
  map-Nodup [] u = tt
  map-Nodup (x ∷ xs) (fresh, u) = (
    contains_member_congr (map stored xs) (stored x) x (same x) ∙ contains_member-map xs x ∙ fresh,
    map-Nodup xs u,
  )

  map-AllAbsent : (xs have : List PoolMember) → AllAbsent xs have → AllAbsent (map stored xs) have
  map-AllAbsent [] have a = tt
  map-AllAbsent (x ∷ xs) have (absent, a) =
      (contains_member_congr have (stored x) x (same x) ∙ absent, map-AllAbsent xs have a)

  -- Adding what is missing and then deleting what is not wanted gives the wanted set.
  pub contains_member-synced :
      (want have : List PoolMember) (m : PoolMember)
      → contains_member
          (remove_members (missing have want) (have ++ map stored (missing want have)))
          m
        ≡ contains_member want m
  contains_member-synced want have m = rw contains_member-remove_members (
      rw contains_member-append (
        rw (contains_member-map (missing want have) m) (
          rw (contains_member-missing want have m, contains_member-missing have want m)
            (ground arith))))

  pub added-Nodup :
      (want have : List PoolMember)
      → NodupMembers want
      → NodupMembers have
      → NodupMembers (have ++ map stored (missing want have))
  added-Nodup want have uw uh =
      Nodup-append have (map stored (missing want have)) uh
        (map-Nodup (missing want have) (missing-Nodup want have uw))
        (map-AllAbsent (missing want have) have (missing-AllAbsent want have))

  pub synced-Nodup :
      (want have : List PoolMember)
      → NodupMembers want
      → NodupMembers have
      → NodupMembers (remove_members (missing have want) (have ++ map stored (missing want have)))
  synced-Nodup want have uw uh =
      remove_members-Nodup (missing have want) _ (added-Nodup want have uw uh)

AllPresent-of_contains :
    (want have : List PoolMember)
    → ((m : PoolMember) → contains_member want m ≡ true → contains_member have m ≡ true)
    → AllPresent want have
unfolding contains_member
AllPresent-of_contains [] have all = tt
AllPresent-of_contains (x ∷ want) have all = (
  all x (ground (arith, same_member_refl x)),
  AllPresent-of_contains want have (λ m h. all m (ground arith)),
)

missing_of_present : (want have : List PoolMember) → AllPresent want have → missing want have ≡ []
unfolding missing
missing_of_present [] have h = refl
missing_of_present (x ∷ want) have (present, h) = rw present (missing_of_present want have h)

-- Nothing is missing from a list that has the same members.
pub missing-eq-nil :
    (want have : List PoolMember)
    → ((m : PoolMember) → contains_member want m ≡ contains_member have m)
    → missing want have ≡ []
missing-eq-nil want have same =
    missing_of_present want have (AllPresent-of_contains want have (λ m h. rw (← same m) h))

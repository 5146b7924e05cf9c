-- ===== src/Base/Dict.antt =====
-- Go maps from strings as association lists: a read, a write, and `reflect.DeepEqual`.
use lbconfig_operator.Base.Equality.{◌==◌, string_eq, if◌then◌else◌}
use Prim.Native.String.{String}
use mathlib.Core.Path.{◌≡◌, refl}
use mathlib.Core.Logic.{◌↔◌}
use mathlib.Core.Bool.{Bool, true, false, ◌&&◌}
use mathlib.Core.Option.{Option, none, some}
use mathlib.Core.List.{List, [], ◌∷◌}
use native.Mathlib.Omega.{arith}

abbrev pub Dict : Type 0 → Type 0
Dict V = List (String × V)

module _ {V : Type 0} where
  abbrev pub lookup : String → Dict V → Option V
  lookup k [] = none
  lookup k ((j, v) ∷ d) = if k == j then some v else lookup k d

  -- `d[k] = v`
  abbrev pub insert : String → V → Dict V → Dict V
  insert k v [] = (k, v) ∷ []
  insert k v ((j, w) ∷ d) = if k == j then (k, v) ∷ d else (j, w) ∷ insert k v d

  abbrev pub NodupKeys : Dict V → Type 0
  NodupKeys [] = Unit
  NodupKeys ((k, _) ∷ d) = (lookup k d ≡ none) × NodupKeys d

  pub lookup-insert :
      (j k : String) (v : V) (d : Dict V)
      → lookup j (insert k v d) ≡ (if j == k then some v else lookup j d)
  lookup-insert j k v [] = refl
  lookup-insert j k v ((i, w) ∷ d) = ground (arith, lookup-insert j k v d)

  pub insert-NodupKeys : (k : String) (v : V) (d : Dict V) → NodupKeys d → NodupKeys (insert k v d)
  insert-NodupKeys k v [] _ = (refl, tt)
  insert-NodupKeys k v ((j, _) ∷ d) (fresh, u) =
      ground (arith, insert-NodupKeys k v d u, lookup-insert j k v d)

abbrev pub has_value : String → Option String → Bool
has_value v none = false
has_value v (some w) = v == w

-- Every entry of the first map is in the second.
unfoldable pub subset : Dict String → Dict String → Bool
subset [] b = true
subset ((k, v) ∷ a) b = has_value v (lookup k b) && subset a b

-- Two maps without repeated keys are deeply equal if each has the entries of the other; a nil map
-- is equal to a nil map only.
unfoldable pub deep_equal : Option (Dict String) → Option (Dict String) → Bool
unfolding subset
deep_equal none none = true
deep_equal (some a) (some b) = subset a b && subset b a
deep_equal _ _ = false

pub subset_iff :
    (a b : Dict String)
    → NodupKeys a
    → (subset a b ≡ true) ↔ ((k v : String) → lookup k a ≡ some v → lookup k b ≡ some v)
unfolding subset
subset_iff [] b u = (λ _ k v h. cc, λ _. refl)
subset_iff ((j, w) ∷ a) b (fresh, u) = (
  λ h k v e. ground (arith, (subset_iff a b u).0 (ground arith) k v),
  λ all. ground (arith, all j w, (subset_iff a b u).1 (λ k v e. all k v (ground arith))),
)

same_lookup :
    (a b : Dict String) (k : String)
    → ((v : String) → lookup k a ≡ some v → lookup k b ≡ some v)
    → ((v : String) → lookup k b ≡ some v → lookup k a ≡ some v)
    → lookup k a ≡ lookup k b
same_lookup a b k there back = go (lookup k a) refl
  where
    none_of : (o : Option String) → lookup k b ≡ o → lookup k a ≡ none → lookup k a ≡ lookup k b
    none_of none e n = cc
    none_of (some v) e n = cc (back v e)

    go : (o : Option String) → lookup k a ≡ o → lookup k a ≡ lookup k b
    go none e = none_of (lookup k b) refl e
    go (some v) e = cc (there v e)

pub deep_equal_iff :
    (a b : Dict String)
    → NodupKeys a
    → NodupKeys b
    → (deep_equal (some a) (some b) ≡ true) ↔ ((k : String) → lookup k a ≡ lookup k b)
unfolding deep_equal
deep_equal_iff a b ua ub = (
  λ h k.
      same_lookup a b k ((subset_iff a b ua).0 (ground arith) k)
        ((subset_iff b a ub).0 (ground arith) k),
  λ all. ground (
    arith,
    (subset_iff a b ua).1 (λ k v e. cc (all k)),
    (subset_iff b a ub).1 (λ k v e. cc (all k)),
  ),
)

pub deep_equal_comm : (a b : Option (Dict String)) → deep_equal a b ≡ deep_equal b a
unfolding deep_equal
deep_equal_comm none none = refl
deep_equal_comm none (some b) = refl
deep_equal_comm (some a) none = refl
deep_equal_comm (some a) (some b) = ground arith

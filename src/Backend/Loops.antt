-- ===== src/Backend/Loops.antt =====
-- Loops over calls: what every round keeps, and loops that delete one name of a table in each round.
-- They serve the stages of `HandleCleanup`.
use lbconfig_operator.Base.{
  String, ◌≡◌, ◌≢◌, refl, sym, ap, ◌∙◌, fun_ext, false, Option, none, List, [], ◌∷◌, map, arith,
  string_eq, int_eq, contains, if◌then◌else◌, ok, err, panic, Error, Action, ignore_error, for_each,
}
use lbconfig_operator.Backend.Device.{Device, Does, Does-bind, Does-cast, put}

-- Every name is there in `f`, and none is listed twice.
abbrev pub Installed : {A : Type 0} → (String → Option A) → List String → Type 0
Installed f [] = Unit
Installed f (k ∷ ks) = (f k ≢ none) × (contains ks k ≡ false) × Installed f ks

-- `f` without the names of the list.
abbrev pub without : {A : Type 0} → (String → Option A) → List String → String → Option A
without f ks j = if contains ks j then none else f j

pub put-without :
    {A : Type 0} (f : String → Option A) (k : String) (ks : List String)
    → without (put f k none) ks ≡ without f (k ∷ ks)
put-without f k ks = fun_ext λ j. ground arith

pub Installed-put :
    {A : Type 0} (f : String → Option A) (k : String) (ks : List String)
    → contains ks k ≡ false
    → Installed f ks
    → Installed (put f k none) ks
Installed-put f k [] e h = tt
Installed-put f k (j ∷ ks) e (here, fresh, h) =
    (ground arith, fresh, Installed-put f k ks (ground arith) h)

-- One table of the device, seen through `get` and written by `set`.
pub record Table (A : Type 0) : Type 0 where
  pub get : Device → String → Option A
  pub set : Device → (String → Option A) → Device
  pub get-set : (d : Device) (f : String → Option A) → get (set d f) ≡ f
  pub set-set : (d : Device) (f g : String → Option A) → set (set d f) g ≡ set d g
  pub set-get : (d : Device) → set d (get d) ≡ d

-- A loop that deletes one name in each round.
module _ {S A X : Type 0} (view : S → Device) (t : Table A) (act : X → Action S (Unit {0}))
    (name : X → String)
    (removes : (x : X) (s : S)
      → t.get (view s) (name x) ≢ none
      → Does view (act x) s tt (t.set (view s) (put (t.get (view s)) (name x) none))) where
  pub remove_all :
      (xs : List X) (s : S)
      → Installed (t.get (view s)) (map name xs)
      → Does view (for_each act xs) s tt (t.set (view s) (without (t.get (view s)) (map name xs)))
  unfolding for_each
  remove_all [] s h = record { returns = refl; leaves = sym (t.set-get (view s)) }
  remove_all (x ∷ xs) s (here, fresh, h) =
      let step = removes x s here in
      let f = t.get (view s) in
      let names = map name xs in
      let now : t.get (view (act x s).1) ≡ put f (name x) none =
        ap t.get step.leaves ∙ t.get-set (view s) _ in
      let rest = remove_all xs (act x s).1 (rw now (Installed-put f (name x) names fresh h)) in
      let leaves =
        ap (λ d. t.set d (without (t.get d) names)) step.leaves
        ∙ ap (λ g. t.set (t.set (view s) (put f (name x) none)) (without g names))
            (t.get-set (view s) _)
        ∙ t.set-set (view s) _ _
        ∙ ap (t.set (view s)) (put-without f (name x) names) in
      Does-bind view (act x) _ s step (Does-cast view _ (act x s).1 leaves rest)

-- A call that leaves `P` true and returns no error and no panic.
abbrev pub Passes : {S : Type 0} → (S → Type 0) → Action S (Unit {0}) → Type 0
Passes {S} P m = (s : S) → P s → ((m s).0 ≡ ok tt) × P (m s).1

abbrev pub All {ℓ} : {A : Type 0} → (A → Type ℓ) → List A → Type ℓ
All P [] = Unit
All P (x ∷ xs) = P x × All P xs

pub for_each-Passes :
    {S A : Type 0} (P : S → Type 0) (f : A → Action S (Unit {0})) (xs : List A)
    → All (λ x. Passes P (f x)) xs
    → Passes P (for_each f xs)
unfolding for_each
for_each-Passes P f [] all s h = (refl, h)
for_each-Passes P f (x ∷ xs) (first, all) s h =
    let (done, h') = first s h in
    let (rest, h'') = for_each-Passes P f xs all (f x s).1 h' in (rw done rest, rw done h'')

abbrev pub NeverErrs : {S A : Type 0} → Action S A → Type 0
NeverErrs {S} m = (s : S) (e : Error) → (m s).0 ≢ err e

pub for_each-NeverErrs :
    {S A : Type 0} (f : A → Action S (Unit {0}))
    → ((x : A) → NeverErrs (f x))
    → (xs : List A) → NeverErrs (for_each f xs)
unfolding for_each
for_each-NeverErrs f each [] s e h = cc
for_each-NeverErrs f each (x ∷ xs) s e h =
    ground (arith, each x s e, for_each-NeverErrs f each xs (f x s).1 e)

pub ignore_error-NeverErrs : {S A : Type 0} (m : Action S A) → NeverErrs (ignore_error m)
ignore_error-NeverErrs m s e h = ground arith

pub ignore_error-ok :
    {S A : Type 0} (m : Action S A) (s : S) → (m s).0 ≢ panic → ignore_error m s ≡ (ok tt, (m s).1)
ignore_error-ok m s h = ground arith

pub All-map :
    {A : Type 0} {P Q : A → Type 0} → ((x : A) → P x → Q x) → (xs : List A) → All P xs → All Q xs
All-map f [] all = tt
All-map f (x ∷ xs) (h, all) = (f x h, All-map f xs all)

pub All-const : {A : Type 0} {P : A → Type 0} → ((x : A) → P x) → (xs : List A) → All P xs
All-const h [] = tt
All-const h (x ∷ xs) = (h x, All-const h xs)

pub without-cons :
    {A : Type 0} (f g : String → Option A) (k : String) (v : Option A) (names : List String)
    → without f names ≡ without (put g k v) names
    → without f (k ∷ names) ≡ without g (k ∷ names)
without-cons f g k v names h = fun_ext λ j. ground (arith, ap (λ w. w j) h)

pub without_at :
    {A : Type 0} (f g : String → Option A) (k : String) (names : List String)
    → contains names k ≡ false
    → without f names ≡ without g names
    → f k ≡ g k
without_at f g k names e h = ground (arith, ap (λ w. w k) h)

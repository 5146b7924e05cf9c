-- ===== src/Providers/F5/Runs.antt =====
-- Runs of the calls of f5_controller.go on a BIG-IP that obeys its laws.
use lbconfig_operator.Base.{
  String, Option, ◌≡◌, refl, ap, subst, ◌∙◌, Outcome, ok, pure, Action, ◌>>=◌, ◌>>◌,
}
use mathlib.Core.Option
use lbconfig_operator.Api.{Pool}
use lbconfig_operator.Backend.Device.{Device, Does, put_pool}
use lbconfig_operator.Providers.{Call}
use lbconfig_operator.Providers.F5.View.{
  read_pool, device_of, device_of-with_pool, with_pool-with_pool,
}
use lbconfig_operator.Providers.F5.Calls.{query, expect}
use lbconfig_operator.Providers.F5.Appliance.{AppliancePool, with_pool, Appliance, Answers, Writes}

module _ {S : Type 0} (big : S → Appliance) where
  -- The result of a run: it returns `v` and leaves the load balancer `a`.
  pub record Runs {A : Type 0} (r : Outcome A × S) (v : A) (a : Appliance) : Type 0 where
    pub returns : r.0 ≡ ok v
    pub leaves : big r.1 ≡ a

  pub Runs-bind :
      {A B : Type 0} (m : Action S A) (f : A → Action S B) (s : S) {v : A} {w : B} {a e : Appliance}
      → Runs (m s) v a
      → Runs (f v (m s).1) w e
      → Runs ((m >>= f) s) w e
  Runs-bind m f s h k = record { returns = rw h.returns k.returns; leaves = rw h.returns k.leaves }

  pub Runs-seq :
      {A B : Type 0} (m : Action S A) (n : Action S B) (s : S) {v : A} {w : B} {a e : Appliance}
      → Runs (m s) v a
      → Runs (n (m s).1) w e
      → Runs ((m >> n) s) w e
  Runs-seq m n s h k = Runs-bind m (λ _. n) s h k

  pub Runs-return : {A : Type 0} (s : S) {v : A} {a : Appliance} → big s ≡ a → Runs (pure v s) v a
  Runs-return s h = record { returns = refl; leaves = h }

  module _ (home : String) where
    pub Runs-query :
        {A : Type 0} (text : String → String) (call : Call S A) (s : S) {v : Option A}
        {a : Appliance}
        → Answers home big call s v a
        → Runs (query text call s) v a
    unfolding query
    Runs-query text call s h = record {
      returns = rw h.error (ap ok h.value);
      leaves = rw h.error h.leaves;
    }

    pub Runs-expect :
        (text : String → String) (call : Call S (Unit {0})) (s : S) {a : Appliance}
        → Writes home big call s a
        → Runs (expect text call s) tt a
    unfolding expect
    Runs-expect text call s h = record { returns = rw h.error refl; leaves = rw h.error h.leaves }

    pub Runs-Does :
        {A : Type 0} (m : Action S A) (s : S) {v w : A} {a : Appliance} {d : Device}
        → Runs (m s) v a
        → v ≡ w
        → device_of home a ≡ d
        → Does (λ t. device_of home (big t)) m s w d
    Runs-Does m s h p q = record {
      returns = h.returns ∙ ap ok p;
      leaves = ap (device_of home) h.leaves ∙ q;
    }

    -- A write to a pool of the load balancer, as a write to the device.
    pub Runs-put :
        {A : Type 0} (m : Action S A) (k : String) (v : Option AppliancePool) (q : Option Pool)
        (s : S) {w : A}
        → Runs (m s) w (with_pool (big s) k v)
        → Option.map (read_pool home k) v ≡ q
        → Does (λ t. device_of home (big t)) m s w (put_pool (device_of home (big s)) k q)
    Runs-put m k v q s h e =
        Runs-Does m s h refl
          (device_of-with_pool home k v (big s) ∙ ap (put_pool (device_of home (big s)) k) e)

    -- Two writes to one pool.
    pub Runs-again :
        (m n : Action S (Unit {0})) (k : String) (v w : Option AppliancePool) (s : S)
        → Runs (m s) tt (with_pool (big s) k v)
        → Runs (n (m s).1) tt (with_pool (big (m s).1) k w)
        → Runs ((m >> n) s) tt (with_pool (big s) k w)
    Runs-again m n k v w s first second = Runs-seq m n s first (
        subst (Runs (n (m s).1) tt)
          (ap (λ a. with_pool a k w) first.leaves ∙ with_pool-with_pool (big s) k v w) second)

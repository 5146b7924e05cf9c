-- ===== src/Backend/Again.antt =====
-- The handlers on a device that holds what they are given: a second run changes nothing.
use lbconfig_operator.Base.{◌≡◌, sym, ap, ◌∙◌, true, none, some, [], ok, Action}
use lbconfig_operator.Api.{Monitor, Pool, Vip}
use lbconfig_operator.Backend.{Backend}
use lbconfig_operator.Backend.Handle.{handle_monitors, handle_pool, handle_vip}
use lbconfig_operator.Backend.Device.{
  Device, SameMonitor, Does, MonitorLaws, PoolLaws, VipLaws, header, HoldsPool, HoldsVip,
}
use lbconfig_operator.Backend.Idle.{handle_monitors_idle, handle_pool_idle, handle_vip_idle}

module _ {S : Type 0} (view : S → Device) (b : Backend S) where
  -- The call as a pair of its outcome and its state.
  paired : {A : Type 0} (m : Action S A) (s : S) (a : A) → (m s).0 ≡ ok a → m s ≡ (ok a, (m s).1)
  paired m s a h = λ i. (h i, (m s).1)

  pub handle_monitors-again :
      (laws : MonitorLaws view b) (m have : Monitor) (s : S)
      → (view s).monitors m.name ≡ some have
      → SameMonitor have m
      → laws.suits none m ≡ true
      → Does view (handle_monitors b m) s tt (view s)
  handle_monitors-again laws m have s there (port, path, type) fit =
      let got = laws.get_monitor m s (rw there (laws.suits_same have m fit (port, path, type))) in
      let t = (b.get_monitor m s).1 in
      let idle =
        handle_monitors_idle b m have s t
          (paired (b.get_monitor m) s (some have) (got.returns ∙ ap ok there)) port path type in
      record { returns = ap (λ r. r.0) idle; leaves = ap (λ r. view r.1) idle ∙ got.leaves }

  pub handle_vip-again :
      (laws : VipLaws view b) (v : Vip) (s : S)
      → HoldsVip (view s) v
      → laws.suits none v ≡ true
      → Does view (handle_vip b v) s tt (view s)
  handle_vip-again laws v s h fit =
      let got = laws.get_vip v s (rw h.at_name (laws.suits_same h.found v fit h.same)) in
      let t = (b.get_vip v s).1 in
      let (port, ip, pool) = h.same in
      let idle =
        handle_vip_idle b v h.found s t
          (paired (b.get_vip v) s (some h.found) (got.returns ∙ ap ok h.at_name)) port ip pool in
      record { returns = ap (λ r. r.0) idle; leaves = ap (λ r. view r.1) idle ∙ got.leaves }

  pub handle_pool-again :
      PoolLaws view b
      → (p : Pool) (s : S) → HoldsPool (view s) p
      → Does view (handle_pool b p) s p (view s)
  handle_pool-again laws p s h =
      let q : Pool = record { name = p.name; members = []; monitor = h.found.monitor } in
      let have : Pool = record q { members = h.found.members } in
      let got = laws.get_pool p s in
      let t = (b.get_pool p s).1 in
      let read =
        laws.get_pool_members q h.found t (ap (λ d. d.pools p.name) got.leaves ∙ h.at_name) in
      let u = (b.get_pool_members q t).1 in
      let idle =
        handle_pool_idle b p q have s t u
          (paired (b.get_pool p) s (some q)
            (got.returns ∙ ap (λ o. ok (header p.name o)) h.at_name))
          (paired (b.get_pool_members q) t (some have) read.returns) (sym h.monitor) h.members in
      record {
        returns = ap (λ r. r.0) idle;
        leaves = ap (λ r. view r.1) idle ∙ read.leaves ∙ got.leaves;
      }

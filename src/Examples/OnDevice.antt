-- ===== src/Examples/OnDevice.antt =====
-- The handlers' theorems over the device in memory.
use lbconfig_operator.Base.{refl, ◌==◌, string_eq, int_eq, Bool-cases, inl, inr, arith, subst}
use mathlib.Core.Option.{some-injective}
use lbconfig_operator.Backend.Handle.{contains_member}
use lbconfig_operator.Backend.Members.{NodupMembers}
use lbconfig_operator.Backend.Device.{Unique}
use lbconfig_operator.Backend.Converge.{Converges, handle_pool-Converges}
use lbconfig_operator.Examples.Memory.{view, memory, memory_pools, memory-Fits}
use lbconfig_operator.Examples.Sample.{new_pool, old_pool, busy_device}

new_pool-Nodup : NodupMembers new_pool.members
unfolding contains_member string_eq int_eq
new_pool-Nodup = (refl, (refl, tt))

old_pool-Nodup : NodupMembers old_pool.members
unfolding contains_member string_eq int_eq
old_pool-Nodup = (refl, (refl, tt))

busy_device-Unique : Unique busy_device
busy_device-Unique k q h = elim (Bool-cases (k == "Pool-web-80")) [
  | inl e ↦
      subst (λ x. NodupMembers x.members) (some-injective old_pool q (rw e at h)) old_pool-Nodup
  | inr e ↦ ground arith
]

handle_pool-Converges_example : Converges view memory memory_pools new_pool busy_device
handle_pool-Converges_example =
    handle_pool-Converges view memory memory_pools new_pool busy_device (memory-Fits new_pool)
      new_pool-Nodup (busy_device-Unique "Pool-web-80")

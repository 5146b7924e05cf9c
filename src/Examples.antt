-- ===== src/Examples.antt =====
-- The theorems at concrete inputs, over a provider and a cluster that live in memory, and runs of
-- the code on the inputs of its own tests.
pub mod Memory
pub mod BigIpMemory
pub mod BigIpWhole
pub mod F5World
pub mod DataPlaneMemory
pub mod Sample
mod OnDevice
mod OnRefused
mod OnUntouched
mod OnKept
mod OnNodes
mod OnVendors
mod OnHaproxy
mod OnAtomic
mod OnHaproxyPools
mod OnF5
mod OnF5Texts
mod OnF5Servers
mod OnF5Reconcile
mod OnNetscaler
mod OnStartup

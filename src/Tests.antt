-- ===== src/Tests.antt =====
-- The theorems at concrete inputs, and runs of the definitions.
pub mod Controls
pub mod Reports
pub mod Texts
pub mod Disks
pub mod Broadcast
pub mod Orders
pub mod Processes
pub mod Endpoints
pub mod Freshness
pub mod Keepers
pub mod Setups
pub mod Machines
pub mod Names

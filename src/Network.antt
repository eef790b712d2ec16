-- ===== src/Network.antt =====
-- The guarded change of the appliance's network (appliance/lib/network_transaction.py): staged,
-- applied, and rolled back unless it is confirmed through the new address in time.
pub mod Files
pub mod Transaction
pub mod Address
pub mod Request
pub mod Staging
pub mod Settings
pub mod Servers
pub mod Reachable
pub mod Operations
pub mod Revert
pub mod Guard
pub mod Interrupted
pub mod Unconfirmed
pub mod Finalizing
pub mod Events
pub mod Taken
pub mod Staged
pub mod Confirmed
mod Tests
mod StagedTests
mod SettingsTests

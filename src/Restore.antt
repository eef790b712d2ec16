-- ===== src/Restore.antt =====
-- The journaled replacement of restore targets (appliance/lib/restore_transaction.py): `Slot` has
-- what happens at one target, `Transaction` the operations, and the others prove.
pub mod Slot
pub mod Transaction
pub mod Phases
pub mod Loops
pub mod Install
pub mod Copying
pub mod Recovery
pub mod Safety
pub mod Progress
pub mod Disjoint
mod Tests

-- ===== src/Snapshots.antt =====
-- Local checkpoints (appliance/lib/local_snapshots.py and checkpoint_compatibility.py).
pub mod Store
pub mod Retention
pub mod Operations
pub mod Deleting
pub mod Pruning
pub mod Spared
pub mod Complete
pub mod Pinning
pub mod Events
pub mod Reserved
mod Tests

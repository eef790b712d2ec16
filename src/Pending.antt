-- ===== src/Pending.antt =====
-- Backups that wait for their upload (appliance/lib/backup_pending.py): the checkpoint that is taken
-- before the power goes, its archive, and the upload that is retried at each boot.
pub mod Store
pub mod Operations
pub mod Json
pub mod Saved
pub mod Safe
pub mod Keeping
pub mod Retrying
pub mod Uploads
pub mod Waiting
pub mod Completes
mod Tests

-- ===== src/Installer.antt =====
-- The storage of the appliance: the installer's plan (iso/storage_plan.py, iso/storage_prepare.py) and
-- the check before the appliance starts (appliance/lib/storage_guard.py).
pub mod Plan
pub mod Identity
pub mod Prepare
pub mod Preserved
pub mod Verified
mod Tests

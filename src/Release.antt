-- ===== src/Release.antt =====
-- Signed releases: the manifest's format (`Manifest`, appliance/lib/appliance_release.py) and the
-- monotonic acceptance policy (`Policy`, appliance/lib/release_policy.py).
pub mod Errors
pub mod Policy
pub mod Fields
pub mod Manifest
pub mod Verify
pub mod Chunks
pub mod Verified
pub mod Parts
pub mod Validated
mod ManifestTests
mod Tests

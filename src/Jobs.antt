-- ===== src/Jobs.antt =====
-- Host jobs (appliance/lib/host_jobs.py): admission, the worker, and what becomes of a job whose worker
-- died.
pub mod Record
pub mod Store
pub mod Requests
pub mod Operations
pub mod Diagram
pub mod Changes
pub mod Events
pub mod Single
pub mod Dead
pub mod Admission
mod Tests

-- ===== src/Runs.antt =====
-- RunRepository of researchops/storage/repositories.py: the life of a run and who owns it.
pub mod Rows
pub mod Status
pub mod Control
pub mod Lease
pub mod Claim
pub mod Steps
pub mod Ownership
pub mod Progress
pub mod Claiming
pub mod Fencing
pub mod Fitting
pub mod Clashes
pub mod Held
pub mod Cleanup
pub mod Examples

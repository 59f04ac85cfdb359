-- ===== src/Auth.antt =====
-- researchops/services/auth_service.py: the Web's accounts, their sessions and what they may reach.
pub mod Rows
pub mod Passwords
pub mod Sessions
pub mod Attempts
pub mod Setup
pub mod Login
pub mod Users
pub mod Manage
pub mod Access
pub mod Steps
pub mod Soundness
pub mod Kept
pub mod Managed
pub mod Updated
pub mod Promises
pub mod Admins
pub mod Staffed
pub mod Refused
pub mod Reach
pub mod Credentials
pub mod Limits
pub mod Examples

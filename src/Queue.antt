-- ===== src/Queue.antt =====
-- researchops/delivery/queue.py: the durable SMTP queue.
pub mod Insert
pub mod Dispatch
pub mod Retry
pub mod Report
pub mod Receipts
pub mod AutoRetry
pub mod Finish
pub mod Recovery
pub mod Moves
pub mod Invariant
pub mod Stages
pub mod Steps
pub mod Attempts
pub mod Renewals
pub mod Outcomes
pub mod History
pub mod Promises
pub mod Once
pub mod Endings
pub mod Requests
pub mod Permissions
pub mod Cancelling
pub mod Examples
pub mod Calls

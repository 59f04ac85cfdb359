-- ===== src/Scheduler.antt =====
-- researchops/services/scheduler.py: cron expressions, their occurrences and the tick that queues runs.
pub mod Cron
pub mod Occurrence
pub mod Search
pub mod Days
pub mod Exact
pub mod Bounds
pub mod Tick
pub mod Decide
pub mod Loop
pub mod Advance
pub mod Watermarks
pub mod Due
pub mod Served
pub mod Examples

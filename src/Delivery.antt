-- ===== src/Delivery.antt =====
-- researchops/delivery: what guards and records the delivery of a run's email.
pub mod Rows
pub mod Timeline
pub mod Authorization
pub mod RetryGuard
pub mod Reported
pub mod Catalogue
pub mod Binding
pub mod Clear
pub mod Examples

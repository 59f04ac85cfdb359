-- ===== src/Plan.antt =====
-- researchops/engine/execution_plan.py: the choices of runner that a run is queued with.
pub mod Stages
pub mod Build
pub mod RoundTrip
pub mod Examples

-- ===== src/Dedupe.antt =====
-- researchops/engine/dedupe.py: which records of a run were reported before.
pub mod Aliases
pub mod Records
pub mod Partition
pub mod Filter
pub mod Remembered
pub mod Examples

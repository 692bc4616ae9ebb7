-- ===== src/Policy.antt =====
-- ops/legacy-policy/import-cpa-key-policy.ts: the plan of a policy import, and its execution.
pub mod Schema
pub mod Parse
pub mod Documents
pub mod Plan
pub mod Build
pub mod Act
pub mod Answers
pub mod Execute
pub mod Honest
pub mod Refined
pub mod Failures
pub mod Replay
pub mod Matching
pub mod Sorting
pub mod Planned
pub mod Main
pub mod Imported
pub mod Samples
pub mod Target
pub mod Tests
pub mod Keys
pub mod Distinct

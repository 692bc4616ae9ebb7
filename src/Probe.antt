-- ===== src/Probe.antt =====
-- The work probe of ops/inspection: its time budget and status (cpa-work-probe-budget.ts), and the
-- supervised life of its operator process (cpa-work-probe-lifecycle.ts).
pub mod Observation
pub mod Budget
pub mod Status
pub mod Decision
pub mod Lifecycle
pub mod Deadlines
pub mod Anchors
pub mod Signals
pub mod ForcedStop
pub mod Tests

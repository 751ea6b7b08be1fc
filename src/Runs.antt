-- ===== src/Runs.antt =====
-- src/server/agent: answer runs, from their creation to their settlement.
pub mod Storage
pub mod Types
pub mod Rows
pub mod Store
pub mod Actions
pub mod Artifacts
pub mod Cleanup
pub mod Settle
pub mod Complete
pub mod Fail
pub mod Recovery
pub mod Modes
pub mod Timeouts
pub mod Active
pub mod Steps
pub mod Progress
pub mod Reachable
pub mod Leases
pub mod Completing
pub mod Outcomes
pub mod Failures
pub mod Examples

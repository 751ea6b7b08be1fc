-- ===== src/Budget.antt =====
-- src/server/operations/model-runtime.ts: what model calls may cost, and what they did.
pub mod Types
pub mod Windows
pub mod Policy
pub mod Runtime
pub mod Ends
pub mod Spending
pub mod Limits
pub mod Reserve
pub mod Examples

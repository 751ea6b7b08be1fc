-- ===== src/Knowledge.antt =====
-- src/server/knowledge: which sources may be used, and which versions may be published.
pub mod Types
pub mod Source
pub mod Rights
pub mod Review
pub mod Approval
pub mod Readiness
pub mod Examples

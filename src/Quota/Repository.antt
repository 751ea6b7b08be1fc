-- ===== src/Quota/Repository.antt =====
-- src/server/quota/repository.ts, in children.
pub mod Rows
pub mod Reserve
pub mod Transition
pub mod Status

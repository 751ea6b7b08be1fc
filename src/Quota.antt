-- ===== src/Quota.antt =====
-- src/server/quota.
pub mod Types
pub mod Window
pub mod Repository
pub mod Accounting
pub mod Buckets
pub mod Reserving
pub mod Settling
pub mod Selection
pub mod Transitions
pub mod Settlement
pub mod Laws
pub mod Charged
pub mod Race
pub mod Fresh
pub mod Service
pub mod WithReservation
pub mod Guarded
pub mod Reserved
pub mod Cost
pub mod Examples

-- ===== src/Access.antt =====
-- Who may administer, and who may enter: src/server/api and src/server/auth.
pub mod Roles
pub mod Owners
pub mod Mutations
pub mod Authority
pub mod Bans
pub mod Examples

-- ===== src/Attachments.antt =====
-- src/server/chat-attachments and src/worker/chat-storage.ts.
pub mod Types
pub mod Rows
pub mod Upload
pub mod Completion
pub mod Binding
pub mod Orphans
pub mod Queue
pub mod Chunks
pub mod Deletions
pub mod Work
pub mod Worker
pub mod Accounts
pub mod Effects
pub mod Distinct
pub mod Initiating
pub mod Uploading
pub mod Removing
pub mod Losing
pub mod Fencing
pub mod Leases
pub mod Locks
pub mod Candidates
pub mod Claims
pub mod Keys
pub mod Ledger
pub mod Examples

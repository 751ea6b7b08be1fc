-- ===== src/Lib.antt =====
-- OpenVac Web: an assistant for vacuum engineering, with a chat whose answers an agent writes, daily
-- quotas, a budget for the model, governed knowledge sources and an administration.
--
-- The parts, and the files that model them (paths from the repository's root):
--   Quota       src/server/quota: `repository.ts` in Quota/Repository (Rows: the selects; Reserve:
--               `reserve`; Transition: `commit` and `release`; Status: `status`), `service.ts` in
--               Quota/Service and Quota/WithReservation, `window.ts` in Quota/Window, the tables in
--               Quota/Types. Accounting says what the counters stand for; Settling, Selection,
--               Transitions and Settlement follow a transition; Buckets, Reserving, Charged, Race and
--               Fresh a reservation; Guarded, Reserved and Cost `withReservation`.
--   Runs        src/server/agent: `createInitial` of `run-store.ts` in Runs/Store, `createAction` in
--               Runs/Actions, `complete` in Runs/Complete, `fail` and `requestCancellation` in
--               Runs/Fail, `run-settlement.ts` in Runs/Settle and Runs/Artifacts, `retention.ts` in
--               Runs/Recovery, `mode-policy.ts` in Runs/Modes, src/server/auth/account-write-barrier.ts in
--               Runs/Rows. A run holds a lease of the quota, and its end settles the lease in the
--               same transaction. Leases, Completing, Outcomes, Failures and Cleanup are about the
--               ends of a run; Active, Steps, Progress and Reachable about its order; Timeouts about
--               its time.
--   Budget      src/server/operations/model-runtime.ts: Windows, Policy (the pure functions),
--               Runtime (the start) and Ends (completion and failure); Spending, Limits and Reserve are
--               about the spending.
--   Knowledge   src/server/knowledge: `source-policy.ts` in Source and `review-policy.ts` in Review;
--               Rights, Approval and Readiness say what they let through.
--   Stream      src/lib/sse.ts: Frames (chunks and lines) and Events (the protocol), with Chunks
--               and Order about them. `streamRun` and `replayResponse` of src/server/agent/http-v2.ts
--               in Protocol (the events) and Writer; Written, Reading and Writing follow the text
--               from the one to the other, Answers and Replays are the two ways through.
--   Access      the roles of src/server/api/store.ts and role-policy.ts in Roles, ban-policy.ts,
--               audit-policy.ts and the session hook of src/server/auth/index.ts in Bans; Owners,
--               Mutations and Authority are about the roles.
--   Attachments src/server/chat-attachments/repository.ts in Rows, Upload (`initiate`),
--               Completion (of an upload) and Binding (`findOwnedObject`, `bindToMessage`,
--               `deleteUnbound`); src/worker/chat-storage.ts in Orphans (`enqueueExpiredOrphans`),
--               Queue (the parse leases and what is written under them), Deletions (the deletion
--               queue), Chunks (`chunkText`), Chunks/Documents (the chunks of a document), Work and
--               Worker (`runOnce`). A verified document is a row of the parse queue, whose chunks the
--               worker saves; a rejected or deleted one leaves a job of the deletion queue. Accounts,
--               Initiating, Uploading, Effects, Removing, Distinct, Keys and Ledger are about the
--               bytes of the accounts; Losing, Fencing, Candidates, Claims, Leases, Locks,
--               Worker/Outcomes and Worker/Polling about the leases; Chunks/Trim, Pieces, Cover,
--               Numbers and Savable about the chunks.
--   Json, Script, Prelude: JSON values, what the source uses of its language, shared helpers.
--   Each part's Examples (WriterExamples for the writers) runs it at concrete inputs.
--
-- State and steps. A database is a record of its tables, each a list with the newest row first. A
-- transaction is a function from a state to a result with the next state, or an error; `after`
-- rolls a failed one back. The locks of the source order transactions on the same rows, so a
-- transaction is one step; where a select reads before a lock, as the first one of `reserve`, the
-- model takes the older state that it saw as an argument of its own. Keys that the source draws at
-- random come from a counter above all keys in use, the advisory locks write nothing, and the
-- clock is an argument. Columns that no modelled code reads are left out.
--
-- Parameters stand for what is not in the repository: the collations of the database and of
-- `localeCompare`, the calendar of `Intl.DateTimeFormat` and `Date.UTC`, `new URL`, zod, JSON, the
-- text decoder, the guarded operation of `withReservation`, the orchestrator of a run, the object
-- storage, the PDF reader and the parser of documents, and what other workers commit while one waits
-- for these. Numbers are natural; a subtraction of the source that could go below zero is written
-- out. Loops recur on a list, but for that of `chunkText`, which takes the length of the text as its
-- fuel.
--
-- Not modelled: fractional prices of models and the rounding of floating point, tool calls, the
-- service above the attachments with its URLs and digests, the storage of generated files, the
-- heartbeat's own database errors, providers, pages and the user interface.
pub mod Prelude
pub mod Script
pub mod Quota
pub mod Runs
pub mod Json
pub mod Budget
pub mod Knowledge
pub mod Stream
pub mod Access
pub mod Attachments

-- ===== src/Attachments/Locks.antt =====
-- The parse queue of src/worker/chat-storage.ts as leased locks: who holds each attachment, and since
-- when.

use openvac_web.Prelude.{
  ℕ, ◌+◌, ◌<◌, String, ◌≡◌, ◌⊎◌, true, false, ◌||◌, Option, none, some, List, [], ◌∷◌, ltb, ◌==◌,
  if◌then◌else◌, length,
}
use openvac_web.Attachments.Types.{AttachmentRow, ChatStorage}
use openvac_web.Attachments.Queue.{ParseJob, is_parsing, max_chunks}
use openvac_web.Attachments.Rows.{find_attachment}
use openvac_web.Attachments.Losing.{
  WorkerOp, claiming, renewing, submitting, deferring, saving, failing,
}
pub mod Steps
pub mod Refinement

-- A lock that is held: by whom, under which token, and since when.
pub record Lock : Type 0 where
  pub worker : String
  pub token : ℕ
  pub since : Option ℕ

-- What the queue promises: every attachment is held by one worker at most.
abbrev pub Locks : Type 0
Locks = ℕ → Option Lock

abbrev pub owned : Option String → Option ℕ → Option ℕ → Option Lock
owned none token since = none
owned (some worker) none since = none
owned (some worker) (some token) since =
    some (record { worker = worker; token = token; since = since })

abbrev pub row_lock : AttachmentRow → Option Lock
row_lock r =
    if is_parsing r.parse_status
    then owned r.parse_locked_by r.parse_lease_token r.parse_locked_at
    else none

abbrev pub found_lock : Option AttachmentRow → Option Lock
found_lock none = none
found_lock (some r) = row_lock r

abbrev pub locks : ChatStorage → Locks
locks s id = found_lock (find_attachment id s.attachments)

abbrev pub Unchanged : Locks → Locks → Type 0
Unchanged s t = (id : ℕ) → t id ≡ s id

abbrev pub OthersUnchanged : ℕ → Locks → Locks → Type 0
OthersUnchanged id s t = (other : ℕ) → (other == id) ≡ false → t other ≡ s other

-- Nobody holds the lock, or its fifteen minutes are over.
abbrev pub Free : ℕ → Option Lock → Type 0
Free now lock =
    (lock ≡ none)
    ⊎ ((held : Lock) × (lock ≡ some held)
        × ((at : ℕ) × (held.since ≡ some at) × (at + 900_000 < now)))

-- The job's own worker holds the lock, under the job's own token.
abbrev pub HeldBy : ParseJob → Option Lock → Type 0
HeldBy job lock =
    (since : Option ℕ) × (lock
      ≡ some (record { worker = job.worker_id; token = job.lease_token; since = since }))

abbrev pub Acquired : String → ℕ → ℕ → ℕ → Locks → Locks → Type 0
Acquired worker token now id s t =
    Free now (s id)
    × (t id ≡ some (record { worker = worker; token = token; since = some now }))
    × OthersUnchanged id s t

-- A write of a job: its holder sets the lock, anybody else changes nothing.
abbrev pub Written : ParseJob → Option Lock → Locks → Locks → Type 0
Written job lock s t =
    (HeldBy job (s job.id) × (t job.id ≡ lock) × OthersUnchanged job.id s t)
    ⊎ ((¬ HeldBy job (s job.id)) × Unchanged s t)

abbrev pub renewed_lock : ParseJob → ℕ → Option Lock
renewed_lock job now =
    some (record { worker = job.worker_id; token = job.lease_token; since = some now })

-- What each operation does to the locks. A claim takes a free lock or nothing; the holder's renewal
-- dates the lock anew; every other write of the holder gives the lock back, except that a number of
-- chunks out of range is refused.
abbrev pub LockStep : WorkerOp → Locks → Locks → Type 0
LockStep (claiming worker token now locked) s t =
    Unchanged s t ⊎ ((id : ℕ) × Acquired worker token now id s t)
LockStep (renewing job now) s t = Written job (renewed_lock job now) s t
LockStep (submitting job id at now) s t = Written job none s t
LockStep (deferring job at) s t = Written job none s t
LockStep (saving job chunks now) s t =
    Written job none s t
    ⊎ (((ltb (length chunks) 1 || ltb max_chunks (length chunks)) ≡ true) × Unchanged s t)
LockStep (failing job final at) s t = Written job none s t

-- Steps one after the other.
pub data LockRun : List WorkerOp → Locks → Locks → Type 0 where
  no_steps : {s : Locks} → LockRun [] s s
  one_step :
      {op : WorkerOp} {ops : List WorkerOp} {s t u : Locks}
      → LockStep op s t
      → LockRun ops t u
      → LockRun (op ∷ ops) s u

-- ===== src/Attachments/Deletions.antt =====
-- The deletion queue of src/worker/chat-storage.ts.
use openvac_web.Attachments.Types.{DeletionJob, ChatStorage, StorageError, stale_lease}
use openvac_web.Runs.Storage.{DeletionJobStatus, job_queued, job_running, job_succeeded, job_failed}
use openvac_web.Attachments.Queue.{lease_over, is_terminal}
use openvac_web.Prelude.{
  ℕ, ◌+◌, String, Bool, true, false, not, ◌&&◌, ◌||◌, Option, none, some, List, [], ◌∷◌, str_eq,
  ltb, leb, ◌==◌, if◌then◌else◌, any, select, first, sort, Tx, ok, err,
}

pub record ChatStorageDeletionJob : Type 0 where
  pub id : ℕ
  pub object_key : String
  pub attempts : ℕ
  pub max_attempts : ℕ
  pub worker_id : String
  pub lease_token : ℕ

abbrev pub is_job_queued : DeletionJobStatus → Bool
is_job_queued job_queued = true
is_job_queued _ = false

abbrev pub is_job_running : DeletionJobStatus → Bool
is_job_running job_running = true
is_job_running _ = false

unfoldable pub is_deletion_due : ℕ → DeletionJob → Bool
is_deletion_due now j =
    (is_job_queued j.status && leb j.run_at now)
    || (is_job_running j.status && lease_over now j.locked_at)

-- `ORDER BY run_at, created_at`
unfoldable pub deletion_order : DeletionJob → DeletionJob → Bool
deletion_order a b =
    ltb a.run_at b.run_at || (a.run_at == b.run_at && leb a.created_at b.created_at)

unfoldable pub find_job : ℕ → List DeletionJob → Option DeletionJob
find_job id jobs = first (λ (j : DeletionJob). j.id == id) jobs

unfoldable pub set_job : ℕ → (DeletionJob → DeletionJob) → List DeletionJob → List DeletionJob
set_job id change [] = []
set_job id change (j ∷ js) = if j.id == id then change j ∷ js else j ∷ set_job id change js

unfoldable pub deletion_candidate : ℕ → List ℕ → List DeletionJob → Option DeletionJob
unfolding is_deletion_due deletion_order
deletion_candidate now locked jobs =
    first (λ _. true)
      (sort deletion_order (
        select (λ (j : DeletionJob). is_deletion_due now j && not (any (λ n. n == j.id) locked))
          jobs))

unfoldable pub claimed_deletion : String → ℕ → ℕ → DeletionJob → DeletionJob
claimed_deletion worker_id token now j = record j {
  status = job_running;
  attempts = j.attempts + 1;
  locked_at = some now;
  locked_by = some worker_id;
  lease_token = some token;
}

unfoldable pub deletion_job : String → ℕ → DeletionJob → ChatStorageDeletionJob
deletion_job worker_id token j = record {
  id = j.id;
  object_key = j.object_key;
  attempts = j.attempts;
  max_attempts = j.max_attempts;
  worker_id = worker_id;
  lease_token = token;
}

unfoldable pub claim_deletion :
    String → ℕ → ℕ → List ℕ → ChatStorage → Option ChatStorageDeletionJob × ChatStorage
unfolding deletion_candidate claimed_deletion deletion_job set_job
claim_deletion worker_id token now locked s = elim (deletion_candidate now locked s.jobs) [
  | none ↦ (none, s)
  | some j ↦ (
    some (deletion_job worker_id token (claimed_deletion worker_id token now j)),
    record s { jobs = set_job j.id (claimed_deletion worker_id token now) s.jobs },
  )
]

unfoldable pub holds_deletion : ChatStorageDeletionJob → DeletionJob → Bool
holds_deletion job j =
    is_job_running j.status
    && (elim j.locked_by [ none ↦ false | some worker ↦ str_eq worker job.worker_id ]
        && elim j.lease_token [ none ↦ false | some token ↦ token == job.lease_token ])

unfoldable pub deletion_update :
    ChatStorageDeletionJob → (DeletionJob → DeletionJob) → Tx ChatStorage StorageError (Unit {0})
unfolding holds_deletion find_job set_job
deletion_update job change s = elim (find_job job.id s.jobs) [
  | none ↦ err stale_lease
  | some j ↦
      if holds_deletion job j
      then ok (tt, record s { jobs = set_job job.id change s.jobs })
      else err stale_lease
]

unfoldable pub deletion_done : ℕ → DeletionJob → DeletionJob
deletion_done now j = record j {
  status = job_succeeded;
  completed_at = some now;
  locked_at = none;
  locked_by = none;
  lease_token = none;
}

unfoldable pub mark_deletion_succeeded :
    ChatStorageDeletionJob → ℕ → Tx ChatStorage StorageError (Unit {0})
unfolding deletion_update deletion_done
mark_deletion_succeeded job now = deletion_update job (deletion_done now)

unfoldable pub deletion_failure : Bool → ℕ → ℕ → DeletionJob → DeletionJob
deletion_failure terminal retry_at now j = record j {
  status = if terminal then job_failed else job_queued;
  run_at = retry_at;
  completed_at = if terminal then some now else none;
  locked_at = none;
  locked_by = none;
  lease_token = none;
}

unfoldable pub mark_deletion_failed :
    ChatStorageDeletionJob → Bool → ℕ → ℕ → Tx ChatStorage StorageError (Unit {0})
unfolding deletion_update deletion_failure is_terminal
mark_deletion_failed job final retry_at now =
    deletion_update job
      (deletion_failure (is_terminal job.attempts job.max_attempts final) retry_at now)

-- ===== src/Runs/Storage.antt =====
-- The rows of src/server/db/schema/chat-storage.ts that the end of a run in src/server/agent reads and
-- writes.
use openvac_web.Prelude.{ℕ, String, Option, List}

pub data ArtifactStatus : Type 0 where
  generating artifact_ready artifact_failed artifact_deleted : ArtifactStatus

pub data StorageQuotaState : Type 0 where
  bytes_reserved bytes_committed bytes_released : StorageQuotaState

pub data StorageDeletionStatus : Type 0 where
  file_active file_queued file_deleting file_deleted file_failed : StorageDeletionStatus

pub data DeletionJobStatus : Type 0 where
  job_queued job_running job_succeeded job_failed : DeletionJobStatus

-- A row of `chat_artifact`.
pub record ArtifactRow : Type 0 where
  pub id : ℕ
  pub user_id : String
  pub conversation_id : ℕ
  pub message_id : Option ℕ
  pub source_turn_id : ℕ
  pub status : ArtifactStatus
  pub ready_at : Option ℕ
  pub deleted_at : Option ℕ

-- A row of `chat_artifact_file`.
pub record ArtifactFileRow : Type 0 where
  pub id : ℕ
  pub artifact_id : ℕ
  pub object_key : String
  pub size_bytes : ℕ
  pub quota_state : StorageQuotaState
  pub deletion_status : StorageDeletionStatus

-- A row of `chat_storage_account`.
pub record StorageAccountRow : Type 0 where
  pub user_id : String
  pub used_bytes : ℕ
  pub reserved_bytes : ℕ

-- A row of `chat_storage_deletion_job`; its object key is unique.
pub record DeletionJobRow : Type 0 where
  pub user_id : String
  pub source_id : ℕ
  pub object_key : String
  pub status : DeletionJobStatus

pub record Storage : Type 0 where
  pub artifacts : List ArtifactRow
  pub files : List ArtifactFileRow
  pub accounts : List StorageAccountRow
  pub jobs : List DeletionJobRow

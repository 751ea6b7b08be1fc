-- ===== src/Attachments/Types.antt =====
-- The rows of src/server/db/schema/chat-storage.ts that src/server/chat-attachments and
-- src/worker/chat-storage.ts read and write, and the types of src/server/chat-attachments/service.ts.
-- Identifiers are numbers, times are milliseconds.
use openvac_web.Prelude.{ℕ, String, Bool, Option, List}
use openvac_web.Runs.Storage.{
  DeletionJobStatus, StorageQuotaState, StorageDeletionStatus, ArtifactRow, ArtifactFileRow,
}

pub data AttachmentKind : Type 0 where
  document image : AttachmentKind

pub data AttachmentStatus : Type 0 where
  initiated uploading scanning processing ready failed deleted : AttachmentStatus

pub data ChatAttachmentParseStatus : Type 0 where
  not_required parse_queued parse_processing parse_ready parse_failed : ChatAttachmentParseStatus

-- `locator` and `metadata` of a chunk: the row or the characters that it came from.
pub data Locator : Type 0 where
  page_range : ℕ → ℕ → ℕ → Locator
  text_lines : Bool → ℕ → ℕ → Locator
  csv_rows : ℕ → ℕ → Locator
  csv_row : ℕ → Locator

-- A row of `chat_attachment`.
pub record AttachmentRow : Type 0 where
  pub id : ℕ
  pub user_id : String
  pub conversation_id : ℕ
  pub message_id : Option ℕ
  pub kind : AttachmentKind
  pub status : AttachmentStatus
  pub parse_status : ChatAttachmentParseStatus
  pub quota_state : StorageQuotaState
  pub deletion_status : StorageDeletionStatus
  pub filename : String
  pub mime_type : String
  pub declared_size_bytes : ℕ
  pub size_bytes : Option ℕ
  pub sha256 : String
  pub object_key : String
  pub upload_expires_at : ℕ
  pub orphan_expires_at : ℕ
  pub bound_at : Option ℕ
  pub ready_at : Option ℕ
  pub failure_code : Option String
  pub created_at : ℕ
  pub parse_job_id : Option String
  pub parse_attempts : ℕ
  pub parse_max_attempts : ℕ
  pub parse_poll_count : ℕ
  pub parse_submitted_at : Option ℕ
  pub parse_run_at : ℕ
  pub parse_locked_at : Option ℕ
  pub parse_locked_by : Option String
  pub parse_lease_token : Option ℕ

-- A row of `chat_storage_account`.
pub record StorageAccount : Type 0 where
  pub user_id : String
  pub used_bytes : ℕ
  pub reserved_bytes : ℕ
  pub limit_bytes : ℕ

pub data StorageObjectType : Type 0 where
  attachment_object artifact_object : StorageObjectType

-- A row of `chat_storage_deletion_job`.
pub record DeletionJob : Type 0 where
  pub id : ℕ
  pub user_id : String
  pub object_type : StorageObjectType
  pub source_id : ℕ
  pub object_key : String
  pub status : DeletionJobStatus
  pub attempts : ℕ
  pub max_attempts : ℕ
  pub run_at : ℕ
  pub created_at : ℕ
  pub locked_at : Option ℕ
  pub locked_by : Option String
  pub lease_token : Option ℕ
  pub completed_at : Option ℕ

-- A row of `chat_attachment_chunk`.
pub record ChunkRow : Type 0 where
  pub attachment_id : ℕ
  pub ordinal : ℕ
  pub content : List ℕ
  pub locator : Locator

-- The columns of `user`, `conversation` and `message` that the queries here read.
pub record OwnerRow : Type 0 where
  pub id : String
  pub deletion_requested_at : Option ℕ

pub record ChatRow : Type 0 where
  pub id : ℕ
  pub user_id : String
  pub is_deleted : Bool
  pub deleted_at : Option ℕ

pub record UserMessageRow : Type 0 where
  pub id : ℕ
  pub conversation_id : ℕ
  pub user_id : String
  pub is_from_user : Bool

-- The tables. `next_id` is above every key that the database has made.
pub record ChatStorage : Type 0 where
  pub users : List OwnerRow
  pub conversations : List ChatRow
  pub messages : List UserMessageRow
  pub attachments : List AttachmentRow
  pub artifacts : List ArtifactRow
  pub files : List ArtifactFileRow
  pub accounts : List StorageAccount
  pub jobs : List DeletionJob
  pub chunks : List ChunkRow
  pub next_id : ℕ

-- What the transactions throw: the answers of the API, the refusals of the database and the worker's
-- own errors.
pub data StorageError : Type 0 where
  conversation_not_found attachment_not_found message_not_found : StorageError
  chat_storage_quota_exceeded : ℕ → ℕ → ℕ → StorageError
  attachment_state_conflict attachment_upload_mismatch : StorageError
  attachment_bind_invalid attachment_bind_conflict : StorageError
  unique_violation check_violation : StorageError
  stale_lease invalid_chunk_count : StorageError

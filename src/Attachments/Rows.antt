-- ===== src/Attachments/Rows.antt =====
-- The selects and the row updates that the transactions of
-- src/server/chat-attachments/repository.ts and src/worker/chat-storage.ts share.
use openvac_web.Prelude.{
  ℕ, ◌+◌, ◌-◌, String, Bool, true, false, not, ◌&&◌, Option, none, some, List, [], ◌∷◌, str_eq, leb,
  ◌==◌, if◌then◌else◌, any, first, Tx, ok, err,
}
use openvac_web.Runs.Storage.{
  StorageQuotaState, StorageDeletionStatus, bytes_reserved, bytes_committed, file_active,
  job_queued,
}
use openvac_web.Attachments.Types.{
  AttachmentStatus, AttachmentRow, StorageAccount, StorageObjectType, DeletionJob, ChatRow,
  ChatStorage, StorageError, initiated, uploading, scanning, check_violation,
}

abbrev pub is_reserved : StorageQuotaState → Bool
is_reserved bytes_reserved = true
is_reserved _ = false

abbrev pub is_committed : StorageQuotaState → Bool
is_committed bytes_committed = true
is_committed _ = false

abbrev pub is_active : StorageDeletionStatus → Bool
is_active file_active = true
is_active _ = false

abbrev pub is_scanning : AttachmentStatus → Bool
is_scanning scanning = true
is_scanning _ = false

-- `["initiated", "uploading"].includes(status)`
abbrev pub is_uploadable : AttachmentStatus → Bool
is_uploadable initiated = true
is_uploadable uploading = true
is_uploadable _ = false

abbrev pub is_null {ℓ} : {A : Type ℓ} → Option A → Bool
is_null none = true
is_null (some a) = false

-- The row with a key, and the row changed; `id` is the table's primary key.
unfoldable pub find_attachment : ℕ → List AttachmentRow → Option AttachmentRow
find_attachment id rows = first (λ (r : AttachmentRow). r.id == id) rows

unfoldable pub set_attachment :
    ℕ → (AttachmentRow → AttachmentRow) → List AttachmentRow → List AttachmentRow
set_attachment id change [] = []
set_attachment id change (r ∷ rs) =
    if r.id == id then change r ∷ rs else r ∷ set_attachment id change rs

unfoldable pub delete_attachment : ℕ → List AttachmentRow → List AttachmentRow
delete_attachment id [] = []
delete_attachment id (r ∷ rs) = if r.id == id then rs else r ∷ delete_attachment id rs

-- `c.user_id = $2 AND c.status <> 'deleted' AND c.deleted_at IS NULL`
unfoldable pub is_open_chat : String → ChatRow → Bool
is_open_chat user_id c = str_eq c.user_id user_id && (not c.is_deleted && is_null c.deleted_at)

-- The join with the conversation, for a row of the user's.
unfoldable pub is_owned : String → List ChatRow → AttachmentRow → Bool
unfolding is_open_chat
is_owned user_id chats r =
    str_eq r.user_id user_id
    && any (λ (c : ChatRow). c.id == r.conversation_id && is_open_chat user_id c) chats

-- `COALESCE(a.size_bytes, a.declared_size_bytes)`
unfoldable pub public_size : AttachmentRow → ℕ
public_size r = elim r.size_bytes [ none ↦ r.declared_size_bytes | some n ↦ n ]

unfoldable pub find_account : String → List StorageAccount → Option StorageAccount
find_account user_id accounts = first (λ (a : StorageAccount). str_eq a.user_id user_id) accounts

unfoldable pub set_account :
    String → (StorageAccount → StorageAccount) → List StorageAccount → List StorageAccount
set_account user_id change [] = []
set_account user_id change (a ∷ rest) =
    if str_eq a.user_id user_id then change a ∷ rest else a ∷ set_account user_id change rest

-- An update of `chat_storage_account` that takes `held` off the reserved bytes and adds `added` of
-- them and `used` used ones. The check `chat_storage_account_bytes_valid` refuses a negative count
-- and a sum above the limit.
unfoldable pub move_bytes : String → ℕ → ℕ → ℕ → Tx ChatStorage StorageError (Unit {0})
unfolding find_account set_account
move_bytes user_id held added used s = elim (find_account user_id s.accounts) [
  | none ↦ ok (tt, s)
  | some a ↦
      if leb held a.reserved_bytes
        && leb (a.used_bytes + used + (a.reserved_bytes + added - held)) a.limit_bytes
      then ok (
        tt,
        record s {
          accounts =
              set_account user_id
                (λ (b : StorageAccount). record b {
                  reserved_bytes = b.reserved_bytes + added - held;
                  used_bytes = b.used_bytes + used;
                })
                s.accounts;
        },
      )
      else err check_violation
]

-- `GREATEST(used_bytes - used, 0)` and `GREATEST(reserved_bytes - held, 0)`.
unfoldable pub give_back : String → ℕ → ℕ → ChatStorage → ChatStorage
unfolding set_account
give_back user_id used held s = record s {
  accounts =
      set_account user_id
        (λ (b : StorageAccount). record b {
          used_bytes = b.used_bytes - used;
          reserved_bytes = b.reserved_bytes - held;
        })
        s.accounts;
}

-- `INSERT INTO chat_storage_deletion_job … ON CONFLICT (object_key) DO NOTHING`
unfoldable pub queue_deletion :
    String → StorageObjectType → ℕ → String → ℕ → ℕ → ChatStorage → ChatStorage
queue_deletion user_id object_type source_id object_key run_at now s =
    if any (λ (j : DeletionJob). str_eq j.object_key object_key) s.jobs then s else record s {
      jobs =
          record {
            id = s.next_id;
            user_id = user_id;
            object_type = object_type;
            source_id = source_id;
            object_key = object_key;
            status = job_queued;
            attempts = 0;
            max_attempts = 5;
            run_at = run_at;
            created_at = now;
            locked_at = none;
            locked_by = none;
            lease_token = none;
            completed_at = none;
          }
          ∷ s.jobs;
      next_id = s.next_id + 1;
    }

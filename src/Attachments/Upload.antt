-- ===== src/Attachments/Upload.antt =====
-- src/server/chat-attachments/repository.ts: `initiate`.
use openvac_web.Prelude.{
  ℕ, ◌+◌, ◌*◌, String, Bool, ◌&&◌, ◌||◌, none, some, ◌∷◌, str_eq, ltb, ◌==◌, if◌then◌else◌, any, Tx,
  ◌>>=◌, ◌>>◌, pure, require, gets, modify, ok, err,
}
use openvac_web.Attachments.Types.{
  AttachmentKind, AttachmentRow, OwnerRow, ChatRow, ChatStorage, StorageError, document, image,
  initiated, not_required, parse_queued, conversation_not_found, chat_storage_quota_exceeded,
  unique_violation, check_violation,
}
use openvac_web.Runs.Storage.{bytes_reserved, file_active}
use openvac_web.Attachments.Rows.{is_null, is_open_chat, find_account, move_bytes}

-- `MAX_CHAT_STORAGE_BYTES`, the default of `limit_bytes`.
abbrev pub max_chat_storage_bytes : ℕ
max_chat_storage_bytes = 500 * 1024 * 1024

pub record InitiateInput : Type 0 where
  pub id : ℕ
  pub user_id : String
  pub conversation_id : ℕ
  pub kind : AttachmentKind
  pub filename : String
  pub mime_type : String
  pub declared_size_bytes : ℕ
  pub sha256 : String
  pub object_key : String
  pub upload_expires_at : ℕ
  pub orphan_expires_at : ℕ

unfoldable pub new_attachment : InitiateInput → ℕ → AttachmentRow
new_attachment input now = record {
  id = input.id;
  user_id = input.user_id;
  conversation_id = input.conversation_id;
  message_id = none;
  kind = input.kind;
  status = initiated;
  parse_status = elim input.kind [ image ↦ not_required | document ↦ parse_queued ];
  quota_state = bytes_reserved;
  deletion_status = file_active;
  filename = input.filename;
  mime_type = input.mime_type;
  declared_size_bytes = input.declared_size_bytes;
  size_bytes = none;
  sha256 = input.sha256;
  object_key = input.object_key;
  upload_expires_at = input.upload_expires_at;
  orphan_expires_at = input.orphan_expires_at;
  bound_at = none;
  ready_at = none;
  failure_code = none;
  created_at = now;
  parse_job_id = none;
  parse_attempts = 0;
  parse_max_attempts = 3;
  parse_poll_count = 0;
  parse_submitted_at = none;
  parse_run_at = now;
  parse_locked_at = none;
  parse_locked_by = none;
  parse_lease_token = none;
}

-- The insert, refused for a key that is taken: `id` and `object_key` are unique.
unfoldable pub insert_attachment : AttachmentRow → Tx ChatStorage StorageError (Unit {0})
insert_attachment row s =
    if any (λ (r : AttachmentRow). r.id == row.id || str_eq r.object_key row.object_key)
      s.attachments
    then err unique_violation
    else ok (tt, record s { attachments = row ∷ s.attachments })

-- `INSERT INTO chat_storage_account … ON CONFLICT (user_id) DO NOTHING`
unfoldable pub open_account : String → ChatStorage → ChatStorage
open_account user_id s = elim (find_account user_id s.accounts) [
  | some a ↦ s
  | none ↦ record s {
    accounts =
        record {
          user_id = user_id;
          used_bytes = 0;
          reserved_bytes = 0;
          limit_bytes = max_chat_storage_bytes;
        }
        ∷ s.accounts;
  }
]

unfoldable pub is_writable_owner : String → OwnerRow → Bool
is_writable_owner user_id u = str_eq u.id user_id && is_null u.deletion_requested_at

-- The locked row of the account, which `open_account` has made sure of.
unfoldable pub check_space : InitiateInput → Tx ChatStorage StorageError (Unit {0})
check_space input s = elim (find_account input.user_id s.accounts) [
  | none ↦ err check_violation
  | some a ↦
      if ltb a.limit_bytes (a.used_bytes + a.reserved_bytes + input.declared_size_bytes)
      then err (chat_storage_quota_exceeded a.used_bytes a.reserved_bytes a.limit_bytes)
      else ok (tt, s)
]

unfoldable pub initiate : InitiateInput → ℕ → Tx ChatStorage StorageError AttachmentRow
unfolding new_attachment insert_attachment open_account is_writable_owner check_space is_open_chat
    move_bytes
initiate input now = do
  users ← gets (λ (s : ChatStorage). s.users)
  require (any (is_writable_owner input.user_id) users) conversation_not_found
  chats ← gets (λ (s : ChatStorage). s.conversations)
  require
      (any (λ (c : ChatRow). c.id == input.conversation_id && is_open_chat input.user_id c) chats)
      conversation_not_found
  modify (open_account input.user_id)
  check_space input
  insert_attachment (new_attachment input now)
  move_bytes input.user_id 0 input.declared_size_bytes 0
  pure (new_attachment input now)

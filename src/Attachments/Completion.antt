-- ===== src/Attachments/Completion.antt =====
-- The completion of an upload in src/server/chat-attachments/repository.ts: `beginCompletion`,
-- `completeVerified`, `resetCompletion` and `rejectCompletion`. The rows of the model are typed, so
-- `parseView` and `parseTarget` refuse none of them.
use openvac_web.Prelude.{
  ℕ, String, Bool, true, false, ◌&&◌, none, some, str_eq, ◌==◌, if◌then◌else◌, Tx, ◌>>=◌, ◌>>◌,
  pure, require, gets, modify, ok, err,
}
use openvac_web.Attachments.Types.{
  AttachmentRow, ChatStorage, StorageError, document, image, initiated, scanning, processing, ready,
  failed, not_required, parse_queued, parse_failed, attachment_object, attachment_not_found,
  attachment_state_conflict, attachment_upload_mismatch,
}
use openvac_web.Runs.Storage.{bytes_committed, bytes_released, file_queued}
use openvac_web.Attachments.Rows.{
  is_reserved, is_committed, is_active, is_scanning, is_uploadable, find_attachment, set_attachment,
  is_owned, move_bytes, queue_deletion,
}

-- The row of `WHERE a.id = $1 AND …`.
unfoldable pub locked_row :
    ℕ → (AttachmentRow → Bool) → StorageError → Tx ChatStorage StorageError AttachmentRow
locked_row id test missing s = elim (find_attachment id s.attachments) [
  | none ↦ err missing
  | some r ↦ if test r then ok (r, s) else err missing
]

unfoldable pub update_attachment :
    ℕ → (AttachmentRow → AttachmentRow) → Tx ChatStorage StorageError (Unit {0})
update_attachment id change s =
    ok (tt, record s { attachments = set_attachment id change s.attachments })

unfoldable pub begun : AttachmentRow → AttachmentRow
begun r = record r { status = scanning; failure_code = none }

unfoldable pub start_completion :
    ℕ → AttachmentRow → Tx ChatStorage StorageError (AttachmentRow × Bool)
unfolding begun update_attachment
start_completion attachment_id target = do
  require
      (is_reserved target.quota_state
        && (is_active target.deletion_status && is_uploadable target.status))
      attachment_state_conflict
  update_attachment attachment_id begun
  pure (record target { status = scanning }, false)

-- The target, with `alreadyComplete`.
unfoldable pub begin_completion : ℕ → String → Tx ChatStorage StorageError (AttachmentRow × Bool)
unfolding is_owned locked_row start_completion
begin_completion attachment_id user_id = do
  chats ← gets (λ (s : ChatStorage). s.conversations)
  target ← locked_row attachment_id (is_owned user_id chats) attachment_not_found
  if is_committed target.quota_state
      then pure (target, true)
      else start_completion attachment_id target

pub record VerifiedInput : Type 0 where
  pub attachment_id : ℕ
  pub user_id : String
  pub size_bytes : ℕ

-- `status = 'scanning' AND quota_state = 'reserved'`
unfoldable pub is_verifying : String → AttachmentRow → Bool
is_verifying user_id r =
    str_eq r.user_id user_id && (is_scanning r.status && is_reserved r.quota_state)

unfoldable pub verified : ℕ → ℕ → AttachmentRow → AttachmentRow
verified size now r = record r {
  size_bytes = some size;
  quota_state = bytes_committed;
  status = elim r.kind [ image ↦ ready | document ↦ processing ];
  parse_status = elim r.kind [ image ↦ not_required | document ↦ parse_queued ];
  ready_at = elim r.kind [ image ↦ some now | document ↦ none ];
  parse_run_at = now;
}

unfoldable pub complete_verified : VerifiedInput → ℕ → Tx ChatStorage StorageError AttachmentRow
unfolding is_verifying verified locked_row update_attachment move_bytes
complete_verified input now = do
  target ←
      locked_row input.attachment_id
        (λ r. is_verifying input.user_id r && is_active r.deletion_status) attachment_state_conflict
  require (target.declared_size_bytes == input.size_bytes) attachment_upload_mismatch
  move_bytes input.user_id target.declared_size_bytes 0 input.size_bytes
  update_attachment input.attachment_id (verified input.size_bytes now)
  pure (verified input.size_bytes now target)

unfoldable pub reset_completion : ℕ → String → ChatStorage → ChatStorage
unfolding is_verifying
reset_completion attachment_id user_id s = record s {
  attachments =
      set_attachment attachment_id
        (λ (r : AttachmentRow).
          if is_verifying user_id r && is_active r.deletion_status
          then record r { status = initiated }
          else r)
        s.attachments;
}

unfoldable pub rejected : String → AttachmentRow → AttachmentRow
rejected code r = record r {
  status = failed;
  parse_status = parse_failed;
  quota_state = bytes_released;
  deletion_status = file_queued;
  failure_code = some code;
}

unfoldable pub reject_row :
    String → String → ℕ → ℕ → AttachmentRow → Tx ChatStorage StorageError (Unit {0})
unfolding rejected update_attachment move_bytes queue_deletion
reject_row user_id code attachment_id now target = do
  move_bytes user_id target.declared_size_bytes 0 0
  update_attachment attachment_id (rejected code)
  modify (queue_deletion user_id attachment_object attachment_id target.object_key now now)

-- An attachment that is not being verified is left alone.
unfoldable pub reject_completion : ℕ → String → String → ℕ → Tx ChatStorage StorageError (Unit {0})
unfolding is_verifying reject_row
reject_completion attachment_id user_id code now s =
    elim (find_attachment attachment_id s.attachments) [
      | none ↦ ok (tt, s)
      | some target ↦
          if is_verifying user_id target
          then reject_row user_id code attachment_id now target s
          else ok (tt, s)
    ]

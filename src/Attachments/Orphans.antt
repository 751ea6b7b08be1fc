-- ===== src/Attachments/Orphans.antt =====
-- `enqueueExpiredOrphans` of src/worker/chat-storage.ts.
use openvac_web.Prelude.{
  ℕ, Bool, not, ◌&&◌, ◌||◌, none, some, List, [], ◌∷◌, ltb, leb, ◌==◌, if◌then◌else◌, length, any,
  select, sort, take,
}
use openvac_web.Attachments.Types.{AttachmentRow, ChatStorage, attachment_object}
use openvac_web.Attachments.Rows.{
  is_reserved, is_committed, is_active, is_null, delete_attachment, give_back, queue_deletion,
}

unfoldable pub is_expired_orphan : ℕ → AttachmentRow → Bool
is_expired_orphan now r =
    is_null r.message_id && (is_active r.deletion_status && leb r.orphan_expires_at now)

-- `ORDER BY orphan_expires_at, created_at`
unfoldable pub orphan_order : AttachmentRow → AttachmentRow → Bool
orphan_order a b =
    ltb a.orphan_expires_at b.orphan_expires_at
    || (a.orphan_expires_at == b.orphan_expires_at && leb a.created_at b.created_at)

-- The rows that `SKIP LOCKED` passes over are an argument.
abbrev pub is_free_orphan : ℕ → List ℕ → AttachmentRow → Bool
is_free_orphan now locked r = is_expired_orphan now r && not (any (λ n. n == r.id) locked)

unfoldable pub expired_orphans : ℕ → List ℕ → ℕ → ChatStorage → List AttachmentRow
unfolding is_expired_orphan orphan_order
expired_orphans limit locked now s =
    take limit (sort orphan_order (select (is_free_orphan now locked) s.attachments))

unfoldable pub drop_orphan : ℕ → AttachmentRow → ChatStorage → ChatStorage
unfolding queue_deletion give_back
drop_orphan now r s =
    let queued = queue_deletion r.user_id attachment_object r.id r.object_key now now s in
    let size : ℕ = elim r.size_bytes [ none ↦ 0 | some n ↦ n ] in
    let given =
      give_back r.user_id (if is_committed r.quota_state then size else 0)
        (if is_reserved r.quota_state then r.declared_size_bytes else 0) queued in
    record given { attachments = delete_attachment r.id given.attachments }

unfoldable pub drop_orphans : ℕ → List AttachmentRow → ChatStorage → ChatStorage
drop_orphans now [] s = s
drop_orphans now (r ∷ rs) s = drop_orphans now rs (drop_orphan now r s)

-- The new state, and the count of the rows; a limit of zero is refused before.
unfoldable pub enqueue_expired_orphans : ℕ → List ℕ → ℕ → ChatStorage → ChatStorage × ℕ
unfolding expired_orphans drop_orphan drop_orphans
enqueue_expired_orphans limit locked now s =
    let rows = expired_orphans limit locked now s in (drop_orphans now rows s, length rows)

-- ===== src/Attachments/Binding.antt =====
-- src/server/chat-attachments/repository.ts: `findOwned`, `findOwnedObject`, `bindToMessage` and
-- `deleteUnbound`.
use openvac_web.Prelude.{
  ℕ, ◌+◌, String, Bool, true, false, not, ◌&&◌, Option, none, some, List, [], ◌∷◌, ◌++◌, map,
  str_eq, ltb, ◌==◌, if◌then◌else◌, length, any, select, Tx, ◌>>=◌, ◌>>◌, pure, require, gets,
  modify,
}
use openvac_web.Attachments.Types.{
  AttachmentStatus, ChatAttachmentParseStatus, AttachmentRow, ChatRow, UserMessageRow, ChatStorage,
  StorageError, ready, not_required, parse_ready, attachment_object, attachment_not_found,
  message_not_found, attachment_bind_invalid, attachment_bind_conflict,
}
use openvac_web.Attachments.Rows.{
  is_reserved, is_committed, is_active, is_null, find_attachment, delete_attachment, is_open_chat,
  is_owned, public_size, give_back, queue_deletion,
}
use openvac_web.Attachments.Completion.{locked_row}

-- `findOwned` and `findOwnedObject` select the same row.
unfoldable pub find_owned_object : ℕ → String → ChatStorage → Option AttachmentRow
unfolding is_owned find_attachment
find_owned_object attachment_id user_id s = elim (find_attachment attachment_id s.attachments) [
  | none ↦ none
  | some r ↦ if is_owned user_id s.conversations r then some r else none
]

pub record BindInput : Type 0 where
  pub attachment_ids : List ℕ
  pub conversation_id : ℕ
  pub message_id : ℕ
  pub user_id : String

-- A number is in a list.
abbrev pub contains : List ℕ → ℕ → Bool
contains ids id = any (λ n. n == id) ids

-- The members of a set, in the order of their first appearance from the back.
abbrev pub distinct : List ℕ → List ℕ
distinct [] = []
distinct (n ∷ ns) = let rest = distinct ns in if contains rest n then rest else n ∷ rest

unfoldable pub is_bound_to : BindInput → AttachmentRow → Bool
is_bound_to input r =
    str_eq r.user_id input.user_id
    && (r.conversation_id == input.conversation_id
        && elim r.message_id [ none ↦ false | some id ↦ id == input.message_id ])

-- `parse_status IN ('ready', 'not_required')`
abbrev pub is_parsed : ChatAttachmentParseStatus → Bool
is_parsed parse_ready = true
is_parsed not_required = true
is_parsed _ = false

abbrev pub is_ready : AttachmentStatus → Bool
is_ready ready = true
is_ready _ = false

-- The condition of the lock, but for the ids.
unfoldable pub is_bindable : BindInput → AttachmentRow → Bool
is_bindable input r =
    str_eq r.user_id input.user_id
    && (r.conversation_id == input.conversation_id
        && (is_committed r.quota_state
            && (is_active r.deletion_status
                && (is_ready r.status
                    && (is_parsed r.parse_status
                        && elim r.message_id [ none ↦ true | some id ↦ id == input.message_id ])))))

-- The condition of the update.
unfoldable pub is_named : BindInput → AttachmentRow → Bool
is_named input r =
    contains input.attachment_ids r.id
    && (str_eq r.user_id input.user_id && r.conversation_id == input.conversation_id)

unfoldable pub bind_row : BindInput → ℕ → AttachmentRow → AttachmentRow
unfolding is_named
bind_row input now r =
    if is_named input r
    then record r {
      message_id = some input.message_id;
      bound_at = elim r.bound_at [ none ↦ some now | some at ↦ some at ];
    }
    else r

unfoldable pub is_own_message : BindInput → List ChatRow → UserMessageRow → Bool
unfolding is_open_chat
is_own_message input chats m =
    m.id == input.message_id
    && (m.conversation_id == input.conversation_id
        && (str_eq m.user_id input.user_id
            && (m.is_from_user
                && any (λ (c : ChatRow). c.id == m.conversation_id && is_open_chat input.user_id c)
                    chats)))

-- With those that the message has already, at most five.
unfoldable pub few_enough : BindInput → List AttachmentRow → Bool
unfolding is_bound_to
few_enough input rows =
    let bound = map (λ (r : AttachmentRow). r.id) (select (is_bound_to input) rows) in
    not (ltb 5 (length (distinct (bound ++ input.attachment_ids))))

unfoldable pub all_bindable : BindInput → List AttachmentRow → Bool
unfolding is_bindable
all_bindable input rows =
    length (
      select (λ (r : AttachmentRow). contains input.attachment_ids r.id && is_bindable input r)
        rows)
    == length input.attachment_ids

unfoldable pub bind_rows : BindInput → ℕ → ChatStorage → ChatStorage
unfolding bind_row
bind_rows input now s = record s { attachments = map (bind_row input now) s.attachments }

unfoldable pub bind_to_message : BindInput → ℕ → Tx ChatStorage StorageError (List AttachmentRow)
unfolding few_enough all_bindable is_named bind_rows is_own_message
bind_to_message input now = do
  chats ← gets (λ (s : ChatStorage). s.conversations)
  messages ← gets (λ (s : ChatStorage). s.messages)
  require (any (is_own_message input chats) messages) message_not_found
  rows ← gets (λ (s : ChatStorage). s.attachments)
  require (few_enough input rows) attachment_bind_invalid
  require (all_bindable input rows) attachment_bind_conflict
  modify (bind_rows input now)
  pure (map (bind_row input now) (select (is_named input) rows))

unfoldable pub is_unbound : String → List ChatRow → AttachmentRow → Bool
unfolding is_owned
is_unbound user_id chats r =
    is_owned user_id chats r && (is_null r.message_id && is_active r.deletion_status)

-- An object that may still be uploaded is deleted a minute after its upload URL ends.
unfoldable pub deletion_time : AttachmentRow → ℕ → ℕ
deletion_time r now = if is_reserved r.quota_state then r.upload_expires_at + 60_000 else now

unfoldable pub delete_unbound : ℕ → String → ℕ → Tx ChatStorage StorageError (Unit {0})
unfolding is_unbound locked_row deletion_time queue_deletion give_back public_size
delete_unbound attachment_id user_id now = do
  chats ← gets (λ (s : ChatStorage). s.conversations)
  target ← locked_row attachment_id (is_unbound user_id chats) attachment_not_found
  modify (
      queue_deletion user_id attachment_object target.id target.object_key
        (deletion_time target now) now)
  modify (
      give_back user_id (if is_committed target.quota_state then public_size target else 0)
        (if is_reserved target.quota_state then target.declared_size_bytes else 0))
  modify (λ (s : ChatStorage). record s {
    attachments = delete_attachment attachment_id s.attachments;
  })

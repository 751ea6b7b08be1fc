-- ===== src/Attachments/Keys.antt =====
-- The rows of `chat_attachment` keep their keys and sizes in every transaction of
-- src/server/chat-attachments/repository.ts and in the worker's orphan sweep.
use openvac_web.Attachments.Orphans.{
  expired_orphans, drop_orphan, drop_orphans, enqueue_expired_orphans,
}
use openvac_web.Attachments.Binding.{
  BindInput, bind_row, is_own_message, few_enough, all_bindable, bind_rows, bind_to_message,
  deletion_time, delete_unbound,
}
use openvac_web.Attachments.Uploading.{locked_row-Ensures, reject_completion-Ensures}
use openvac_web.Prelude.{
  ℕ, String, ◌≡◌, refl, inl, inr, Bool, true, false, ◌&&◌, ◌||◌, List, [], ◌∷◌, arith, str_eq, ◌==◌,
  Bool-cases, any, All, Ensures, Ensures-bind, Ensures-mono, require-Ensures,
}
use openvac_web.Attachments.Rows.{
  is_reserved, is_committed, is_active, is_uploadable, set_attachment, delete_attachment,
  is_open_chat, move_bytes, give_back, queue_deletion,
}
use openvac_web.Attachments.Accounts.{sized, DistinctIds}
use openvac_web.Attachments.Upload.{
  InitiateInput, new_attachment, open_account, is_writable_owner, initiate,
}
use openvac_web.Attachments.Completion.{
  update_attachment, begun, start_completion, begin_completion, VerifiedInput, verified,
  complete_verified, reset_completion, rejected, reject_row, reject_completion,
}
use openvac_web.Attachments.Distinct.{
  All-delete, All-set, All-map, DistinctIds-delete, DistinctIds-set, DistinctIds-map,
}
use openvac_web.Attachments.Effects.{Moved, move_bytes-Ensures, queue_deletion_same}
use openvac_web.Attachments.Initiating.{check_space-Ensures, insert_attachment-Ensures}
use openvac_web.Attachments.Types.{
  AttachmentRow, StorageObjectType, ChatRow, ChatStorage, attachment_object, conversation_not_found,
  message_not_found, attachment_state_conflict, attachment_bind_invalid, attachment_bind_conflict,
}

-- What the table promises of its rows.
pub record KeepsRows (rows : List AttachmentRow) : Type 0 where
  pub sizes : All (λ r. sized r ≡ true) rows
  pub ids : DistinctIds rows

KeepsRows-set :
    (id : ℕ) (change : AttachmentRow → AttachmentRow) (rows : List AttachmentRow)
    → ((r : AttachmentRow) → (change r).id ≡ r.id)
    → ((r : AttachmentRow) → sized r ≡ true → sized (change r) ≡ true)
    → KeepsRows rows
    → KeepsRows (set_attachment id change rows)
KeepsRows-set id change rows same fits k = record {
  sizes = All-set (λ (r : AttachmentRow). sized r ≡ true) id change rows fits k.sizes;
  ids = DistinctIds-set change same id rows k.ids;
}

KeepsRows-delete :
    (id : ℕ) (rows : List AttachmentRow) → KeepsRows rows → KeepsRows (delete_attachment id rows)
KeepsRows-delete id rows k = record {
  sizes = All-delete (λ (r : AttachmentRow). sized r ≡ true) id rows k.sizes;
  ids = DistinctIds-delete id rows k.ids;
}

move_bytes-KeepsRows :
    (v : String) (h a n : ℕ) (s : ChatStorage)
    → KeepsRows s.attachments
    → Ensures (λ _ s'. KeepsRows s'.attachments) (move_bytes v h a n s)
move_bytes-KeepsRows v h a n s k =
    Ensures-mono (λ _ s'. Moved v h a n v s s') (λ _ s'. KeepsRows s'.attachments)
      (move_bytes v h a n s) (λ _ s' m. rw m.rows.attachments k) (move_bytes-Ensures v h a n v s)

free_id :
    (id : ℕ) (key : String) (rows : List AttachmentRow)
    → any (λ (r : AttachmentRow). r.id == id || str_eq r.object_key key) rows ≡ false
    → All (λ (q : AttachmentRow). (id == q.id) ≡ false) rows
free_id id key [] h = tt
free_id id key (x ∷ xs) h = (ground (arith, h), free_id id key xs (ground (arith, h)))

open_account_rows :
    (owner : String) (s : ChatStorage) → (open_account owner s).attachments ≡ s.attachments
unfolding open_account
open_account_rows owner s = ground arith

new_row-KeepsRows :
    (input : InitiateInput) (now : ℕ) (rows : List AttachmentRow)
    → any
        (λ (r : AttachmentRow).
          r.id == (new_attachment input now).id
          || str_eq r.object_key (new_attachment input now).object_key)
        rows
      ≡ false
    → KeepsRows rows
    → KeepsRows (new_attachment input now ∷ rows)
unfolding new_attachment
new_row-KeepsRows input now rows free k = record {
  sizes = (refl, k.sizes);
  ids = (free_id input.id input.object_key rows free, k.ids);
}

pub initiate-KeepsRows :
    (input : InitiateInput) (now : ℕ) (s : ChatStorage)
    → KeepsRows s.attachments
    → Ensures (λ _ s'. KeepsRows s'.attachments) (initiate input now s)
unfolding initiate
initiate-KeepsRows input now s k =
    let Q : AttachmentRow → ChatStorage → Type 0 = λ _ s'. KeepsRows s'.attachments in
    let row = new_attachment input now in
    let s1 = open_account input.user_id s in
    require-Ensures Q (any (is_writable_owner input.user_id) s.users) conversation_not_found _ s
      λ writable.
        require-Ensures Q
          (any (λ (c : ChatRow). c.id == input.conversation_id && is_open_chat input.user_id c)
            s.conversations)
          conversation_not_found _ s
          λ open_chat. check_space-Ensures Q input _ s1 (
            insert_attachment-Ensures Q row _ s1 λ free.
              let s2 = record s1 { attachments = row ∷ s1.attachments } in
              let k1 : KeepsRows s1.attachments = rw (open_account_rows input.user_id s) k in
              Ensures-bind (λ _ s'. KeepsRows s'.attachments) Q
                (move_bytes input.user_id 0 input.declared_size_bytes 0) _ s2
                (move_bytes-KeepsRows input.user_id 0 input.declared_size_bytes 0 s2
                  (new_row-KeepsRows input now s1.attachments free k1))
                λ _ s' _ k'. k')

pub begin_completion-KeepsRows :
    (id : ℕ) (owner : String) (s : ChatStorage)
    → KeepsRows s.attachments
    → Ensures (λ _ s'. KeepsRows s'.attachments) (begin_completion id owner s)
unfolding begin_completion start_completion update_attachment begun
begin_completion-KeepsRows id owner s k =
    let Q : AttachmentRow × Bool → ChatStorage → Type 0 = λ _ s'. KeepsRows s'.attachments in
    locked_row-Ensures Q id _ _ _ s λ r found passed.
      elim (Bool-cases (is_committed r.quota_state)) [
        | inl done ↦ rw done k
        | inr not_done ↦ rw not_done (
            require-Ensures Q
              (is_reserved r.quota_state && (is_active r.deletion_status && is_uploadable r.status))
              attachment_state_conflict _ s
              λ uploadable. KeepsRows-set id begun s.attachments (λ r. refl) (λ r h. h) k)
      ]

pub complete_verified-KeepsRows :
    (input : VerifiedInput) (now : ℕ) (s : ChatStorage)
    → KeepsRows s.attachments
    → Ensures (λ _ s'. KeepsRows s'.attachments) (complete_verified input now s)
unfolding complete_verified update_attachment verified
complete_verified-KeepsRows input now s k =
    let Q : AttachmentRow → ChatStorage → Type 0 = λ _ s'. KeepsRows s'.attachments in
    locked_row-Ensures Q input.attachment_id _ _ _ s λ r found passed.
      require-Ensures Q (r.declared_size_bytes == input.size_bytes) _ _ s λ same.
        Ensures-bind (λ _ s'. KeepsRows s'.attachments) Q
          (move_bytes input.user_id r.declared_size_bytes 0 input.size_bytes) _ s
          (move_bytes-KeepsRows input.user_id r.declared_size_bytes 0 input.size_bytes s k)
          λ _ s' _ k'.
            KeepsRows-set input.attachment_id (verified input.size_bytes now) s'.attachments
              (λ r. refl) (λ r h. refl) k'

pub reset_completion-KeepsRows :
    (id : ℕ) (owner : String) (s : ChatStorage)
    → KeepsRows s.attachments
    → KeepsRows (reset_completion id owner s).attachments
unfolding reset_completion
reset_completion-KeepsRows id owner s k =
    KeepsRows-set id _ s.attachments (λ r. ground arith) (λ r h. ground (arith, h)) k

queue_deletion-KeepsRows :
    (v : String) (t : StorageObjectType) (id : ℕ) (key : String) (at now : ℕ) (s : ChatStorage)
    → KeepsRows s.attachments
    → KeepsRows (queue_deletion v t id key at now s).attachments
queue_deletion-KeepsRows v t id key at now s k =
    rw (queue_deletion_same v t id key at now s).0.attachments k

reject_row-KeepsRows :
    (owner code : String) (id now : ℕ) (s : ChatStorage) (r : AttachmentRow)
    → KeepsRows s.attachments
    → Ensures (λ _ s'. KeepsRows s'.attachments) (reject_row owner code id now r s)
unfolding reject_row update_attachment rejected
reject_row-KeepsRows owner code id now s r k =
    Ensures-bind (λ _ s'. KeepsRows s'.attachments) (λ _ s'. KeepsRows s'.attachments)
      (move_bytes owner r.declared_size_bytes 0 0) _ s
      (move_bytes-KeepsRows owner r.declared_size_bytes 0 0 s k)
      λ _ s' _ k'.
        queue_deletion-KeepsRows owner attachment_object id r.object_key now now _
          (KeepsRows-set id (rejected code) s'.attachments (λ r. refl) (λ r h. refl) k')

pub reject_completion-KeepsRows :
    (id : ℕ) (owner code : String) (now : ℕ) (s : ChatStorage)
    → KeepsRows s.attachments
    → Ensures (λ _ s'. KeepsRows s'.attachments) (reject_completion id owner code now s)
reject_completion-KeepsRows id owner code now s k =
    reject_completion-Ensures (λ _ s'. KeepsRows s'.attachments) id owner code now s k
      λ r found passed. reject_row-KeepsRows owner code id now s r k

pub bind_to_message-KeepsRows :
    (input : BindInput) (now : ℕ) (s : ChatStorage)
    → KeepsRows s.attachments
    → Ensures (λ _ s'. KeepsRows s'.attachments) (bind_to_message input now s)
unfolding bind_to_message bind_rows bind_row
bind_to_message-KeepsRows input now s k =
    let Q : List AttachmentRow → ChatStorage → Type 0 = λ _ s'. KeepsRows s'.attachments in
    require-Ensures Q (any (is_own_message input s.conversations) s.messages) message_not_found _ s
      λ own. require-Ensures Q (few_enough input s.attachments) attachment_bind_invalid _ s λ few.
        require-Ensures Q (all_bindable input s.attachments) attachment_bind_conflict _ s
          λ all_there. record {
            sizes =
                All-map (λ (r : AttachmentRow). sized r ≡ true) (bind_row input now) s.attachments
                  (λ r h. ground (arith, h)) k.sizes;
            ids = DistinctIds-map (bind_row input now) (λ r. ground arith) s.attachments k.ids;
          }

pub delete_unbound-KeepsRows :
    (id : ℕ) (owner : String) (now : ℕ) (s : ChatStorage)
    → KeepsRows s.attachments
    → Ensures (λ _ s'. KeepsRows s'.attachments) (delete_unbound id owner now s)
unfolding delete_unbound give_back
delete_unbound-KeepsRows id owner now s k =
    locked_row-Ensures (λ _ s'. KeepsRows s'.attachments) id _ _ _ s
      λ r found passed. KeepsRows-delete id _ (
        queue_deletion-KeepsRows owner attachment_object r.id r.object_key (deletion_time r now) now
          s k)

drop_orphans-KeepsRows :
    (now : ℕ) (picked : List AttachmentRow) (s : ChatStorage)
    → KeepsRows s.attachments
    → KeepsRows (drop_orphans now picked s).attachments
unfolding drop_orphans drop_orphan give_back
drop_orphans-KeepsRows now [] s k = k
drop_orphans-KeepsRows now (r ∷ rs) s k = drop_orphans-KeepsRows now rs (drop_orphan now r s) (
    KeepsRows-delete r.id _
      (queue_deletion-KeepsRows r.user_id attachment_object r.id r.object_key now now s k))

pub enqueue_expired_orphans-KeepsRows :
    (limit : ℕ) (locked : List ℕ) (now : ℕ) (s : ChatStorage)
    → KeepsRows s.attachments
    → KeepsRows (enqueue_expired_orphans limit locked now s).0.attachments
unfolding enqueue_expired_orphans
enqueue_expired_orphans-KeepsRows limit locked now s k =
    drop_orphans-KeepsRows now (expired_orphans limit locked now s) s k

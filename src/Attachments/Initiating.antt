-- ===== src/Attachments/Initiating.antt =====
-- `initiate` of src/server/chat-attachments/repository.ts keeps the accounts.
use openvac_web.Prelude.{
  ℕ, ◌+◌, String, ◌≡◌, inl, inr, false, ◌&&◌, ◌||◌, ◌∷◌, arith, str_eq, eq_iff, ltb, ◌==◌,
  if◌then◌else◌, Bool-cases, Option-cases, any, Tx, ◌>>=◌, ◌>>◌, pure, Ensures, Ensures-bind,
  require-Ensures, ok, err,
}
use openvac_web.Attachments.Effects.{Moved, move_bytes-Ensures}
use openvac_web.Attachments.Rows.{is_null, is_open_chat, find_account, move_bytes}
use openvac_web.Attachments.Upload.{
  InitiateInput, new_attachment, insert_attachment, open_account, is_writable_owner, check_space,
  initiate,
}
use openvac_web.Attachments.Accounts.{used_by, held_by, Sound}
use openvac_web.Attachments.Types.{
  AttachmentRow, ChatRow, ChatStorage, StorageError, conversation_not_found,
  chat_storage_quota_exceeded, unique_violation, check_violation,
}

open_account-Sound :
    (u owner : String) (s : ChatStorage) → Sound u s → Sound u (open_account owner s)
unfolding open_account find_account
open_account-Sound u owner s v = record {
  used = ground (arith, v.used, eq_iff owner u);
  held = ground (arith, v.held, eq_iff owner u);
  within = ground (arith, v.within, eq_iff owner u);
}

open_account-there :
    (owner : String) (s : ChatStorage)
    → is_null (find_account owner (open_account owner s).accounts) ≡ false
unfolding open_account find_account
open_account-there owner s = ground (arith, eq_iff owner owner)

-- A row is added, and the bytes that it declares are booked as reserved.
added_row-Sound :
    (u owner : String) (row : AttachmentRow) (d : ℕ) (s s' : ChatStorage)
    → is_null (find_account owner s.accounts) ≡ false
    → ((u : String) → held_by u row ≡ (if str_eq owner u then d else 0))
    → ((u : String) → used_by u row ≡ 0)
    → Moved owner 0 d 0 u (record s { attachments = row ∷ s.attachments }) s'
    → Sound u s
    → Sound u s'
added_row-Sound u owner row d s s' there holds unused m v =
    let e = m.rows.attachments in
    let e' = m.rows.artifacts in
    let e'' = m.rows.files in
    record {
      used = ground (arith, e, e', e'', m.used, v.used, there, unused u);
      held = ground (arith, e, e', e'', m.reserved, v.held, there, holds u);
      within = m.within v.within;
    }

pub check_space-Ensures :
    {B : Type 0} (Q : B → ChatStorage → Type 0) (input : InitiateInput)
    (k : Tx ChatStorage StorageError B) (s : ChatStorage)
    → Ensures Q (k s)
    → Ensures Q ((check_space input >> k) s)
unfolding check_space
check_space-Ensures Q input k s h = elim (Option-cases (find_account input.user_id s.accounts)) [
  | inl missing ↦
      let e : check_space input s ≡ err check_violation = ground (arith, missing) in
      rw (e, ◌>>◌, ◌>>=◌, Ensures) tt
  | inr (a, found) ↦
      elim (Bool-cases
        (ltb a.limit_bytes (a.used_bytes + a.reserved_bytes + input.declared_size_bytes))) [
          | inl full ↦
              let e : check_space input s
                  ≡ err (chat_storage_quota_exceeded a.used_bytes a.reserved_bytes a.limit_bytes) =
                ground (arith, found, full) in
              rw (e, ◌>>◌, ◌>>=◌, Ensures) tt
          | inr fits ↦
              let e : check_space input s ≡ ok (tt, s) = ground (arith, found, fits) in
              rw (e, ◌>>◌, ◌>>=◌) h
        ]
]

pub insert_attachment-Ensures :
    {B : Type 0} (Q : B → ChatStorage → Type 0) (row : AttachmentRow)
    (k : Tx ChatStorage StorageError B) (s : ChatStorage)
    → (any
            (λ (r : AttachmentRow). r.id == row.id || str_eq r.object_key row.object_key)
            s.attachments
          ≡ false
        → Ensures Q (k (record s { attachments = row ∷ s.attachments })))
    → Ensures Q ((insert_attachment row >> k) s)
unfolding insert_attachment
insert_attachment-Ensures Q row k s h =
    elim (Bool-cases (
      any (λ (r : AttachmentRow). r.id == row.id || str_eq r.object_key row.object_key)
        s.attachments)) [
          | inl taken ↦
              let e : insert_attachment row s ≡ err unique_violation = ground (arith, taken) in
              rw (e, ◌>>◌, ◌>>=◌, Ensures) tt
          | inr free ↦
              let e : insert_attachment row s
                  ≡ ok (tt, record s { attachments = row ∷ s.attachments }) =
                ground (arith, free) in
              rw (e, ◌>>◌, ◌>>=◌) (h free)
        ]

reserve_row-Sound :
    (u : String) (input : InitiateInput) (now : ℕ) (s : ChatStorage)
    → is_null (find_account input.user_id s.accounts) ≡ false
    → Sound u s
    → Ensures
        (λ _ s'. Sound u s')
        ((do
          check_space input
          insert_attachment (new_attachment input now)
          move_bytes input.user_id 0 input.declared_size_bytes 0
          pure (new_attachment input now))
          s)
unfolding new_attachment
reserve_row-Sound u input now s there v =
    let row = new_attachment input now in
    let Q : AttachmentRow → ChatStorage → Type 0 = λ _ s'. Sound u s' in
    check_space-Ensures Q input _ s (
      insert_attachment-Ensures Q row _ s λ free.
        let s1 = record s { attachments = row ∷ s.attachments } in
        Ensures-bind (λ _ s'. Moved input.user_id 0 input.declared_size_bytes 0 u s1 s') Q
          (move_bytes input.user_id 0 input.declared_size_bytes 0) _ s1
          (move_bytes-Ensures input.user_id 0 input.declared_size_bytes 0 u s1)
          λ _ s' _ m.
            added_row-Sound u input.user_id row input.declared_size_bytes s s' there
              (λ w. ground arith) (λ w. ground arith) m v)

pub initiate-Sound :
    (u : String) (input : InitiateInput) (now : ℕ) (s : ChatStorage)
    → Sound u s
    → Ensures (λ _ s'. Sound u s') (initiate input now s)
unfolding initiate
initiate-Sound u input now s v =
    let Q : AttachmentRow → ChatStorage → Type 0 = λ _ s'. Sound u s' in
    require-Ensures Q (any (is_writable_owner input.user_id) s.users) conversation_not_found _ s
      λ writable.
        require-Ensures Q
          (any (λ (c : ChatRow). c.id == input.conversation_id && is_open_chat input.user_id c)
            s.conversations)
          conversation_not_found _ s
          λ open_chat.
            reserve_row-Sound u input now (open_account input.user_id s)
              (open_account-there input.user_id s) (open_account-Sound u input.user_id s v)

-- ===== src/Attachments/Uploading.antt =====
-- `initiate`, `beginCompletion`, `completeVerified`, `resetCompletion` and `rejectCompletion` of
-- src/server/chat-attachments/repository.ts keep the accounts.
use openvac_web.Attachments.Completion.{
  locked_row, update_attachment, begun, start_completion, begin_completion, VerifiedInput,
  is_verifying, verified, complete_verified, reset_completion, rejected, reject_row,
  reject_completion,
}
use openvac_web.Attachments.Types.{
  AttachmentRow, ChatStorage, StorageError, attachment_object, attachment_state_conflict,
}
use openvac_web.Attachments.Rows.{
  is_reserved, is_committed, is_active, is_uploadable, find_attachment, set_attachment, move_bytes,
}
use openvac_web.Attachments.Accounts.{used_by, held_by, Sound, total-set, total-set_same}
use openvac_web.Attachments.Effects.{Moved, no_account, move_bytes-Ensures, queue_deletion-Sound}
use openvac_web.Prelude.{
  ℕ, ◌+◌, ◌≤◌, String, ◌≡◌, refl, inl, inr, Bool, true, ◌&&◌, some, arith, eq_iff, ◌==◌, Bool-cases,
  Option-cases, and-eq-true, Tx, ◌>>=◌, Ensures, Ensures-bind, require-Ensures, ok, err,
}

-- A row gives up the bytes that it held after `n` of them are booked as used.
module _ (u owner : String) (id h n : ℕ) (change : AttachmentRow → AttachmentRow)
    (s s' : ChatStorage) {r : AttachmentRow} (found : find_attachment id s.attachments ≡ some r)
    (m : Moved owner h 0 n u s s') (mine : r.user_id ≡ owner)
    (same_user : (change r).user_id ≡ r.user_id) (holds : held_by owner r ≡ h)
    (holds_no_more : held_by owner (change r) ≡ 0)
    (uses : used_by owner (change r) ≡ used_by owner r + n) (room : n ≤ h) where
  set-Sound :
      Sound u s → Sound u (record s' { attachments = set_attachment id change s'.attachments })
  set-Sound v =
      let t = total-set (used_by u) id change s.attachments found in
      let t' = total-set (held_by u) id change s.attachments found in
      let e = m.rows.attachments in
      let e' = m.rows.artifacts in
      let e'' = m.rows.files in
      let alone = no_account owner u s in
      record {
        used = ground (
          arith,
          t,
          t',
          e,
          e',
          e'',
          m.used,
          v.used,
          v.held,
          uses,
          holds,
          holds_no_more,
          same_user,
          mine,
          eq_iff owner u,
          alone,
          room,
        );
        held = ground (
          arith,
          t,
          t',
          e,
          e',
          e'',
          m.reserved,
          v.used,
          v.held,
          uses,
          holds,
          holds_no_more,
          same_user,
          mine,
          eq_iff owner u,
          alone,
          room,
        );
        within = m.within v.within;
      }

-- What follows the select of a row may assume that it was found.
pub locked_row-Ensures :
    {B : Type 0} (Q : B → ChatStorage → Type 0) (id : ℕ) (test : AttachmentRow → Bool)
    (missing : StorageError) (f : AttachmentRow → Tx ChatStorage StorageError B) (s : ChatStorage)
    → ((r : AttachmentRow)
        → find_attachment id s.attachments ≡ some r
        → test r ≡ true
        → Ensures Q (f r s))
    → Ensures Q ((locked_row id test missing >>= f) s)
unfolding locked_row
locked_row-Ensures {B} Q id test missing f s k =
    elim (Option-cases (find_attachment id s.attachments)) [
      | inl none_there ↦
          let e : locked_row id test missing s ≡ err missing = rw (none_there, locked_row) refl in
          rw (e, ◌>>=◌, Ensures) tt
      | inr (r, found) ↦ elim (Bool-cases (test r)) [
        | inl passed ↦
            let e : locked_row id test missing s ≡ ok (r, s) = ground (arith, found, passed) in
            rw (e, ◌>>=◌) (k r found passed)
        | inr not_passed ↦
            let e : locked_row id test missing s ≡ err missing =
              ground (arith, found, not_passed) in
            rw (e, ◌>>=◌, Ensures) tt
      ]
    ]

verifying_row :
    (owner : String) (r : AttachmentRow)
    → (is_verifying owner r) ≡ true
    → (r.user_id ≡ owner) × (held_by owner r ≡ r.declared_size_bytes) × (used_by owner r ≡ 0)
unfolding is_verifying
verifying_row owner r h =
    let mine : r.user_id ≡ owner = (eq_iff r.user_id owner).0 (ground (arith, h)) in
    (mine, ground (arith, h), ground (arith, h))

verified_row :
    (owner : String) (size now : ℕ) (r : AttachmentRow)
    → r.user_id ≡ owner
    → (held_by owner (verified size now r) ≡ 0)
      × (used_by owner (verified size now r) ≡ size)
      × ((verified size now r).user_id ≡ r.user_id)
unfolding verified
verified_row owner size now r h = (ground arith, ground (arith, (eq_iff r.user_id owner).1 h), refl)

pub complete_verified-Sound :
    (u : String) (input : VerifiedInput) (now : ℕ) (s : ChatStorage)
    → Sound u s
    → Ensures (λ _ s'. Sound u s') (complete_verified input now s)
unfolding complete_verified update_attachment
complete_verified-Sound u input now s v =
    let Q : AttachmentRow → ChatStorage → Type 0 = λ _ s'. Sound u s' in
    locked_row-Ensures Q input.attachment_id _ _ _ s λ r found passed.
      require-Ensures Q (r.declared_size_bytes == input.size_bytes) _ _ s λ same.
        let (mine, holds, none_used) = verifying_row input.user_id r (and-eq-true _ _ passed).0 in
        let (free, uses, keeps) = verified_row input.user_id input.size_bytes now r mine in
        Ensures-bind (λ _ s'. Moved input.user_id r.declared_size_bytes 0 input.size_bytes u s s') Q
          (move_bytes input.user_id r.declared_size_bytes 0 input.size_bytes) _ s
          (move_bytes-Ensures input.user_id r.declared_size_bytes 0 input.size_bytes u s)
          λ _ s' _ m.
            set-Sound u input.user_id input.attachment_id r.declared_size_bytes input.size_bytes
              (verified input.size_bytes now) s s' found m mine keeps holds free
              (omega (arith, uses, none_used)) (ground (arith, same)) v

rejected_row :
    (owner code : String) (r : AttachmentRow)
    → used_by owner r ≡ 0
    → (held_by owner (rejected code r) ≡ 0)
      × (used_by owner (rejected code r) ≡ used_by owner r + 0)
      × ((rejected code r).user_id ≡ r.user_id)
unfolding rejected
rejected_row owner code r h = (ground arith, ground (arith, h), refl)

-- The end of a rejection, for a row that is being verified.
reject_row-Sound :
    (u owner code : String) (id now : ℕ) (s : ChatStorage) (r : AttachmentRow)
    → find_attachment id s.attachments ≡ some r
    → is_verifying owner r ≡ true
    → Sound u s
    → Ensures (λ _ s'. Sound u s') (reject_row owner code id now r s)
unfolding reject_row update_attachment
reject_row-Sound u owner code id now s r found passed v =
    let (mine, holds, none_used) = verifying_row owner r passed in
    let (free, uses, keeps) = rejected_row owner code r none_used in
    Ensures-bind (λ _ s'. Moved owner r.declared_size_bytes 0 0 u s s') (λ _ s'. Sound u s')
      (move_bytes owner r.declared_size_bytes 0 0) _ s
      (move_bytes-Ensures owner r.declared_size_bytes 0 0 u s)
      λ _ s' _ m. queue_deletion-Sound u owner attachment_object id r.object_key now now _ (
        set-Sound u owner id r.declared_size_bytes 0 (rejected code) s s' found m mine keeps holds
          free uses (omega arith) v)

-- A rejection leaves a row alone unless it is being verified.
pub reject_completion-Ensures :
    (Q : Unit {0} → ChatStorage → Type 0) (id : ℕ) (owner code : String) (now : ℕ) (s : ChatStorage)
    → Q tt s
    → ((r : AttachmentRow)
        → find_attachment id s.attachments ≡ some r
        → is_verifying owner r ≡ true
        → Ensures Q (reject_row owner code id now r s))
    → Ensures Q (reject_completion id owner code now s)
unfolding reject_completion
reject_completion-Ensures Q id owner code now s h k =
    elim (Option-cases (find_attachment id s.attachments)) [
      | inl missing ↦
          let e : reject_completion id owner code now s ≡ ok (tt, s) =
            rw (missing, reject_completion) refl in
          rw (e, Ensures) h
      | inr (r, found) ↦ elim (Bool-cases (is_verifying owner r)) [
        | inl passed ↦ rw (found, reject_completion, passed) (k r found passed)
        | inr not_passed ↦
            let e : reject_completion id owner code now s ≡ ok (tt, s) =
              rw (found, reject_completion, not_passed) refl in
            rw (e, Ensures) h
      ]
    ]

pub reject_completion-Sound :
    (u : String) (id : ℕ) (owner code : String) (now : ℕ) (s : ChatStorage)
    → Sound u s
    → Ensures (λ _ s'. Sound u s') (reject_completion id owner code now s)
reject_completion-Sound u id owner code now s v =
    reject_completion-Ensures (λ _ s'. Sound u s') id owner code now s v
      λ r found passed. reject_row-Sound u owner code id now s r found passed v

-- A change of a row that leaves its bytes as they are.
set_same-Sound :
    (u : String) (id : ℕ) (change : AttachmentRow → AttachmentRow) (s : ChatStorage)
    → ((r : AttachmentRow) → used_by u (change r) ≡ used_by u r)
    → ((r : AttachmentRow) → held_by u (change r) ≡ held_by u r)
    → Sound u s
    → Sound u (record s { attachments = set_attachment id change s.attachments })
set_same-Sound u id change s h k v = record {
  used = ground (arith, v.used, total-set_same (used_by u) id change s.attachments h);
  held = ground (arith, v.held, total-set_same (held_by u) id change s.attachments k);
  within = v.within;
}

pub reset_completion-Sound :
    (u : String) (id : ℕ) (owner : String) (s : ChatStorage)
    → Sound u s
    → Sound u (reset_completion id owner s)
unfolding reset_completion
reset_completion-Sound u id owner s v =
    set_same-Sound u id _ s (λ r. ground arith) (λ r. ground arith) v

start_completion-Sound :
    (u : String) (id : ℕ) (target : AttachmentRow) (s : ChatStorage)
    → Sound u s
    → Ensures (λ _ s'. Sound u s') (start_completion id target s)
unfolding start_completion update_attachment begun
start_completion-Sound u id target s v =
    require-Ensures (λ _ s'. Sound u s')
      (is_reserved target.quota_state
        && (is_active target.deletion_status && is_uploadable target.status))
      attachment_state_conflict _ s
      λ uploadable. set_same-Sound u id begun s (λ r. refl) (λ r. refl) v

pub begin_completion-Sound :
    (u : String) (id : ℕ) (owner : String) (s : ChatStorage)
    → Sound u s
    → Ensures (λ _ s'. Sound u s') (begin_completion id owner s)
unfolding begin_completion
begin_completion-Sound u id owner s v =
    locked_row-Ensures (λ _ s'. Sound u s') id _ _ _ s
      λ r found passed. elim (Bool-cases (is_committed r.quota_state)) [
        | inl done ↦ rw done v
        | inr not_done ↦ rw not_done (start_completion-Sound u id r s v)
      ]

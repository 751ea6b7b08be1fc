-- ===== src/Attachments/Removing.antt =====
-- `deleteUnbound` and `bindToMessage` of src/server/chat-attachments/repository.ts, and
-- `enqueueExpiredOrphans` of src/worker/chat-storage.ts, keep the accounts.
use openvac_web.Attachments.Orphans.{
  is_free_orphan, orphan_order, expired_orphans, drop_orphan, drop_orphans, enqueue_expired_orphans,
}
use openvac_web.Attachments.Distinct.{
  All-select, All-take, found-All, find-delete, Standing, DistinctIds-Standing, DistinctIds-select,
  DistinctIds-take, DistinctIds-sort,
}
use openvac_web.Prelude.{
  ℕ, String, ◌≡◌, refl, ap, ◌∙◌, true, false, some, List, [], ◌∷◌, arith, eq_iff, ◌==◌,
  if◌then◌else◌, any, select, sort, All, All-sort, take, Ensures, require-Ensures,
}
use openvac_web.Attachments.Effects.{
  GivenBack, give_back-GivenBack, queue_deletion_same, queue_deletion-Sound,
}
use openvac_web.Attachments.Rows.{
  is_reserved, is_committed, find_attachment, delete_attachment, is_owned, public_size, give_back,
  queue_deletion,
}
use openvac_web.Attachments.Binding.{
  BindInput, bind_row, is_own_message, few_enough, all_bindable, bind_rows, bind_to_message,
  is_unbound, deletion_time, delete_unbound,
}
use openvac_web.Attachments.Accounts.{
  stored_size, used_by, held_by, Sound, sized, DistinctIds, total-map_same, total-delete,
}
use openvac_web.Attachments.Uploading.{locked_row-Ensures}
use openvac_web.Attachments.Types.{
  AttachmentRow, ChatRow, ChatStorage, attachment_object, message_not_found,
  attachment_bind_invalid, attachment_bind_conflict,
}

-- A row goes, and its user gets its bytes back.
module _ (u owner : String) (id n h : ℕ) (s s' : ChatStorage) {r : AttachmentRow}
    (found : find_attachment id s.attachments ≡ some r) (g : GivenBack owner n h u s s')
    (mine : r.user_id ≡ owner) (uses : used_by owner r ≡ n) (holds : held_by owner r ≡ h) where
  delete-Sound :
      Sound u s → Sound u (record s' { attachments = delete_attachment id s'.attachments })
  delete-Sound v =
      let t = total-delete (used_by u) id s.attachments found in
      let t' = total-delete (held_by u) id s.attachments found in
      let e = g.rows.attachments in
      let e' = g.rows.artifacts in
      let e'' = g.rows.files in
      record {
        used = ground (arith, t, e, e', e'', g.used, v.used, uses, mine, eq_iff owner u);
        held = ground (arith, t', e, e', e'', g.reserved, v.held, holds, mine, eq_iff owner u);
        within = g.within v.within;
      }

owned_row :
    (owner : String) (chats : List ChatRow) (r : AttachmentRow)
    → is_unbound owner chats r ≡ true
    → r.user_id ≡ owner
unfolding is_unbound is_owned
owned_row owner chats r h = (eq_iff r.user_id owner).0 (ground (arith, h))

module _ (owner : String) (r : AttachmentRow) (mine : r.user_id ≡ owner)
    (fits : sized r ≡ true) where
  committed_bytes : used_by owner r ≡ (if is_committed r.quota_state then public_size r else 0)
  unfolding public_size
  committed_bytes = ground (arith, fits, (eq_iff r.user_id owner).1 mine)

reserved_bytes_of :
    (owner : String) (r : AttachmentRow)
    → r.user_id ≡ owner
    → held_by owner r ≡ (if is_reserved r.quota_state then r.declared_size_bytes else 0)
reserved_bytes_of owner r mine = ground (arith, (eq_iff r.user_id owner).1 mine)

stored_bytes :
    (r : AttachmentRow)
    → used_by r.user_id r ≡ (if is_committed r.quota_state then stored_size r else 0)
stored_bytes r = ground (arith, eq_iff r.user_id r.user_id)

pub delete_unbound-Sound :
    (u : String) (id : ℕ) (owner : String) (now : ℕ) (s : ChatStorage)
    → All (λ r. sized r ≡ true) s.attachments
    → Sound u s
    → Ensures (λ _ s'. Sound u s') (delete_unbound id owner now s)
unfolding delete_unbound
delete_unbound-Sound u id owner now s sizes v =
    locked_row-Ensures (λ _ s'. Sound u s') id _ _ _ s
      λ r found passed.
        let mine = owned_row owner s.conversations r passed in
        let fits = found-All (λ (r : AttachmentRow). sized r ≡ true) id s.attachments found sizes in
        let n = if is_committed r.quota_state then public_size r else 0 in
        let h = if is_reserved r.quota_state then r.declared_size_bytes else 0 in
        let at = deletion_time r now in
        let queued = queue_deletion owner attachment_object r.id r.object_key at now s in
        let same = (queue_deletion_same owner attachment_object r.id r.object_key at now s).0 in
        delete-Sound u owner id n h queued (give_back owner n h queued) {r = r}
          (rw same.attachments found) (give_back-GivenBack owner n h u queued) mine
          (committed_bytes owner r mine fits) (reserved_bytes_of owner r mine)
          (queue_deletion-Sound u owner attachment_object r.id r.object_key at now s v)

Standing-delete :
    (id : ℕ) (rows picked : List AttachmentRow)
    → All (λ (q : AttachmentRow). (id == q.id) ≡ false) picked
    → Standing rows picked
    → Standing (delete_attachment id rows) picked
Standing-delete id rows [] apart k = tt
Standing-delete id rows (q ∷ qs) apart k =
    (find-delete id q.id rows apart.0 ∙ k.0, Standing-delete id rows qs apart.1 k.1)

drop_orphan-Sound :
    (u : String) (now : ℕ) (r : AttachmentRow) (s : ChatStorage)
    → find_attachment r.id s.attachments ≡ some r
    → Sound u s
    → Sound u (drop_orphan now r s)
      × ((drop_orphan now r s).attachments ≡ delete_attachment r.id s.attachments)
unfolding drop_orphan
drop_orphan-Sound u now r s found v =
    let n = if is_committed r.quota_state then stored_size r else 0 in
    let h = if is_reserved r.quota_state then r.declared_size_bytes else 0 in
    let queued = queue_deletion r.user_id attachment_object r.id r.object_key now now s in
    let same = (queue_deletion_same r.user_id attachment_object r.id r.object_key now now s).0 in
    let g = give_back-GivenBack r.user_id n h u queued in
    (
      delete-Sound u r.user_id r.id n h queued (give_back r.user_id n h queued) {r = r}
          (rw same.attachments found) g refl (stored_bytes r) (reserved_bytes_of r.user_id r refl)
          (queue_deletion-Sound u r.user_id attachment_object r.id r.object_key now now s v),
      ap (delete_attachment r.id) (g.rows.attachments ∙ same.attachments),
    )

drop_orphans-Sound :
    (u : String) (now : ℕ) (picked : List AttachmentRow) (s : ChatStorage)
    → Standing s.attachments picked
    → DistinctIds picked
    → Sound u s
    → Sound u (drop_orphans now picked s)
unfolding drop_orphans
drop_orphans-Sound u now [] s k d v = v
drop_orphans-Sound u now (r ∷ rs) s k d v =
    let (v', e) = drop_orphan-Sound u now r s k.0 v in
    drop_orphans-Sound u now rs (drop_orphan now r s)
      (rw e (Standing-delete r.id s.attachments rs d.0 k.1)) d.1 v'

pub enqueue_expired_orphans-Sound :
    (u : String) (limit : ℕ) (locked : List ℕ) (now : ℕ) (s : ChatStorage)
    → DistinctIds s.attachments
    → Sound u s
    → Sound u (enqueue_expired_orphans limit locked now s).0
unfolding enqueue_expired_orphans expired_orphans
enqueue_expired_orphans-Sound u limit locked now s d v =
    let picked = select (is_free_orphan now locked) s.attachments in
    let sorted = sort orphan_order picked in
    drop_orphans-Sound u now (take limit sorted) s
      (All-take _ limit sorted (
        All-sort _ orphan_order picked (
          All-select _ (is_free_orphan now locked) s.attachments
            (DistinctIds-Standing s.attachments d))))
      (DistinctIds-take limit sorted (
        DistinctIds-sort orphan_order picked
          (DistinctIds-select (is_free_orphan now locked) s.attachments d)))
      v

bind_row_same :
    (u : String) (input : BindInput) (now : ℕ) (r : AttachmentRow)
    → (used_by u (bind_row input now r) ≡ used_by u r)
      × (held_by u (bind_row input now r) ≡ held_by u r)
unfolding bind_row
bind_row_same u input now r = (ground arith, ground arith)

bind_rows-Sound :
    (u : String) (input : BindInput) (now : ℕ) (s : ChatStorage)
    → Sound u s
    → Sound u (bind_rows input now s)
unfolding bind_rows
bind_rows-Sound u input now s v =
    let change = bind_row input now in
    let e =
      total-map_same (used_by u) change s.attachments (λ r. (bind_row_same u input now r).0) in
    let e' =
      total-map_same (held_by u) change s.attachments (λ r. (bind_row_same u input now r).1) in
    record {
      used = ground (arith, v.used, e);
      held = ground (arith, v.held, e');
      within = v.within;
    }

pub bind_to_message-Sound :
    (u : String) (input : BindInput) (now : ℕ) (s : ChatStorage)
    → Sound u s
    → Ensures (λ _ s'. Sound u s') (bind_to_message input now s)
unfolding bind_to_message
bind_to_message-Sound u input now s v =
    let Q : List AttachmentRow → ChatStorage → Type 0 = λ _ s'. Sound u s' in
    require-Ensures Q (any (is_own_message input s.conversations) s.messages) message_not_found _ s
      λ own. require-Ensures Q (few_enough input s.attachments) attachment_bind_invalid _ s λ few.
        require-Ensures Q (all_bindable input s.attachments) attachment_bind_conflict _ s
          λ all_there. bind_rows-Sound u input now s v

-- ===== src/Attachments/Ledger.antt =====
-- The accounts of src/server/chat-attachments over every transaction of its repository and the
-- worker's orphan sweep.
use openvac_web.Attachments.Rows.{find_account}
use openvac_web.Attachments.Keys.{
  KeepsRows, initiate-KeepsRows, begin_completion-KeepsRows, complete_verified-KeepsRows,
  reset_completion-KeepsRows, reject_completion-KeepsRows, bind_to_message-KeepsRows,
  delete_unbound-KeepsRows, enqueue_expired_orphans-KeepsRows,
}
use openvac_web.Prelude.{ℕ, String, ◌≡◌, true, List, [], ◌∷◌, All, after, Ensures-after}
use openvac_web.Attachments.Accounts.{
  used_total, held_total, used_of, reserved_of, WithinLimit, Sound, sized, DistinctIds,
}
use openvac_web.Attachments.Orphans.{enqueue_expired_orphans}
use openvac_web.Attachments.Upload.{InitiateInput, initiate}
use openvac_web.Attachments.Completion.{
  begin_completion, VerifiedInput, complete_verified, reset_completion, reject_completion,
}
use openvac_web.Attachments.Binding.{BindInput, bind_to_message, delete_unbound}
use openvac_web.Attachments.Initiating.{initiate-Sound}
use openvac_web.Attachments.Uploading.{
  complete_verified-Sound, reject_completion-Sound, reset_completion-Sound, begin_completion-Sound,
}
use openvac_web.Attachments.Removing.{
  delete_unbound-Sound, enqueue_expired_orphans-Sound, bind_to_message-Sound,
}
use openvac_web.Attachments.Types.{ChatStorage}

-- Valid tables: the counters of every user are the bytes of the rows, a committed row has a size,
-- and no two rows share an id.
pub record IsValid (s : ChatStorage) : Type 0 where
  pub sound : (u : String) → Sound u s
  pub sizes : All (λ r. sized r ≡ true) s.attachments
  pub ids : DistinctIds s.attachments

-- The operations on the tables; the error of one that throws is not a state.
pub data Operation : Type 0 where
  initiating : InitiateInput → Operation
  beginning : ℕ → String → Operation
  completing : VerifiedInput → Operation
  resetting : ℕ → String → Operation
  rejecting : ℕ → String → String → Operation
  binding : BindInput → Operation
  deleting : ℕ → String → Operation
  sweeping : ℕ → List ℕ → Operation

-- The tables after an operation at a time.
unfoldable pub perform : Operation → ℕ → ChatStorage → ChatStorage
perform (initiating input) now s = after s (initiate input now s)
perform (beginning id owner) now s = after s (begin_completion id owner s)
perform (completing input) now s = after s (complete_verified input now s)
perform (resetting id owner) now s = reset_completion id owner s
perform (rejecting id owner code) now s = after s (reject_completion id owner code now s)
perform (binding input) now s = after s (bind_to_message input now s)
perform (deleting id owner) now s = after s (delete_unbound id owner now s)
perform (sweeping limit locked) now s = (enqueue_expired_orphans limit locked now s).0

perform-Sound :
    (u : String) (op : Operation) (now : ℕ) (s : ChatStorage)
    → IsValid s
    → Sound u (perform op now s)
unfolding perform
perform-Sound u (initiating input) now s v =
    Ensures-after (Sound u) s (initiate input now s) (v.sound u)
      (initiate-Sound u input now s (v.sound u))
perform-Sound u (beginning id owner) now s v =
    Ensures-after (Sound u) s (begin_completion id owner s) (v.sound u)
      (begin_completion-Sound u id owner s (v.sound u))
perform-Sound u (completing input) now s v =
    Ensures-after (Sound u) s (complete_verified input now s) (v.sound u)
      (complete_verified-Sound u input now s (v.sound u))
perform-Sound u (resetting id owner) now s v = reset_completion-Sound u id owner s (v.sound u)
perform-Sound u (rejecting id owner code) now s v =
    Ensures-after (Sound u) s (reject_completion id owner code now s) (v.sound u)
      (reject_completion-Sound u id owner code now s (v.sound u))
perform-Sound u (binding input) now s v =
    Ensures-after (Sound u) s (bind_to_message input now s) (v.sound u)
      (bind_to_message-Sound u input now s (v.sound u))
perform-Sound u (deleting id owner) now s v =
    Ensures-after (Sound u) s (delete_unbound id owner now s) (v.sound u)
      (delete_unbound-Sound u id owner now s v.sizes (v.sound u))
perform-Sound u (sweeping limit locked) now s v =
    enqueue_expired_orphans-Sound u limit locked now s v.ids (v.sound u)

perform-KeepsRows :
    (op : Operation) (now : ℕ) (s : ChatStorage)
    → KeepsRows s.attachments
    → KeepsRows (perform op now s).attachments
unfolding perform
perform-KeepsRows (initiating input) now s k =
    Ensures-after (λ s. KeepsRows s.attachments) s (initiate input now s) k
      (initiate-KeepsRows input now s k)
perform-KeepsRows (beginning id owner) now s k =
    Ensures-after (λ s. KeepsRows s.attachments) s (begin_completion id owner s) k
      (begin_completion-KeepsRows id owner s k)
perform-KeepsRows (completing input) now s k =
    Ensures-after (λ s. KeepsRows s.attachments) s (complete_verified input now s) k
      (complete_verified-KeepsRows input now s k)
perform-KeepsRows (resetting id owner) now s k = reset_completion-KeepsRows id owner s k
perform-KeepsRows (rejecting id owner code) now s k =
    Ensures-after (λ s. KeepsRows s.attachments) s (reject_completion id owner code now s) k
      (reject_completion-KeepsRows id owner code now s k)
perform-KeepsRows (binding input) now s k =
    Ensures-after (λ s. KeepsRows s.attachments) s (bind_to_message input now s) k
      (bind_to_message-KeepsRows input now s k)
perform-KeepsRows (deleting id owner) now s k =
    Ensures-after (λ s. KeepsRows s.attachments) s (delete_unbound id owner now s) k
      (delete_unbound-KeepsRows id owner now s k)
perform-KeepsRows (sweeping limit locked) now s k =
    enqueue_expired_orphans-KeepsRows limit locked now s k

perform-IsValid :
    (op : Operation) (now : ℕ) (s : ChatStorage) → IsValid s → IsValid (perform op now s)
perform-IsValid op now s v =
    let k = perform-KeepsRows op now s (record { sizes = v.sizes; ids = v.ids }) in
    record { sound = λ u. perform-Sound u op now s v; sizes = k.sizes; ids = k.ids }

-- A schedule of operations, each at its time, in the order of their commits.
unfoldable pub perform_all : List (Operation × ℕ) → ChatStorage → ChatStorage
unfolding perform
perform_all [] s = s
perform_all ((op, now) ∷ ops) s = perform_all ops (perform op now s)

perform_all-IsValid :
    (ops : List (Operation × ℕ)) (s : ChatStorage) → IsValid s → IsValid (perform_all ops s)
unfolding perform_all
perform_all-IsValid [] s v = v
perform_all-IsValid ((op, now) ∷ ops) s v =
    perform_all-IsValid ops (perform op now s) (perform-IsValid op now s v)

-- After any sequence of uploads, completions, rejections, bindings, deletions and sweeps, whether
-- they succeed or throw, valid tables are valid again: every user's used bytes are exactly the
-- committed sizes of the attachments and artifact files that the user has, the reserved bytes
-- exactly those of the open uploads, and the two together stay within the user's limit.
pub storage_accounts_exact :
    (ops : List (Operation × ℕ)) (s : ChatStorage)
    → IsValid s
    → IsValid (perform_all ops s)
      × ((u : String)
          → (used_of (find_account u (perform_all ops s).accounts)
              ≡ used_total u (perform_all ops s))
            × (reserved_of (find_account u (perform_all ops s).accounts)
                ≡ held_total u (perform_all ops s))
            × WithinLimit (find_account u (perform_all ops s).accounts))
storage_accounts_exact ops s v =
    let w = perform_all-IsValid ops s v in
    (w, λ u. ((w.sound u).used, (w.sound u).held, (w.sound u).within))

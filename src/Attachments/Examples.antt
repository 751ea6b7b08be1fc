-- ===== src/Attachments/Examples.antt =====
-- The storage of src/server/chat-attachments and the workers of src/worker/chat-storage.ts at concrete
-- inputs.
use openvac_web.Prelude.{
  ℕ, ◌*◌, ◌≤◌, ◌<◌, String, ◌≡◌, refl, ◌⊎◌, Bool, true, false, none, some, List, [], ◌∷◌, length,
  All, ok, err,
}
use openvac_web.Attachments.Rows.{find_attachment, set_attachment, find_account}
use openvac_web.Attachments.Accounts.{used_total, held_total, used_of, reserved_of, WithinLimit}
use openvac_web.Attachments.Upload.{InitiateInput, new_attachment, initiate}
use openvac_web.Attachments.Completion.{begin_completion, complete_verified}
use openvac_web.Attachments.Queue.{
  ParseJob, claimed, parse_job, claim_attachment_parse, holds_lease, renew_attachment_lease,
  mark_parser_submitted, defer_parser_poll, max_chunks, PrivateAttachmentChunk,
  save_chunks_and_complete, mark_attachment_failed,
}
use openvac_web.Attachments.Fencing.{parse_lease_fenced}
use openvac_web.Attachments.Losing.{work_all, renewing}
use openvac_web.Attachments.Claims.{IsAwaiting, NotAfter, claim_takes_due}
use openvac_web.Attachments.Chunks.{
  max_chunk_characters, chunk_step, TextChunk, chunk_text, too_many_chunks,
}
use openvac_web.Attachments.Chunks.Cover.{chunk_text_complete}
use openvac_web.Attachments.Chunks.Pieces.{IsPiece, Covers}
use openvac_web.Attachments.Ledger.{
  IsValid, Operation, perform_all, storage_accounts_exact, initiating, beginning, completing,
}
use openvac_web.Runs.Storage.{bytes_committed}
use openvac_web.Attachments.Types.{
  AttachmentRow, OwnerRow, ChatRow, ChatStorage, document, processing, stale_lease,
}

abbrev ana : OwnerRow
ana = record { id = "ana"; deletion_requested_at = none }

abbrev chat : ChatRow
chat = record { id = 7; user_id = "ana"; is_deleted = false; deleted_at = none }

abbrev pub tables : ChatStorage
tables = record {
  users = ana ∷ [];
  conversations = chat ∷ [];
  messages = [];
  attachments = [];
  artifacts = [];
  files = [];
  accounts = [];
  jobs = [];
  chunks = [];
  next_id = 100;
}

abbrev report : InitiateInput
report = record {
  id = 1;
  user_id = "ana";
  conversation_id = 7;
  kind = document;
  filename = "report.csv";
  mime_type = "text/csv";
  declared_size_bytes = 1_000;
  sha256 = "00";
  object_key = "private/chat-attachments/1";
  upload_expires_at = 900;
  orphan_expires_at = 86_400;
}

abbrev schedule : List (Operation × ℕ)
schedule =
    (initiating report, 10)
    ∷ (beginning 1 "ana", 20)
    ∷ (completing (record { attachment_id = 1; user_id = "ana"; size_bytes = 1_000 }), 30)
    ∷ []

tables-IsValid : IsValid tables
unfolding find_account
tables-IsValid = record {
  sound = λ u. record { used = refl; held = refl; within = tt };
  sizes = tt;
  ids = tt;
}

-- The upload is booked as used.
uploaded : used_of (find_account "ana" (perform_all schedule tables).accounts) ≡ 1_000
unfolding find_account perform_all complete_verified find_attachment begin_completion initiate
    set_attachment
uploaded = refl

storage_accounts_exact_example :
    IsValid (perform_all schedule tables)
    × ((u : String)
        → (used_of (find_account u (perform_all schedule tables).accounts)
            ≡ used_total u (perform_all schedule tables))
          × (reserved_of (find_account u (perform_all schedule tables).accounts)
              ≡ held_total u (perform_all schedule tables))
          × WithinLimit (find_account u (perform_all schedule tables).accounts))
storage_accounts_exact_example = storage_accounts_exact schedule tables tables-IsValid

-- A document in the queue.
abbrev pub queued : AttachmentRow
queued = record (new_attachment report 10) {
  status = processing;
  quota_state = bytes_committed;
  size_bytes = some 1_000;
}

abbrev pub stored : ChatStorage
stored = record tables { attachments = queued ∷ [] }

-- A first worker claims it and falls silent; a second one claims it after the lease.
abbrev after_first : ChatStorage
after_first = (claim_attachment_parse "first" 41 50 [] stored).1

abbrev pub first_job : ParseJob
first_job = parse_job "first" 41 (claimed "first" 41 50 queued)

abbrev second_job : ParseJob
second_job = parse_job "second" 42 (claimed "second" 42 900_051 (claimed "first" 41 50 queued))

second_claim :
    claim_attachment_parse "second" 42 900_051 [] after_first
    ≡ (some second_job, (claim_attachment_parse "second" 42 900_051 [] after_first).1)
unfolding claim_attachment_parse new_attachment
second_claim = refl

abbrev pub later : ChatStorage
later = (claim_attachment_parse "second" 42 900_051 [] after_first).1

parse_lease_fenced_example :
    ((at : ℕ)
      → renew_attachment_lease first_job at (work_all (renewing second_job 900_060 ∷ []) later)
        ≡ err stale_lease)
    × ((pid : String) (retry at : ℕ)
        → mark_parser_submitted first_job pid retry at
            (work_all (renewing second_job 900_060 ∷ []) later)
          ≡ err stale_lease)
    × ((retry : ℕ)
        → defer_parser_poll first_job retry (work_all (renewing second_job 900_060 ∷ []) later)
          ≡ err stale_lease)
    × ((chunks : List PrivateAttachmentChunk) (at : ℕ)
        → 1 ≤ length chunks
        → length chunks ≤ max_chunks
        → save_chunks_and_complete first_job chunks at
            (work_all (renewing second_job 900_060 ∷ []) later)
          ≡ err stale_lease)
    × ((final : Bool) (retry : ℕ)
        → mark_attachment_failed first_job final retry
            (work_all (renewing second_job 900_060 ∷ []) later)
          ≡ err stale_lease)
unfolding parse_job claimed new_attachment
parse_lease_fenced_example =
    parse_lease_fenced first_job "second" 42 900_051 [] after_first second_claim refl refl
      (renewing second_job 900_060 ∷ []) (refl, tt)

claim_takes_due_example :
    ((r : AttachmentRow) × (claim_attachment_parse "first" 41 50 [] stored ≡ (
      some (parse_job "first" 41 (claimed "first" 41 50 r)),
      record stored {
        attachments = set_attachment r.id (claimed "first" 41 50) stored.attachments;
      },
    ))
      × IsAwaiting 50 [] r
      × All (λ q. (¬ IsAwaiting 50 [] q) ⊎ NotAfter r q) stored.attachments
      × (holds_lease (parse_job "first" 41 (claimed "first" 41 50 r)) (claimed "first" 41 50 r)
          ≡ true))
    ⊎ ((claim_attachment_parse "first" 41 50 [] stored ≡ (none, stored))
        × All (λ q. ¬ IsAwaiting 50 [] q) stored.attachments)
claim_takes_due_example = claim_takes_due "first" 41 50 [] stored

abbrev pub note : List ℕ
note = 32 ∷ 97 ∷ 98 ∷ 10 ∷ []

chunk_text_complete_example :
    ((chunk_text note ≡ err too_many_chunks) × (max_chunks * chunk_step < length note))
    ⊎ ((chunks : List TextChunk) × (chunk_text note ≡ ok chunks)
        × All (IsPiece max_chunk_characters note) chunks
        × Covers 0 note chunks)
chunk_text_complete_example = chunk_text_complete note

-- ===== src/Attachments/Worker/Examples.antt =====
-- The worker of src/worker/chat-storage.ts and its leases at concrete inputs.

use openvac_web.Attachments.Work.{
  Outside, WorkerOptions, parser_processing, completed_run, failed_run, database_error,
}
use openvac_web.Attachments.Losing.{WorkerOp, work, work_all, claiming, renewing, deferring}
use openvac_web.Attachments.Locks.{locks, LockRun}
use openvac_web.Attachments.Locks.Refinement.{leases_refine_locks}
use openvac_web.Attachments.Chunks.Numbers.{OkThat, Savable}
use openvac_web.Prelude.{
  ℕ, ◌+◌, ◌≡◌, refl, ◌≢◌, inr, true, false, none, some, List, [], ◌∷◌, arith, ok, err,
}
use openvac_web.Script.{is_space}
use openvac_web.Attachments.Rows.{find_attachment, set_attachment}
use openvac_web.Attachments.Upload.{new_attachment}
use openvac_web.Attachments.Queue.{
  ParseJob, is_claimable, claimed, parse_job, claim_attachment_parse, renew_attachment_lease,
  deferred, defer_parser_poll, PrivateAttachmentChunk, save_chunks_and_complete, parse_failure,
}
use openvac_web.Attachments.Chunks.{chunk_text}
use openvac_web.Attachments.Types.{AttachmentRow, ChatStorage, invalid_chunk_count, stale_lease}
use openvac_web.Attachments.Examples.{tables, queued, stored, first_job, note}
use openvac_web.Attachments.Worker.{
  with_attachment_lease, parse_attachment, run_parse, run_claimed, run_once,
}
use openvac_web.Attachments.Worker.Polling.{PollRound, poll_rounds, polling_ends}
use openvac_web.Attachments.Worker.Outcomes.{lost_run_writes_nothing}
use openvac_web.Attachments.Chunks.Savable.{document_chunks_saved}
use openvac_web.Attachments.Chunks.Documents.{
  ParsedPage, chunks_for_parsed_document, chunks_for_csv, chunks_for_local_text,
}
use openvac_web.Attachments.Deletions.{claim_deletion}

abbrev read_page : ParsedPage
read_page = record { markdown = some note; page_number = none }

document_chunks_saved_example :
    OkThat Savable (chunks_for_parsed_document (read_page ∷ []))
    × OkThat Savable (chunks_for_local_text some "text/csv" note)
    × ((chunks : List PrivateAttachmentChunk) (job : ParseJob) (now : ℕ) (s : ChatStorage)
        → Savable chunks
        → save_chunks_and_complete job chunks now s ≢ err invalid_chunk_count)
document_chunks_saved_example = document_chunks_saved (read_page ∷ []) some "text/csv" note

-- The parser is still at work, and nobody else writes.
abbrev outside : Outside
outside = record {
  delete_private = λ _. ok tt;
  get_private = λ _. ok note;
  pdf_text = λ _. ok none;
  create_download_url = λ _. ok "https://storage/1";
  submit = λ _ _. ok "parser-1";
  get_status = λ _. ok parser_processing;
  get_result = λ _. ok (read_page ∷ []);
  decode = some;
  meanwhile = λ s. s;
}

abbrev options : WorkerOptions
options = record {
  worker_id = "first";
  poll_interval_ms = 10;
  retry_delay_ms = 60;
  max_parser_polls = 2;
  max_parser_age_ms = 7_200_000;
}

-- The document goes through the deletions first, and is saved.
run_test : (run_once options outside 41 50 [] [] stored).0 ≡ ok completed_run
unfolding run_once claim_attachment_parse new_attachment run_claimed parse_attachment chunks_for_csv
    chunk_text is_space claim_deletion
run_test = refl

-- While the storage reads the document, another claim takes it over.
abbrev stolen : ChatStorage
stolen = record tables { attachments = claimed "second" 42 900_060 queued ∷ [] }

abbrev slow : Outside
slow = record outside { meanwhile = λ _. stolen }

abbrev taken : ChatStorage
taken = (claim_attachment_parse "first" 41 50 [] stored).1

abbrev renewed : ChatStorage
renewed = record taken {
  attachments =
      set_attachment first_job.id (λ (r : AttachmentRow). record r { parse_locked_at = some 60 })
        taken.attachments;
}

lost_run_writes_nothing_example :
    (run_parse options slow first_job 60 taken ≡ (ok failed_run, stolen))
    × (with_attachment_lease slow first_job 60 (ok note) taken
        ≡ (err (database_error stale_lease), stolen))
unfolding claim_attachment_parse new_attachment parse_job claimed find_attachment
    renew_attachment_lease
lost_run_writes_nothing_example =
    lost_run_writes_nothing options slow first_job 60 taken stolen note
      (inr (refl, (renewed, refl, refl))) refl

-- A scan that the parser works on, and two polls of it.
abbrev scan : AttachmentRow
scan = record queued { mime_type = "application/pdf"; parse_job_id = some "parser-1" }

abbrev rounds : List PollRound
rounds =
    record { worker = "first"; token = 41; now = 50; retry_at = 60 }
    ∷ record { worker = "second"; token = 42; now = 60; retry_at = 70 }
    ∷ []

abbrev third_claim : AttachmentRow
third_claim = claimed "first" 43 70 (poll_rounds rounds scan)

abbrev scanning : ChatStorage
scanning = record tables { attachments = third_claim ∷ [] }

polling_ends_example :
    (run_parse options outside (parse_job "first" 43 third_claim) 70 scanning ≡ (
      ok failed_run,
      record scanning {
        attachments = set_attachment 1 (parse_failure true 130) scanning.attachments;
      },
    ))
    × (find_attachment 1 (set_attachment 1 (parse_failure true 130) scanning.attachments)
        ≡ some (parse_failure true 130 third_claim))
    × ((later : ℕ) → is_claimable later (parse_failure true 130 third_claim) ≡ false)
    × (third_claim.parse_attempts ≡ scan.parse_attempts + 1)
unfolding new_attachment find_attachment claimed deferred
polling_ends_example =
    polling_ends options outside rounds scan 43 70 scanning refl refl (omega arith) refl

abbrev lease_ops : List WorkerOp
lease_ops = claiming "first" 41 50 [] ∷ renewing first_job 60 ∷ deferring first_job 70 ∷ []

leases_refine_locks_example : LockRun lease_ops (locks stored) (locks (work_all lease_ops stored))
leases_refine_locks_example = leases_refine_locks lease_ops stored (tt, tt)

-- The lease is held after the claim, and given back by the deferral.
lease_test :
    (locks (work_all (claiming "first" 41 50 [] ∷ []) stored) 1
      ≡ some (record { worker = "first"; token = 41; since = some 50 }))
    × (locks (work_all lease_ops stored) 1 ≡ none)
unfolding claim_attachment_parse new_attachment work_all claimed parse_job find_attachment
    renew_attachment_lease defer_parser_poll work
lease_test = (refl, refl)

-- ===== src/Attachments/Worker.antt =====
-- `runOnce`, `withAttachmentLease` and `assertParserPollingBudget` of src/worker/chat-storage.ts. What the
-- object storage, the PDF reader and the parser answer is an argument, and so is what the other
-- workers, and the heartbeat of the lease, commit while the worker waits for them. One time stands for
-- the clock of a run.
use openvac_web.Attachments.Work.{
  WorkError, ParserStatus, Outside, WorkerOptions, Outcome, Work, bind, transact, finish,
  fails_with, chunked, is_stale, is_final, provider_error, database_error, parser_pending,
  parser_processing, parser_failed, parser_succeeded, idle, deferred_run, completed_run, failed_run,
}
pub mod Outcomes
pub mod Examples
pub mod Polling
use openvac_web.Attachments.Deletions.{
  ChatStorageDeletionJob, claim_deletion, mark_deletion_succeeded, mark_deletion_failed,
}
use openvac_web.Attachments.Types.{ChatStorage, StorageError}
use openvac_web.Attachments.Queue.{
  ParseJob, claim_attachment_parse, renew_attachment_lease, mark_parser_submitted,
  defer_parser_poll, PrivateAttachmentChunk, save_chunks_and_complete, mark_attachment_failed,
}
use openvac_web.Attachments.Chunks.Documents.{
  ParsedPage, chunks_for_parsed_document, chunks_for_local_text,
}
use openvac_web.Prelude.{
  ℕ, ◌+◌, ◌-◌, String, Bool, false, ◌&&◌, ◌||◌, Option, none, some, List, str_eq, ltb, leb,
  if◌then◌else◌, Result, Tx, ok, err,
}

-- The wait, in which others commit, and the renewal after it.
unfoldable pub wait_and_renew :
    {A : Type 0} → Outside → ParseJob → ℕ → Result WorkError A → Unit {0} → Work A
unfolding renew_attachment_lease
wait_and_renew out job now answer started =
    bind (λ s. (answer, out.meanwhile s))
      λ a. bind (transact (renew_attachment_lease job now)) (λ _. finish a)

-- The lease is renewed before and after the wait.
unfoldable pub with_attachment_lease :
    {A : Type 0} → Outside → ParseJob → ℕ → Result WorkError A → Work A
unfolding renew_attachment_lease wait_and_renew
with_attachment_lease out job now answer =
    bind (transact (renew_attachment_lease job now)) (wait_and_renew out job now answer)

-- `assertParserPollingBudget`: true is within the budget.
unfoldable pub polling_allowed : WorkerOptions → ParseJob → ℕ → Bool
polling_allowed o job now =
    ltb job.parser_poll_count o.max_parser_polls
    && elim job.parser_submitted_at [ none ↦ false | some at ↦ leb (now - at) o.max_parser_age_ms ]

unfoldable pub save_and_complete : ParseJob → ℕ → List PrivateAttachmentChunk → Work Outcome
unfolding save_chunks_and_complete
save_and_complete job now chunks =
    bind (transact (save_chunks_and_complete job chunks now)) (λ _. finish completed_run)

abbrev pub is_local_text : String → Bool
is_local_text mime =
    str_eq mime "text/plain" || (str_eq mime "text/markdown" || str_eq mime "text/csv")

unfoldable pub parse_local_text : Outside → ParseJob → ℕ → Work Outcome
unfolding with_attachment_lease save_and_complete chunks_for_local_text
parse_local_text out job now =
    bind (with_attachment_lease out job now (out.get_private job.object_key)) λ bytes.
      bind (chunked (chunks_for_local_text out.decode job.mime_type bytes))
        (save_and_complete job now)

-- The text of a PDF, read here.
unfoldable pub pdf_answer : Outside → ParseJob → Result WorkError (Option (List ParsedPage))
pdf_answer out job = elim (out.get_private job.object_key) [
  | err e ↦ err e
  | ok bytes ↦ out.pdf_text bytes
]

-- The job that the parser starts for the object's URL.
unfoldable pub submit_answer : Outside → ParseJob → Result WorkError String
submit_answer out job = elim (out.create_download_url job.object_key) [
  | err e ↦ err e
  | ok url ↦ out.submit url job.filename
]

unfoldable pub submit_parse : WorkerOptions → Outside → ParseJob → ℕ → Work Outcome
unfolding with_attachment_lease submit_answer mark_parser_submitted
submit_parse o out job now =
    bind (with_attachment_lease out job now (submit_answer out job)) λ parser_job_id.
      bind (transact (mark_parser_submitted job parser_job_id (now + o.poll_interval_ms) now))
        (λ _. finish deferred_run)

unfoldable pub after_pdf :
    WorkerOptions → Outside → ParseJob → ℕ → Option (List ParsedPage) → Work Outcome
unfolding save_and_complete submit_parse chunks_for_parsed_document
after_pdf o out job now none = submit_parse o out job now
after_pdf o out job now (some pages) =
    bind (chunked (chunks_for_parsed_document pages)) (save_and_complete job now)

unfoldable pub start_parse : WorkerOptions → Outside → ParseJob → ℕ → Work Outcome
unfolding with_attachment_lease pdf_answer after_pdf submit_parse
start_parse o out job now =
    if str_eq job.mime_type "application/pdf"
    then bind (with_attachment_lease out job now (pdf_answer out job)) (after_pdf o out job now)
    else submit_parse o out job now

unfoldable pub take_result : Outside → ParseJob → String → ℕ → Work Outcome
unfolding with_attachment_lease save_and_complete chunks_for_parsed_document
take_result out job parser_job_id now =
    bind (with_attachment_lease out job now (out.get_result parser_job_id))
      λ pages. bind (chunked (chunks_for_parsed_document pages)) (save_and_complete job now)

unfoldable pub poll_again : WorkerOptions → ParseJob → ℕ → Work Outcome
unfolding defer_parser_poll
poll_again o job now =
    bind (transact (defer_parser_poll job (now + o.poll_interval_ms))) (λ _. finish deferred_run)

unfoldable pub after_status :
    WorkerOptions → Outside → ParseJob → String → ℕ → ParserStatus → Work Outcome
unfolding poll_again take_result
after_status o out job parser_job_id now parser_pending = poll_again o job now
after_status o out job parser_job_id now parser_processing = poll_again o job now
after_status o out job parser_job_id now parser_failed = fails_with (provider_error false)
after_status o out job parser_job_id now parser_succeeded = take_result out job parser_job_id now

unfoldable pub poll_parse : WorkerOptions → Outside → ParseJob → String → ℕ → Work Outcome
unfolding polling_allowed with_attachment_lease after_status
poll_parse o out job parser_job_id now =
    if polling_allowed o job now
    then bind (with_attachment_lease out job now (out.get_status parser_job_id))
        (after_status o out job parser_job_id now)
    else fails_with (provider_error false)

-- The body of the `try`. The identifiers that the parser gives are not empty.
unfoldable pub parse_attachment : WorkerOptions → Outside → ParseJob → ℕ → Work Outcome
unfolding parse_local_text start_parse poll_parse
parse_attachment o out job now =
    if is_local_text job.mime_type then parse_local_text out job now else elim job.parser_job_id [
      | none ↦ start_parse o out job now
      | some parser_job_id ↦ poll_parse o out job parser_job_id now
    ]

-- A lease that is lost by the time of the mark is passed over.
abbrev pub marked : Result StorageError (Unit {0} × ChatStorage) → Work Outcome
marked (ok (u, s')) s = (ok failed_run, s')
marked (err e) s =
    if is_stale (database_error e) then (ok failed_run, s) else (err (database_error e), s)

abbrev pub caught :
    (WorkError → Tx ChatStorage StorageError (Unit {0}))
    → Result WorkError Outcome × ChatStorage
    → Result WorkError Outcome × ChatStorage
caught mark (ok outcome, s) = (ok outcome, s)
caught mark (err e, s) = if is_stale e then (ok failed_run, s) else marked (mark e s) s

-- `try` and `catch`: an error that is not a lost lease is written to the row.
unfoldable pub try_run :
    Work Outcome → (WorkError → Tx ChatStorage StorageError (Unit {0})) → Work Outcome
try_run body mark s = caught mark (body s)

unfoldable pub delete_object : Outside → ChatStorageDeletionJob → ℕ → Work Outcome
unfolding mark_deletion_succeeded
delete_object out job now =
    bind (λ s. (out.delete_private job.object_key, out.meanwhile s))
      λ _. bind (transact (mark_deletion_succeeded job now)) (λ _. finish completed_run)

unfoldable pub run_deletion : WorkerOptions → Outside → ChatStorageDeletionJob → ℕ → Work Outcome
unfolding try_run delete_object mark_deletion_failed
run_deletion o out job now =
    try_run (delete_object out job now)
      λ e. mark_deletion_failed job (is_final e) (now + o.retry_delay_ms) now

unfoldable pub run_parse : WorkerOptions → Outside → ParseJob → ℕ → Work Outcome
unfolding try_run parse_attachment mark_attachment_failed
run_parse o out job now =
    try_run (parse_attachment o out job now)
      λ e. mark_attachment_failed job (is_final e) (now + o.retry_delay_ms)

unfoldable pub run_claimed_parse :
    WorkerOptions
    → Outside
    → ℕ
    → Option ParseJob × ChatStorage
    → Result WorkError Outcome × ChatStorage
unfolding run_parse
run_claimed_parse o out now (none, s) = (ok idle, s)
run_claimed_parse o out now (some job, s) = run_parse o out job now s

unfoldable pub run_claimed :
    WorkerOptions
    → Outside
    → ℕ
    → ℕ
    → List ℕ
    → Option ChatStorageDeletionJob × ChatStorage
    → Result WorkError Outcome × ChatStorage
unfolding run_deletion run_claimed_parse claim_attachment_parse
run_claimed o out token now locked (some job, s) = run_deletion o out job now s
run_claimed o out token now locked (none, s) =
    run_claimed_parse o out now (claim_attachment_parse o.worker_id token now locked s)

-- A deletion first, then a document.
unfoldable pub run_once : WorkerOptions → Outside → ℕ → ℕ → List ℕ → List ℕ → Work Outcome
unfolding run_claimed claim_deletion
run_once o out token now locked_jobs locked_rows s =
    run_claimed o out token now locked_rows (claim_deletion o.worker_id token now locked_jobs s)

-- ===== src/Attachments/Worker/Polling.antt =====
-- A document that the parser never finishes leaves the queue of src/worker/chat-storage.ts.
use openvac_web.Attachments.Work.{
  WorkError, Outside, WorkerOptions, is_final, provider_error, failed_run,
}
use openvac_web.Attachments.Leases.{held_update, find-set}
use openvac_web.Attachments.Claims.{claimed_lease}
use openvac_web.Attachments.Types.{AttachmentRow, ChatStorage}
use openvac_web.Attachments.Queue.{
  ParseJob, is_claimable, claimed, parse_job, holds_lease, leased_update, unlocked, deferred,
  is_terminal, parse_failure, mark_attachment_failed,
}
use openvac_web.Attachments.Rows.{find_attachment, set_attachment}
use openvac_web.Attachments.Worker.{
  polling_allowed, is_local_text, poll_parse, parse_attachment, marked, caught, try_run, run_parse,
}
use openvac_web.Prelude.{
  ℕ, ◌+◌, ◌≤◌, String, ◌≡◌, refl, sym, ap, subst, ◌∙◌, true, false, some, List, [], ◌∷◌, arith,
  length, ok, err,
}

-- A round in which a worker claims the row and finds the parser still at work: the worker, its token,
-- the time and the time of the next poll.
pub record PollRound : Type 0 where
  pub worker : String
  pub token : ℕ
  pub now : ℕ
  pub retry_at : ℕ

abbrev pub poll_rounds : List PollRound → AttachmentRow → AttachmentRow
poll_rounds [] r = r
poll_rounds (p ∷ ps) r = poll_rounds ps (deferred p.retry_at (claimed p.worker p.token p.now r))

poll_rounds-counts :
    (ps : List PollRound) (r : AttachmentRow)
    → ((poll_rounds ps r).parse_poll_count ≡ r.parse_poll_count + length ps)
      × ((poll_rounds ps r).parse_attempts ≡ r.parse_attempts)
      × ((poll_rounds ps r).parse_job_id ≡ r.parse_job_id)
      × ((poll_rounds ps r).mime_type ≡ r.mime_type)
      × ((poll_rounds ps r).id ≡ r.id)
unfolding deferred claimed unlocked
poll_rounds-counts [] r = (omega arith, refl, refl, refl, refl)
poll_rounds-counts (p ∷ ps) r =
    let (polls, attempts, job, mime, id) =
      poll_rounds-counts ps (deferred p.retry_at (claimed p.worker p.token p.now r)) in
    (omega (arith, polls), omega (arith, attempts), job, mime, id)

never_claimable :
    (at later : ℕ) (r : AttachmentRow) → is_claimable later (parse_failure true at r) ≡ false
unfolding is_claimable parse_failure unlocked
never_claimable at later r = ground arith

refused_poll :
    (o : WorkerOptions) (job : ParseJob) (now : ℕ)
    → o.max_parser_polls ≤ job.parser_poll_count
    → polling_allowed o job now ≡ false
unfolding polling_allowed
refused_poll o job now h = ground (arith, h)

terminal : (attempts max_attempts : ℕ) → is_terminal attempts max_attempts true ≡ true
unfolding is_terminal
terminal attempts max_attempts = ground arith

module _ (o : WorkerOptions) (out : Outside) (job : ParseJob) (now : ℕ) (s : ChatStorage)
    {parser_job_id : String} (submitted_as : job.parser_job_id ≡ some parser_job_id)
    (remote : is_local_text job.mime_type ≡ false)
    (polls : o.max_parser_polls ≤ job.parser_poll_count) where
  refused_parse : parse_attachment o out job now s ≡ (err (provider_error false), s)
  unfolding parse_attachment poll_parse
  refused_parse =
      let e : parse_attachment o out job now s ≡ poll_parse o out job parser_job_id now s =
        rw (remote, submitted_as) refl in
      e ∙ rw (refused_poll o job now polls) refl

  give_up :
      {r : AttachmentRow}
      → find_attachment job.id s.attachments ≡ some r
      → holds_lease job r ≡ true
      → run_parse o out job now s ≡ (
        ok failed_run,
        record s {
          attachments =
              set_attachment job.id (parse_failure true (now + o.retry_delay_ms)) s.attachments;
        },
      )
  unfolding run_parse try_run mark_attachment_failed
  give_up found held =
      let mark =
        λ (e : WorkError). mark_attachment_failed job (is_final e) (now + o.retry_delay_ms) in
      let e : mark (provider_error false) s
          ≡ leased_update job (parse_failure true (now + o.retry_delay_ms)) s =
        ap (λ b. leased_update job (parse_failure b (now + o.retry_delay_ms)) s)
          (terminal job.attempts job.max_attempts) in
      ap (caught mark) refused_parse
      ∙ ap (λ r. marked r s)
          (e ∙ held_update job (parse_failure true (now + o.retry_delay_ms)) s found held)

give_up_claimed :
    (o : WorkerOptions) (out : Outside) (r : AttachmentRow) (token now : ℕ) (s : ChatStorage)
    {parser_job_id : String}
    → r.parse_job_id ≡ some parser_job_id
    → is_local_text r.mime_type ≡ false
    → o.max_parser_polls ≤ r.parse_poll_count
    → find_attachment r.id s.attachments ≡ some (claimed o.worker_id token now r)
    → run_parse o out (parse_job o.worker_id token (claimed o.worker_id token now r)) now s ≡ (
      ok failed_run,
      record s {
        attachments =
            set_attachment r.id (parse_failure true (now + o.retry_delay_ms)) s.attachments;
      },
    )
unfolding parse_job claimed
give_up_claimed o out r token now s h remote polls found =
    give_up o out (parse_job o.worker_id token (claimed o.worker_id token now r)) now s h remote
      polls found (claimed_lease o.worker_id token now r)

-- Polling ends: when a document has been polled as often as the worker's options allow, the next run
-- that holds its lease gives it up, however many attempts it has left and whatever the parser would
-- have answered: its row is failed, and no claim takes it at any time. The polls count one by one
-- and cost no attempt.
pub polling_ends :
    (o : WorkerOptions) (out : Outside) (ps : List PollRound) (r : AttachmentRow) (token now : ℕ)
    (s : ChatStorage) {parser_job_id : String}
    → r.parse_job_id ≡ some parser_job_id
    → is_local_text r.mime_type ≡ false
    → o.max_parser_polls ≤ r.parse_poll_count + length ps
    → find_attachment r.id s.attachments ≡ some (claimed o.worker_id token now (poll_rounds ps r))
    → let row = claimed o.worker_id token now (poll_rounds ps r) in
      let given_up = parse_failure true (now + o.retry_delay_ms) row in
      (run_parse o out (parse_job o.worker_id token row) now s ≡ (
        ok failed_run,
        record s {
          attachments =
              set_attachment r.id (parse_failure true (now + o.retry_delay_ms)) s.attachments;
        },
      ))
      × (find_attachment r.id
            (set_attachment r.id (parse_failure true (now + o.retry_delay_ms)) s.attachments)
          ≡ some given_up)
      × ((later : ℕ) → is_claimable later given_up ≡ false)
      × (row.parse_attempts ≡ r.parse_attempts + 1)
unfolding parse_job claimed parse_failure
polling_ends o out ps r token now s h remote polls found =
    let (count, attempts, same_job, same_mime, same_id) = poll_rounds-counts ps r in
    let row = claimed o.worker_id token now (poll_rounds ps r) in
    let change = parse_failure true (now + o.retry_delay_ms) in
    let run =
      give_up_claimed o out (poll_rounds ps r) token now s (same_job ∙ h)
        (ap is_local_text same_mime ∙ remote) (omega (arith, count, polls))
        (subst (λ n. find_attachment n s.attachments ≡ some row) (sym same_id) found) in
    (
      subst
          (λ n.
            run_parse o out (parse_job o.worker_id token row) now s
            ≡ (ok failed_run, record s { attachments = set_attachment n change s.attachments }))
          same_id run,
      find-set r.id (parse_failure true (now + o.retry_delay_ms)) s.attachments (λ r. refl) found,
      λ later. never_claimable (now + o.retry_delay_ms) later row,
      omega (arith, attempts),
    )

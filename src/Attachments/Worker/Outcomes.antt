-- ===== src/Attachments/Worker/Outcomes.antt =====
-- How a run of `runOnce` of src/worker/chat-storage.ts ends.
use openvac_web.Attachments.Work.{
  WorkError, Outside, WorkerOptions, Work, go_on, bind, committed, transact, is_final, finish,
  is_stale, provider_error, database_error, failed_run,
}
use openvac_web.Attachments.Types.{ChatStorage, stale_lease}
use openvac_web.Attachments.Queue.{ParseJob, renew_attachment_lease, mark_attachment_failed}
use openvac_web.Attachments.Losing.{lost, leased_update-stale}
use openvac_web.Attachments.Worker.{
  wait_and_renew, with_attachment_lease, polling_allowed, is_local_text, parse_local_text,
  pdf_answer, submit_answer, submit_parse, after_pdf, start_parse, after_status, poll_parse,
  parse_attachment, marked, caught, try_run, run_parse,
}
use openvac_web.Prelude.{
  ℕ, ◌+◌, ◌≡◌, refl, sym, ap, subst, ◌∙◌, ◌⊎◌, inl, inr, Bool, true, false, ◌||◌, none, some, arith,
  str_eq, Bool-cases, Option-cases, Result, ok, err,
}

-- The run asks a service: it is not a document that is polled beyond the budget.
abbrev pub will_wait : WorkerOptions → ParseJob → ℕ → Bool
will_wait o job now =
    is_local_text job.mime_type
    || elim job.parser_job_id [ none ↦ true | some _ ↦ polling_allowed o job now ]

-- The tables when the run first meets the lost lease: those of its start, or those that the first
-- wait leaves after a renewal that still held.
abbrev pub Loses : WorkerOptions → Outside → ParseJob → ℕ → ChatStorage → ChatStorage → Type 0
Loses o out job now s t =
    (t ≡ s)
    ⊎ ((will_wait o job now ≡ true)
        × ((kept : ChatStorage) × (renew_attachment_lease job now s ≡ ok (tt, kept))
            × (t ≡ out.meanwhile kept)))

abbrev pub StopsAt : {A : Type 0} → ChatStorage → Result WorkError A × ChatStorage → Type 0
StopsAt t r = (e : WorkError) × (r ≡ (err e, t))

-- An answer that comes without the lease is not used.
abbrev pub stop_error : {A : Type 0} → Result WorkError A → WorkError
stop_error (ok a) = database_error stale_lease
stop_error (err e) = e

module _ (out : Outside) (job : ParseJob) (now : ℕ) where
  renew-lost :
      (t : ChatStorage)
      → lost job.id job.lease_token t.attachments ≡ true
      → transact (renew_attachment_lease job now) t ≡ (err (database_error stale_lease), t)
  unfolding renew_attachment_lease
  renew-lost t gone = ap (committed t) (leased_update-stale job _ t gone)

  wait-lost :
      {A : Type 0} (answer : Result WorkError A) (t : ChatStorage)
      → lost job.id job.lease_token t.attachments ≡ true
      → with_attachment_lease out job now answer t ≡ (err (database_error stale_lease), t)
  unfolding with_attachment_lease
  wait-lost answer t gone = ap (go_on (wait_and_renew out job now answer)) (renew-lost t gone)

  -- The renewal after the wait.
  wait-loses :
      {A : Type 0} (answer : Result WorkError A) (kept s : ChatStorage)
      → renew_attachment_lease job now s ≡ ok (tt, kept)
      → lost job.id job.lease_token (out.meanwhile kept).attachments ≡ true
      → with_attachment_lease out job now answer s ≡ (err (stop_error answer), out.meanwhile kept)
  unfolding with_attachment_lease wait_and_renew
  wait-loses {A} answer kept s held gone =
      ap (λ r. go_on (wait_and_renew out job now answer) (committed s r)) held ∙ after_wait answer
    where
      after_wait :
          (answer : Result WorkError A)
          → wait_and_renew out job now answer tt kept
            ≡ (err (stop_error answer), out.meanwhile kept)
      after_wait (ok a) = ap (go_on (λ _. finish a)) (renew-lost (out.meanwhile kept) gone)
      after_wait (err e) = refl

module _ (o : WorkerOptions) (out : Outside) (job : ParseJob) (now : ℕ) (s t : ChatStorage)
    (stops : (A : Type 0) (answer : Result WorkError A)
      → StopsAt t (with_attachment_lease out job now answer s)) where
  waits :
      {A B : Type 0} (answer : Result WorkError A) (f : A → Work B)
      → StopsAt t (bind (with_attachment_lease out job now answer) f s)
  waits {A} answer f = let (e, h) = stops A answer in (e, ap (go_on f) h)

  start-stops : StopsAt t (start_parse o out job now s)
  unfolding start_parse submit_parse
  start-stops = elim (Bool-cases (str_eq job.mime_type "application/pdf")) [
    | inl pdf ↦ rw pdf (waits (pdf_answer out job) (after_pdf o out job now))
    | inr other ↦ rw other (waits (submit_answer out job) _)
  ]

  parse-stops : will_wait o job now ≡ true → StopsAt t (parse_attachment o out job now s)
  unfolding parse_attachment parse_local_text poll_parse
  parse-stops will = elim (Bool-cases (is_local_text job.mime_type)) [
    | inl local ↦ rw local (waits (out.get_private job.object_key) _)
    | inr other ↦ elim (Option-cases job.parser_job_id) [
      | inl first_time ↦
          let e : parse_attachment o out job now s ≡ start_parse o out job now s =
            rw (other, first_time) refl in
          subst (StopsAt t) (sym e) start-stops
      | inr (parser_job_id, again) ↦
          let allowed : polling_allowed o job now ≡ true = rw (other, again) at will in
          let e : parse_attachment o out job now s
              ≡ bind (with_attachment_lease out job now (out.get_status parser_job_id))
                  (after_status o out job parser_job_id now) s =
            rw (other, again, allowed) refl in
          subst (StopsAt t) (sym e)
            (waits (out.get_status parser_job_id) (after_status o out job parser_job_id now))
    ]
  ]

  -- Beyond the budget nothing is asked and nothing written.
  parse-refused :
      will_wait o job now ≡ false
      → parse_attachment o out job now s ≡ (err (provider_error false), s)
  unfolding parse_attachment poll_parse
  parse-refused never = elim (Bool-cases (is_local_text job.mime_type)) [
    | inl local ↦ absurd (ground (arith, never, local))
    | inr other ↦ elim (Option-cases job.parser_job_id) [
      | inl first_time ↦ absurd (ground (arith, never, other, first_time))
      | inr (parser_job_id, again) ↦
          let refused : polling_allowed o job now ≡ false = rw (other, again) at never in
          rw (other, again, refused) refl
    ]
  ]

-- Whatever stops a run without the lease, the failure is not written either.
stopped-lost :
    (o : WorkerOptions) (out : Outside) (job : ParseJob) (now : ℕ) (s t : ChatStorage)
    → lost job.id job.lease_token t.attachments ≡ true
    → StopsAt t (parse_attachment o out job now s)
    → run_parse o out job now s ≡ (ok failed_run, t)
unfolding run_parse try_run mark_attachment_failed
stopped-lost o out job now s t gone (e, stop) =
    let mark =
      λ (e : WorkError). mark_attachment_failed job (is_final e) (now + o.retry_delay_ms) in
    ap (caught mark) stop ∙ elim (Bool-cases (is_stale e)) [
      | inl stale ↦ rw stale refl
      | inr other ↦ rw other (ap (λ r. marked r t) (leased_update-stale job _ t gone))
    ]

lost_at_start :
    (o : WorkerOptions) (out : Outside) (job : ParseJob) (now : ℕ) (s : ChatStorage)
    → lost job.id job.lease_token s.attachments ≡ true
    → StopsAt s (parse_attachment o out job now s)
lost_at_start o out job now s gone = elim (Bool-cases (will_wait o job now)) [
  | inl will ↦
      parse-stops o out job now s s
        (λ A a. (database_error stale_lease, wait-lost out job now a s gone)) will
  | inr never ↦ (
    provider_error false,
    parse-refused o out job now s s
        (λ A a. (database_error stale_lease, wait-lost out job now a s gone)) never,
  )
]

-- A run whose worker has lost the lease of its document, before the run or during its first wait for
-- a service, ends as failed and leaves the tables exactly as they were when the lease was found
-- lost, whatever the document is and whatever the storage and the parser answer: not even the
-- failure is written to the row, which is another worker's now. An answer that has come in the
-- meantime is dropped at the renewal after the wait.
pub lost_run_writes_nothing :
    {A : Type 0} (o : WorkerOptions) (out : Outside) (job : ParseJob) (now : ℕ) (s t : ChatStorage)
    (answer : A)
    → Loses o out job now s t
    → lost job.id job.lease_token t.attachments ≡ true
    → (run_parse o out job now s ≡ (ok failed_run, t))
      × (with_attachment_lease out job now (ok answer) s ≡ (err (database_error stale_lease), t))
lost_run_writes_nothing o out job now s t answer (inl before) gone =
    let gone' : lost job.id job.lease_token s.attachments ≡ true =
      subst (λ u. lost job.id job.lease_token u.attachments ≡ true) before gone in
    subst
      (λ u.
        (run_parse o out job now s ≡ (ok failed_run, u))
        × (with_attachment_lease out job now (ok answer) s ≡ (err (database_error stale_lease), u)))
      (sym before)
      (
        stopped-lost o out job now s s gone' (lost_at_start o out job now s gone'),
        wait-lost out job now (ok answer) s gone',
      )
lost_run_writes_nothing o out job now s t answer (inr (will, (kept, held, there))) gone =
    let gone' : lost job.id job.lease_token (out.meanwhile kept).attachments ≡ true =
      subst (λ u. lost job.id job.lease_token u.attachments ≡ true) there gone in
    subst
      (λ u.
        (run_parse o out job now s ≡ (ok failed_run, u))
        × (with_attachment_lease out job now (ok answer) s ≡ (err (database_error stale_lease), u)))
      (sym there)
      (
        stopped-lost o out job now s (out.meanwhile kept) gone' (
            parse-stops o out job now s (out.meanwhile kept)
              (λ A a. (stop_error a, wait-loses out job now a kept s held gone')) will),
        wait-loses out job now (ok answer) kept s held gone',
      )

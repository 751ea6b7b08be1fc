-- ===== src/Attachments/Fencing.antt =====
-- The leases of the parse queue of src/worker/chat-storage.ts: a worker that lost its lease writes
-- nothing any more.
use openvac_web.Attachments.Losing.{
  WorkerOp, work_all, draws_other, lost, leased_update-stale, lost-work_all,
}
use openvac_web.Prelude.{
  ℕ, ◌≤◌, String, ◌≡◌, refl, subst, inl, inr, Bool, true, false, not, ◌||◌, some, List, [], ◌∷◌,
  arith, ltb, ◌==◌, Option-cases, length, All, ◌>>=◌, ◌>>◌, err,
}
use openvac_web.Attachments.Rows.{find_attachment, set_attachment}
use openvac_web.Attachments.Queue.{
  ParseJob, parse_candidate, claimed, parse_job, claim_attachment_parse, renew_attachment_lease,
  mark_parser_submitted, defer_parser_poll, max_chunks, PrivateAttachmentChunk,
  save_chunks_and_complete, mark_attachment_failed,
}
use openvac_web.Attachments.Types.{AttachmentRow, ChatStorage, stale_lease}

claimed-lost :
    (token : ℕ) (worker : String) (t now id : ℕ) (rows : List AttachmentRow)
    → not (t == token) ≡ true
    → lost id token (set_attachment id (claimed worker t now) rows) ≡ true
unfolding set_attachment find_attachment claimed
claimed-lost token worker t now id [] d = refl
claimed-lost token worker t now id (x ∷ xs) d =
    ground (arith, d, claimed-lost token worker t now id xs d)

-- The claim's row carries the claim's token.
claim-lost :
    (token : ℕ) (worker : String) (t now : ℕ) (locked : List ℕ) (s : ChatStorage) {job : ParseJob}
    {s' : ChatStorage}
    → claim_attachment_parse worker t now locked s ≡ (some job, s')
    → not (t == token) ≡ true
    → lost job.id token s'.attachments ≡ true
unfolding claim_attachment_parse claimed parse_job
claim-lost token worker t now locked s {job} {s'} e d =
    elim (Option-cases (parse_candidate now locked s.attachments)) [
      | inl idle ↦ absurd (ground (arith, idle, e))
      | inr (r, found) ↦
          let at : job.id ≡ r.id = ground (arith, found, e) in
          let made : s'.attachments ≡ set_attachment r.id (claimed worker t now) s.attachments =
            ground (arith, found, e) in
          rw (at, made) (claimed-lost token worker t now r.id s.attachments d)
    ]

save-stale :
    (job : ParseJob) (chunks : List PrivateAttachmentChunk) (now : ℕ) (s : ChatStorage)
    → 1 ≤ length chunks
    → length chunks ≤ max_chunks
    → lost job.id job.lease_token s.attachments ≡ true
    → save_chunks_and_complete job chunks now s ≡ err stale_lease
unfolding save_chunks_and_complete
save-stale job chunks now s few many h =
    let fits : (ltb (length chunks) 1 || ltb max_chunks (length chunks)) ≡ false =
      ground (arith, few, many) in
    rw (fits, ◌>>◌, ◌>>=◌, leased_update-stale job (λ r. r) s h) refl

-- A worker whose lease ran out and whose attachment another worker claimed, with another token,
-- has lost it for good: after the claim and after any further transactions of the workers, as long
-- as no claim draws the old token again, every write under the old lease throws the stale-lease
-- error, whatever it wants to write.
pub parse_lease_fenced :
    (old : ParseJob) (worker : String) (token now : ℕ) (locked : List ℕ) (s : ChatStorage)
    {job : ParseJob} {s' : ChatStorage}
    → claim_attachment_parse worker token now locked s ≡ (some job, s')
    → job.id ≡ old.id
    → not (token == old.lease_token) ≡ true
    → (ops : List WorkerOp) → All (λ op. draws_other old.lease_token op ≡ true) ops
    → ((at : ℕ) → renew_attachment_lease old at (work_all ops s') ≡ err stale_lease)
      × ((pid : String) (retry at : ℕ)
          → mark_parser_submitted old pid retry at (work_all ops s') ≡ err stale_lease)
      × ((retry : ℕ) → defer_parser_poll old retry (work_all ops s') ≡ err stale_lease)
      × ((chunks : List PrivateAttachmentChunk) (at : ℕ)
          → 1 ≤ length chunks
          → length chunks ≤ max_chunks
          → save_chunks_and_complete old chunks at (work_all ops s') ≡ err stale_lease)
      × ((final : Bool) (retry : ℕ)
          → mark_attachment_failed old final retry (work_all ops s') ≡ err stale_lease)
unfolding renew_attachment_lease mark_parser_submitted defer_parser_poll save_chunks_and_complete
    mark_attachment_failed
parse_lease_fenced old worker token now locked s {s' = s'} e same d ops ds =
    let gone =
      subst (λ id. lost id old.lease_token s'.attachments ≡ true) same
        (claim-lost old.lease_token worker token now locked s e d) in
    let stale = λ (change : AttachmentRow → AttachmentRow).
      leased_update-stale old change (work_all ops s')
        (lost-work_all old.id old.lease_token ops s' ds gone) in
    (
      λ at. stale _,
      λ pid retry at. stale _,
      λ retry. stale _,
      λ chunks at few many.
          save-stale old chunks at (work_all ops s') few many
            (lost-work_all old.id old.lease_token ops s' ds gone),
      λ final retry. stale _,
    )

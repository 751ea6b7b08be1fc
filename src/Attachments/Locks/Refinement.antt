-- ===== src/Attachments/Locks/Refinement.antt =====
-- The transactions of the workers of src/worker/chat-storage.ts, one after the other, as leased locks.
use openvac_web.Attachments.Distinct.{DistinctIds-set}
use openvac_web.Attachments.Leases.{update-cases}
use openvac_web.Attachments.Accounts.{DistinctIds}
use openvac_web.Prelude.{
  ℕ, String, ◌≡◌, refl, inl, inr, ◌||◌, List, [], ◌∷◌, arith, ltb, Bool-cases, Option-cases, length,
  Ensures, Ensures-bind, Ensures-after,
}
use openvac_web.Attachments.Types.{AttachmentRow, ChatStorage}
use openvac_web.Attachments.Queue.{
  ParseJob, parse_candidate, claimed, claim_attachment_parse, leased_update, unlocked,
  renew_attachment_lease, submitted, mark_parser_submitted, deferred, defer_parser_poll, max_chunks,
  PrivateAttachmentChunk, parsed, replace_chunks, save_chunks_and_complete, parse_failure,
  mark_attachment_failed,
}
use openvac_web.Attachments.Rows.{set_attachment}
use openvac_web.Attachments.Losing.{
  WorkerOp, work, work_all, claiming, renewing, submitting, deferring, saving, failing,
}
use openvac_web.Attachments.Locks.{locks, LockRun, no_steps, one_step}
use openvac_web.Attachments.Locks.Steps.{work-LockStep}

update-DistinctIds :
    (job : ParseJob) (change : AttachmentRow → AttachmentRow) (s : ChatStorage)
    → ((r : AttachmentRow) → (change r).id ≡ r.id)
    → DistinctIds s.attachments
    → Ensures (λ _ t. DistinctIds t.attachments) (leased_update job change s)
update-DistinctIds job change s same d = elim (update-cases job change s) [
  | inl stale ↦ rw (stale, Ensures) tt
  | inr (r, found, held, done) ↦ rw done (DistinctIds-set change same job.id s.attachments d)
]

save-DistinctIds :
    (job : ParseJob) (chunks : List PrivateAttachmentChunk) (now : ℕ) (s : ChatStorage)
    → DistinctIds s.attachments
    → Ensures (λ _ t. DistinctIds t.attachments) (save_chunks_and_complete job chunks now s)
unfolding save_chunks_and_complete parsed unlocked replace_chunks
save-DistinctIds job chunks now s d =
    let P : Unit {0} → ChatStorage → Type 0 = λ _ t. DistinctIds t.attachments in
    elim (Bool-cases (ltb (length chunks) 1 || ltb max_chunks (length chunks))) [
      | inl refused ↦ rw (refused, Ensures) tt
      | inr fits ↦ rw fits (
          Ensures-bind P P (leased_update job (λ r. r)) _ s
            (update-DistinctIds job (λ r. r) s (λ r. refl) d)
            λ _ t _ d'.
              update-DistinctIds job (parsed now) (replace_chunks job.id chunks t) (λ r. refl) d')
    ]

claim-DistinctIds :
    (worker : String) (token now : ℕ) (locked : List ℕ) (s : ChatStorage)
    → DistinctIds s.attachments
    → DistinctIds (claim_attachment_parse worker token now locked s).1.attachments
unfolding claim_attachment_parse claimed
claim-DistinctIds worker token now locked s d =
    elim (Option-cases (parse_candidate now locked s.attachments)) [
      | inl idle ↦
          let e : (claim_attachment_parse worker token now locked s).1.attachments ≡ s.attachments =
            ground (arith, idle) in
          rw e d
      | inr (r, chosen) ↦
          let e : (claim_attachment_parse worker token now locked s).1.attachments
              ≡ set_attachment r.id (claimed worker token now) s.attachments =
            ground (arith, chosen) in
          rw e (DistinctIds-set (claimed worker token now) (λ r. refl) r.id s.attachments d)
    ]

work-DistinctIds :
    (op : WorkerOp) (s : ChatStorage)
    → DistinctIds s.attachments
    → DistinctIds (work op s).attachments
unfolding work renew_attachment_lease mark_parser_submitted submitted unlocked defer_parser_poll
    deferred mark_attachment_failed parse_failure
work-DistinctIds (claiming worker token now locked) s d =
    claim-DistinctIds worker token now locked s d
work-DistinctIds (renewing job now) s d =
    Ensures-after (λ t. DistinctIds t.attachments) s (renew_attachment_lease job now s) d
      (update-DistinctIds job _ s (λ r. refl) d)
work-DistinctIds (submitting job pid at now) s d =
    Ensures-after (λ t. DistinctIds t.attachments) s (mark_parser_submitted job pid at now s) d
      (update-DistinctIds job _ s (λ r. refl) d)
work-DistinctIds (deferring job at) s d =
    Ensures-after (λ t. DistinctIds t.attachments) s (defer_parser_poll job at s) d
      (update-DistinctIds job _ s (λ r. refl) d)
work-DistinctIds (saving job chunks now) s d =
    Ensures-after (λ t. DistinctIds t.attachments) s (save_chunks_and_complete job chunks now s) d
      (save-DistinctIds job chunks now s d)
work-DistinctIds (failing job final at) s d =
    Ensures-after (λ t. DistinctIds t.attachments) s (mark_attachment_failed job final at s) d
      (update-DistinctIds job _ s (λ r. refl) d)

-- The transactions of the workers refine leased locks, in any sequence, on a table with distinct keys:
-- a claim takes at most one lock, and only one that nobody holds or whose fifteen minutes are over;
-- the holder's renewal dates its lock anew; every other write of the holder gives its lock back, but
-- for a save with a number of chunks out of range; a write of anybody else changes no lock.
pub leases_refine_locks :
    (ops : List WorkerOp) (s : ChatStorage)
    → DistinctIds s.attachments
    → LockRun ops (locks s) (locks (work_all ops s))
unfolding work_all
leases_refine_locks [] s d = no_steps
leases_refine_locks (op ∷ ops) s d =
    one_step {op = op} (work-LockStep op s d)
      (leases_refine_locks ops (work op s) (work-DistinctIds op s d))

-- ===== src/Attachments/Losing.antt =====
-- The transactions of the workers of src/worker/chat-storage.ts, and a token that an attachment has lost.
use openvac_web.Prelude.{
  ℕ, String, ◌≡◌, refl, inl, inr, Bool, true, not, ◌||◌, none, some, List, [], ◌∷◌, arith, ltb,
  ◌==◌, Bool-cases, Option-cases, length, All, after, Ensures, Ensures-bind, Ensures-after, err,
}
use openvac_web.Attachments.Rows.{find_attachment, set_attachment}
use openvac_web.Attachments.Queue.{
  ParseJob, parse_candidate, claimed, claim_attachment_parse, holds_lease, leased_update, unlocked,
  renew_attachment_lease, submitted, mark_parser_submitted, deferred, defer_parser_poll, max_chunks,
  PrivateAttachmentChunk, parsed, replace_chunks, save_chunks_and_complete, is_terminal,
  parse_failure, mark_attachment_failed,
}
use openvac_web.Attachments.Types.{AttachmentRow, ChatStorage, stale_lease}

-- The transactions of the workers.
pub data WorkerOp : Type 0 where
  claiming : String → ℕ → ℕ → List ℕ → WorkerOp
  renewing : ParseJob → ℕ → WorkerOp
  submitting : ParseJob → String → ℕ → ℕ → WorkerOp
  deferring : ParseJob → ℕ → WorkerOp
  saving : ParseJob → List PrivateAttachmentChunk → ℕ → WorkerOp
  failing : ParseJob → Bool → ℕ → WorkerOp

unfoldable pub work : WorkerOp → ChatStorage → ChatStorage
work (claiming worker token now locked) s = (claim_attachment_parse worker token now locked s).1
work (renewing job now) s = after s (renew_attachment_lease job now s)
work (submitting job id at now) s = after s (mark_parser_submitted job id at now s)
work (deferring job at) s = after s (defer_parser_poll job at s)
work (saving job chunks now) s = after s (save_chunks_and_complete job chunks now s)
work (failing job final at) s = after s (mark_attachment_failed job final at s)

unfoldable pub work_all : List WorkerOp → ChatStorage → ChatStorage
work_all [] s = s
work_all (op ∷ ops) s = work_all ops (work op s)

-- No claim draws this token; `gen_random_uuid()` does not repeat.
abbrev pub draws_other : ℕ → WorkerOp → Bool
draws_other token (claiming worker t now locked) = not (t == token)
draws_other token _ = true

abbrev pub other_token : ℕ → AttachmentRow → Bool
other_token token r = elim r.parse_lease_token [ none ↦ true | some t ↦ not (t == token) ]

-- No row `id` carries the token.
abbrev pub lost : ℕ → ℕ → List AttachmentRow → Bool
lost id token rows = elim (find_attachment id rows) [ none ↦ true | some r ↦ other_token token r ]

lost-set :
    (id token j : ℕ) (change : AttachmentRow → AttachmentRow) (rows : List AttachmentRow)
    → ((r : AttachmentRow) → (change r).id ≡ r.id)
    → ((r : AttachmentRow) → other_token token r ≡ true → other_token token (change r) ≡ true)
    → lost id token rows ≡ true
    → lost id token (set_attachment j change rows) ≡ true
unfolding set_attachment find_attachment
lost-set id token j change [] same keeps h = refl
lost-set id token j change (x ∷ xs) same keeps h =
    ground (arith, same x, keeps x, h, lost-set id token j change xs same keeps)

module _ (id token : ℕ) (job : ParseJob) (change : AttachmentRow → AttachmentRow) (s : ChatStorage)
    (same : (r : AttachmentRow) → (change r).id ≡ r.id)
    (keeps : (r : AttachmentRow)
      → other_token token r ≡ true
      → other_token token (change r) ≡ true) where
  lost-update :
      lost id token s.attachments ≡ true
      → Ensures (λ _ s'. lost id token s'.attachments ≡ true) (leased_update job change s)
  unfolding leased_update
  lost-update h = elim (Option-cases (find_attachment job.id s.attachments)) [
    | inl missing ↦ rw (missing, leased_update, Ensures) tt
    | inr (r, found) ↦ elim (Bool-cases (holds_lease job r)) [
      | inl held ↦
          rw (found, leased_update, held)
            (lost-set id token job.id change s.attachments same keeps h)
      | inr free ↦ rw (found, leased_update, free, Ensures) tt
    ]
  ]

-- A worker whose row has another token writes nothing.
pub leased_update-stale :
    (job : ParseJob) (change : AttachmentRow → AttachmentRow) (s : ChatStorage)
    → lost job.id job.lease_token s.attachments ≡ true
    → leased_update job change s ≡ err stale_lease
unfolding leased_update holds_lease
leased_update-stale job change s h = ground (arith, h)

save-lost :
    (id token : ℕ) (job : ParseJob) (chunks : List PrivateAttachmentChunk) (now : ℕ)
    (s : ChatStorage)
    → lost id token s.attachments ≡ true
    → Ensures
        (λ _ s'. lost id token s'.attachments ≡ true)
        (save_chunks_and_complete job chunks now s)
unfolding save_chunks_and_complete parsed unlocked replace_chunks
save-lost id token job chunks now s h =
    let P : Unit {0} → ChatStorage → Type 0 = λ _ s'. lost id token s'.attachments ≡ true in
    elim (Bool-cases (ltb (length chunks) 1 || ltb max_chunks (length chunks))) [
      | inl refused ↦ rw (refused, Ensures) tt
      | inr fits ↦ rw fits (
          Ensures-bind P P (leased_update job (λ r. r)) _ s
            (lost-update id token job (λ r. r) s (λ r. refl) (λ r k. k) h)
            λ _ s' _ h'.
              lost-update id token job (parsed now) (replace_chunks job.id chunks s') (λ r. refl)
                (λ r k. refl) h')
    ]

claim-keeps :
    (id token : ℕ) (worker : String) (t now : ℕ) (locked : List ℕ) (s : ChatStorage)
    → not (t == token) ≡ true
    → lost id token s.attachments ≡ true
    → lost id token (claim_attachment_parse worker t now locked s).1.attachments ≡ true
unfolding claim_attachment_parse claimed
claim-keeps id token worker t now locked s d h =
    elim (Option-cases (parse_candidate now locked s.attachments)) [
      | inl idle ↦
          let e : claim_attachment_parse worker t now locked s ≡ (none, s) = ground (arith, idle) in
          rw e h
      | inr (r, found) ↦
          let e : (claim_attachment_parse worker t now locked s).1.attachments
              ≡ set_attachment r.id (claimed worker t now) s.attachments =
            ground (arith, found) in
          rw e
            (lost-set id token r.id (claimed worker t now) s.attachments (λ r. refl) (λ r k. d) h)
    ]

lost-work :
    (id token : ℕ) (op : WorkerOp) (s : ChatStorage)
    → draws_other token op ≡ true
    → lost id token s.attachments ≡ true
    → lost id token (work op s).attachments ≡ true
unfolding work renew_attachment_lease mark_parser_submitted submitted unlocked defer_parser_poll
    deferred mark_attachment_failed parse_failure
lost-work id token (claiming worker t now locked) s d h =
    claim-keeps id token worker t now locked s d h
lost-work id token (renewing job now) s d h =
    Ensures-after (λ s. lost id token s.attachments ≡ true) s (renew_attachment_lease job now s) h
      (lost-update id token job _ s (λ r. refl) (λ r k. k) h)
lost-work id token (submitting job pid at now) s d h =
    Ensures-after (λ s. lost id token s.attachments ≡ true) s
      (mark_parser_submitted job pid at now s) h
      (lost-update id token job (submitted pid at now) s (λ r. refl) (λ r k. refl) h)
lost-work id token (deferring job at) s d h =
    Ensures-after (λ s. lost id token s.attachments ≡ true) s (defer_parser_poll job at s) h
      (lost-update id token job (deferred at) s (λ r. refl) (λ r k. refl) h)
lost-work id token (saving job chunks now) s d h =
    Ensures-after (λ s. lost id token s.attachments ≡ true) s
      (save_chunks_and_complete job chunks now s) h (save-lost id token job chunks now s h)
lost-work id token (failing job final at) s d h =
    Ensures-after (λ s. lost id token s.attachments ≡ true) s
      (mark_attachment_failed job final at s) h
      (lost-update id token job (parse_failure (is_terminal job.attempts job.max_attempts final) at)
        s (λ r. refl) (λ r k. refl) h)

pub lost-work_all :
    (id token : ℕ) (ops : List WorkerOp) (s : ChatStorage)
    → All (λ op. draws_other token op ≡ true) ops
    → lost id token s.attachments ≡ true
    → lost id token (work_all ops s).attachments ≡ true
unfolding work_all
lost-work_all id token [] s d h = h
lost-work_all id token (op ∷ ops) s d h =
    lost-work_all id token ops (work op s) d.1 (lost-work id token op s d.0 h)

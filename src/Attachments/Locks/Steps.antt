-- ===== src/Attachments/Locks/Steps.antt =====
-- What each transaction of the workers of src/worker/chat-storage.ts does to the locks.
use openvac_web.Attachments.Candidates.{open_to, selected, head-All}
use openvac_web.Attachments.Claims.{IsAwaiting, open_to-IsAwaiting}
use openvac_web.Attachments.Distinct.{All-select, DistinctIds-Standing}
use openvac_web.Attachments.Leases.{held_update, find-set, set-other, set-same, update-cases}
use openvac_web.Attachments.Accounts.{DistinctIds}
use openvac_web.Prelude.{
  ℕ, String, ◌≡◌, refl, sym, ap, subst, ◌∙◌, inl, inr, true, false, ◌||◌, Option, none, some, List,
  arith, str_eq, eq_iff, ltb, ◌==◌, Bool-cases, Option-cases, length, select, sort, All-sort, ◌>>=◌,
  ◌>>◌, after, ok, err,
}
use openvac_web.Attachments.Types.{AttachmentRow, ChatStorage, stale_lease}
use openvac_web.Attachments.Queue.{
  ParseJob, is_parsing, parse_order, parse_candidate, claimed, claim_attachment_parse, holds_lease,
  leased_update, unlocked, renew_attachment_lease, submitted, mark_parser_submitted, deferred,
  defer_parser_poll, max_chunks, PrivateAttachmentChunk, parsed, replace_chunks,
  save_chunks_and_complete, is_terminal, parse_failure, mark_attachment_failed,
}
use openvac_web.Attachments.Rows.{find_attachment, set_attachment}
use openvac_web.Attachments.Losing.{
  WorkerOp, work, claiming, renewing, submitting, deferring, saving, failing,
}
use openvac_web.Attachments.Locks.{
  Lock, owned, row_lock, found_lock, locks, Free, HeldBy, Written, renewed_lock, LockStep,
}

owned-lock :
    (job : ParseJob) (worker : Option String) (token since : Option ℕ)
    → elim worker [ none ↦ false | some w ↦ str_eq w job.worker_id ] ≡ true
    → elim token [ none ↦ false | some t ↦ t == job.lease_token ] ≡ true
    → owned worker token since
      ≡ some (record { worker = job.worker_id; token = job.lease_token; since = since })
owned-lock job none token since h k = cc
owned-lock job (some w) none since h k = cc
owned-lock job (some w) (some t) since h k =
    ap (λ x. some (record { worker = x; token = t; since = since })) ((eq_iff w job.worker_id).0 h)
    ∙ ap (λ x. some (record { worker = job.worker_id; token = x; since = since }))
        (ground (arith, k))

owned-holds :
    (job : ParseJob) (worker : Option String) (token since : Option ℕ)
    → HeldBy job (owned worker token since)
    → (elim worker [ none ↦ false | some w ↦ str_eq w job.worker_id ] ≡ true)
      × (elim token [ none ↦ false | some t ↦ t == job.lease_token ] ≡ true)
owned-holds job none token since (kept, e) = cc
owned-holds job (some w) none since (kept, e) = cc
owned-holds job (some w) (some t) since (kept, e) =
    ((eq_iff w job.worker_id).1 (ap lock_worker e), ground (arith, ap lock_token e))
  where
    lock_worker : Option Lock → String
    lock_worker none = w
    lock_worker (some lock) = lock.worker

    lock_token : Option Lock → ℕ
    lock_token none = t
    lock_token (some lock) = lock.token

held_lock :
    (job : ParseJob) (r : AttachmentRow)
    → holds_lease job r ≡ true
    → row_lock r
      ≡ some (record { worker = job.worker_id; token = job.lease_token; since = r.parse_locked_at })
unfolding holds_lease
held_lock job r held =
    let parsing : is_parsing r.parse_status ≡ true = ground (arith, held) in
    rw parsing (
      owned-lock job r.parse_locked_by r.parse_lease_token r.parse_locked_at (ground (arith, held))
        (ground (arith, held)))

HeldBy-held :
    (job : ParseJob) (r : AttachmentRow) → HeldBy job (row_lock r) → holds_lease job r ≡ true
unfolding holds_lease
HeldBy-held job r h = elim (Bool-cases (is_parsing r.parse_status)) [
  | inl parsing ↦
      let k : HeldBy job (owned r.parse_locked_by r.parse_lease_token r.parse_locked_at) =
        rw parsing at h in
      let (a, b) = owned-holds job r.parse_locked_by r.parse_lease_token r.parse_locked_at k in
      rw (parsing, a, b) refl
  | inr idle ↦ let k : HeldBy job none = rw idle at h in absurd (ground (arith, k.1))
]

refused-not_held :
    (job : ParseJob) (change : AttachmentRow → AttachmentRow) (s : ChatStorage)
    → leased_update job change s ≡ err stale_lease
    → ¬ HeldBy job (locks s job.id)
refused-not_held job change s stale h = elim (Option-cases (find_attachment job.id s.attachments)) [
  | inl missing ↦ let k : HeldBy job none = rw missing at h in absurd (ground (arith, k.1))
  | inr (r, found) ↦
      let k : HeldBy job (row_lock r) = rw found at h in
      let done = held_update job change s found (HeldBy-held job r k) in
      absurd (ground (arith, stale, done))
]

-- A write under a lease.
update-Written :
    (job : ParseJob) (change : AttachmentRow → AttachmentRow) (lock : Option Lock)
    (base s : ChatStorage)
    → base.attachments ≡ s.attachments
    → ((r : AttachmentRow) → (change r).id ≡ r.id)
    → ((r : AttachmentRow) → holds_lease job r ≡ true → row_lock (change r) ≡ lock)
    → Written job lock (locks s) (locks (after base (leased_update job change s)))
update-Written job change lock base s rows_same same sets = elim (update-cases job change s) [
  | inl stale ↦ inr (
    refused-not_held job change s stale,
    λ id.
        ap (λ r. locks (after base r) id) stale
        ∙ ap (λ rows. found_lock (find_attachment id rows)) rows_same,
  )
  | inr (r, found, held, done) ↦ inl (
    (r.parse_locked_at, ap found_lock found ∙ held_lock job r held),
    ap (λ x. locks (after base x) job.id) done
        ∙ ap found_lock (find-set job.id change s.attachments same found)
        ∙ sets r held,
    λ other d.
        ap (λ x. locks (after base x) other) done
        ∙ ap found_lock (set-other job.id other change s.attachments same d),
  )
]

save-LockStep :
    (job : ParseJob) (chunks : List PrivateAttachmentChunk) (now : ℕ) (s : ChatStorage)
    → LockStep (saving job chunks now) (locks s) (locks (work (saving job chunks now) s))
unfolding save_chunks_and_complete parsed unlocked replace_chunks work
save-LockStep job chunks now s =
    let saved = replace_chunks job.id chunks s in
    elim (Bool-cases (ltb (length chunks) 1 || ltb max_chunks (length chunks))) [
      | inl refused ↦ inr (refused, λ id. rw refused refl)
      | inr fits ↦ elim (update-cases job (λ r. r) s) [
        | inl stale ↦
            inl (
              inr (refused-not_held job (λ r. r) s stale, λ id. rw (fits, ◌>>◌, ◌>>=◌, stale) refl))
        | inr (r, found, held, done) ↦
            let kept : leased_update job (λ r. r) s ≡ ok (tt, s) =
              done
              ∙ ap (λ rows. ok (tt, record s { attachments = rows }))
                  (set-same job.id s.attachments) in
            let e : after s (leased_update job (parsed now) saved)
                ≡ work (saving job chunks now) s =
              rw (fits, ◌>>◌, ◌>>=◌, kept) refl in
            inl (
              subst (λ t. Written job none (locks s) (locks t)) e
                (update-Written job (parsed now) none s saved refl (λ r. refl) (λ r _. refl)))
      ]
    ]

IsAwaiting-Free :
    (now : ℕ) (locked : List ℕ) (r : AttachmentRow)
    → IsAwaiting now locked r
    → Free now (row_lock r)
IsAwaiting-Free now locked r (_, _, _, _, inl (waiting, _), _) = inl (ground (arith, waiting))
IsAwaiting-Free now locked r (_, _, _, _, inr (parsing, (at, since, over)), _) =
    let e : row_lock r ≡ owned r.parse_locked_by r.parse_lease_token r.parse_locked_at =
      ground (arith, parsing) in
    subst (Free now) (sym e) (go r.parse_locked_by r.parse_lease_token)
  where
    go :
        (worker : Option String) (token : Option ℕ)
        → Free now (owned worker token r.parse_locked_at)
    go none token = inl refl
    go (some w) none = inl refl
    go (some w) (some t) =
        inr (record { worker = w; token = t; since = r.parse_locked_at }, refl, (at, since, over))

-- The row that a claim takes is the row of its key, and nobody holds it.
candidate-Free :
    (now : ℕ) (locked : List ℕ) (rows : List AttachmentRow) (r : AttachmentRow)
    → DistinctIds rows
    → parse_candidate now locked rows ≡ some r
    → (find_attachment r.id rows ≡ some r) × Free now (row_lock r)
unfolding parse_candidate
candidate-Free now locked rows r d e =
    let Found : AttachmentRow → Type 0 = λ q. find_attachment q.id rows ≡ some q in
    let Open : AttachmentRow → Type 0 = λ q. open_to now locked q ≡ true in
    let picked = select (open_to now locked) rows in
    (
      head-All Found (sort parse_order picked)
          (All-sort Found parse_order picked
            (All-select Found (open_to now locked) rows (DistinctIds-Standing rows d)))
          e,
      IsAwaiting-Free now locked r (
          open_to-IsAwaiting now locked r (
            head-All Open (sort parse_order picked)
              (All-sort Open parse_order picked (selected (open_to now locked) rows)) e)),
    )

claim-LockStep :
    (worker : String) (token now : ℕ) (locked : List ℕ) (s : ChatStorage)
    → DistinctIds s.attachments
    → LockStep
        (claiming worker token now locked)
        (locks s)
        (locks (work (claiming worker token now locked) s))
unfolding claim_attachment_parse claimed work
claim-LockStep worker token now locked s d =
    let op = claiming worker token now locked in
    let change = claimed worker token now in
    elim (Option-cases (parse_candidate now locked s.attachments)) [
      | inl idle ↦
          let e : (work op s).attachments ≡ s.attachments = ground (arith, idle) in
          inl (λ id. ap (λ rows. found_lock (find_attachment id rows)) e)
      | inr (r, chosen) ↦
          let e : (work op s).attachments ≡ set_attachment r.id change s.attachments =
            ground (arith, chosen) in
          let seen = λ (id : ℕ). ap (λ rows. found_lock (find_attachment id rows)) e in
          let (found, free) = candidate-Free now locked s.attachments r d chosen in
          inr (
            r.id,
            (
              subst (λ x. Free now (found_lock x)) (sym found) free,
              seen r.id ∙ ap found_lock (find-set r.id change s.attachments (λ r. refl) found),
              λ other d.
                  seen other
                  ∙ ap found_lock (set-other r.id other change s.attachments (λ r. refl) d),
            ),
          )
    ]

pub work-LockStep :
    (op : WorkerOp) (s : ChatStorage)
    → DistinctIds s.attachments
    → LockStep op (locks s) (locks (work op s))
unfolding work renew_attachment_lease mark_parser_submitted submitted unlocked defer_parser_poll
    deferred mark_attachment_failed parse_failure holds_lease
work-LockStep (claiming worker token now locked) s d = claim-LockStep worker token now locked s d
work-LockStep (renewing job now) s d =
    let change = λ (r : AttachmentRow). record r { parse_locked_at = some now } in
    update-Written job change (renewed_lock job now) s s refl (λ r. refl)
      (λ r held. held_lock job (change r) held)
work-LockStep (submitting job pid at now) s d =
    update-Written job (submitted pid at now) none s s refl (λ r. refl) (λ r _. refl)
work-LockStep (deferring job at) s d =
    update-Written job (deferred at) none s s refl (λ r. refl) (λ r _. refl)
work-LockStep (saving job chunks now) s d = save-LockStep job chunks now s
work-LockStep (failing job final at) s d =
    update-Written job (parse_failure (is_terminal job.attempts job.max_attempts final) at) none s s
      refl (λ r. refl) (λ r _. ground arith)

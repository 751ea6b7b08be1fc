-- ===== src/Attachments/Claims.antt =====
-- What the claim of the parse queue in src/worker/chat-storage.ts takes, and how a document that
-- cannot be parsed leaves the queue.
use openvac_web.Attachments.Rows.{set_attachment}
use openvac_web.Prelude.{
  ℕ, ◌+◌, ◌≤◌, ◌<◌, String, ◌≡◌, ◌⊎◌, inl, inr, true, false, not, ◌||◌, none, some, List, [], ◌∷◌,
  arith, eq_iff, ltb, ◌==◌, Bool-cases, Option-cases, any, All,
}
use openvac_web.Attachments.Queue.{
  is_parse_queued, is_claimable, parse_order, parse_candidate, claimed, parse_job,
  claim_attachment_parse, holds_lease,
}
use openvac_web.Runs.Storage.{bytes_committed, file_active}
use openvac_web.Attachments.Types.{
  AttachmentRow, ChatStorage, document, processing, parse_queued, parse_processing,
}
use openvac_web.Attachments.Candidates.{open_to, candidate-found, candidate-none}

pub claimed_lease :
    (worker : String) (token now : ℕ) (r : AttachmentRow)
    → holds_lease (parse_job worker token (claimed worker token now r)) (claimed worker token now r)
      ≡ true
unfolding holds_lease parse_job claimed
claimed_lease worker token now r = ground (arith, eq_iff worker worker)

-- A document that a claim may take: its file is uploaded and kept, and it waits for a parser whose time
-- has come, or the fifteen minutes of the lease of its parser are over, and no other transaction has
-- locked it.
abbrev pub IsAwaiting : ℕ → List ℕ → AttachmentRow → Type 0
IsAwaiting now locked r =
    (r.kind ≡ document)
    × (r.quota_state ≡ bytes_committed)
    × (r.deletion_status ≡ file_active)
    × (r.status ≡ processing)
    × (((r.parse_status ≡ parse_queued) × (r.parse_run_at ≤ now))
        ⊎ ((r.parse_status ≡ parse_processing)
            × ((at : ℕ) × (r.parse_locked_at ≡ some at) × (at + 900_000 < now))))
    × (any (λ n. n == r.id) locked ≡ false)

-- The row's time came before the other's, or at the same time and the row is not younger.
abbrev pub NotAfter : AttachmentRow → AttachmentRow → Type 0
NotAfter r q =
    (r.parse_run_at < q.parse_run_at)
    ⊎ ((r.parse_run_at ≡ q.parse_run_at) × (r.created_at ≤ q.created_at))

pub open_to-IsAwaiting :
    (now : ℕ) (locked : List ℕ) (r : AttachmentRow)
    → open_to now locked r ≡ true
    → IsAwaiting now locked r
unfolding is_claimable
open_to-IsAwaiting now locked r h = (
  ground (arith, h),
  ground (arith, h),
  ground (arith, h),
  ground (arith, h),
  elim (Option-cases r.parse_locked_at) [
    | inl free ↦ inl (ground (arith, h, free))
    | inr (at, leased) ↦ elim (Bool-cases (is_parse_queued r.parse_status)) [
      | inl waiting ↦ inl (ground (arith, h, waiting))
      | inr parsing ↦
          inr (ground (arith, h, parsing), (at, leased, ground (arith, h, parsing, leased)))
    ]
  ],
  ground (arith, h),
)

IsAwaiting-open_to :
    (now : ℕ) (locked : List ℕ) (r : AttachmentRow)
    → IsAwaiting now locked r
    → open_to now locked r ≡ true
unfolding is_claimable
IsAwaiting-open_to now locked r (a, b, c, d, inl (e, f), g) = ground (arith, a, b, c, d, e, f, g)
IsAwaiting-open_to now locked r (a, b, c, d, inr (e, (at, f, h)), g) =
    ground (arith, a, b, c, d, e, f, g, h)

parse_order-NotAfter : (r q : AttachmentRow) → parse_order r q ≡ true → NotAfter r q
unfolding parse_order
parse_order-NotAfter r q h = elim (Bool-cases (ltb r.parse_run_at q.parse_run_at)) [
  | inl sooner ↦ inl (ground (arith, sooner))
  | inr not_sooner ↦ inr (ground (arith, h, not_sooner), ground (arith, h, not_sooner))
]

first_of_candidates :
    (now : ℕ) (locked : List ℕ) (r : AttachmentRow) (rows : List AttachmentRow)
    → All (λ q. (not (open_to now locked q) || parse_order r q) ≡ true) rows
    → All (λ q. (¬ IsAwaiting now locked q) ⊎ NotAfter r q) rows
first_of_candidates now locked r [] k = tt
first_of_candidates now locked r (q ∷ qs) k = (
  elim (Bool-cases (open_to now locked q)) [
    | inl claimable ↦ inr (parse_order-NotAfter r q (rw claimable at k.0))
    | inr shut ↦ inl (λ due. absurd (ground (arith, shut, IsAwaiting-open_to now locked q due)))
  ],
  first_of_candidates now locked r qs k.1,
)

no_candidates :
    (now : ℕ) (locked : List ℕ) (rows : List AttachmentRow)
    → All (λ q. open_to now locked q ≡ false) rows
    → All (λ q. ¬ IsAwaiting now locked q) rows
no_candidates now locked [] k = tt
no_candidates now locked (q ∷ qs) k = (
  λ due. absurd (ground (arith, k.0, IsAwaiting-open_to now locked q due)),
  no_candidates now locked qs k.1,
)

-- A claim takes a due document if there is one that no other transaction has locked, and the one that
-- is due longest: with a job, the row was due, no due row of the table comes before it, and exactly
-- that row is now leased to the worker under the new token; without a job, no row of the table was
-- due, and the tables are as they were.
pub claim_takes_due :
    (worker : String) (token now : ℕ) (locked : List ℕ) (s : ChatStorage)
    → ((r : AttachmentRow) × (claim_attachment_parse worker token now locked s ≡ (
      some (parse_job worker token (claimed worker token now r)),
      record s { attachments = set_attachment r.id (claimed worker token now) s.attachments },
    ))
        × IsAwaiting now locked r
        × All (λ q. (¬ IsAwaiting now locked q) ⊎ NotAfter r q) s.attachments
        × (holds_lease
              (parse_job worker token (claimed worker token now r))
              (claimed worker token now r)
            ≡ true))
      ⊎ ((claim_attachment_parse worker token now locked s ≡ (none, s))
          × All (λ q. ¬ IsAwaiting now locked q) s.attachments)
unfolding claim_attachment_parse
claim_takes_due worker token now locked s =
    elim (Option-cases (parse_candidate now locked s.attachments)) [
      | inl idle ↦ inr (
        ground (arith, idle),
        no_candidates now locked s.attachments (candidate-none now locked s.attachments idle),
      )
      | inr (r, found) ↦
          let (due, first_due) = candidate-found now locked s.attachments r found in
          inl (
            r,
            ground (arith, found),
            open_to-IsAwaiting now locked r due,
            first_of_candidates now locked r s.attachments first_due,
            claimed_lease worker token now r,
          )
    ]

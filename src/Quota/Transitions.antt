-- ===== src/Quota/Transitions.antt =====
-- What `commit` and `release` of src/server/quota/repository.ts do to the accounts.
use openvac_web.Prelude.{
  ℕ, ◌≤◌, String, ◌≡◌, refl, sym, ap, ◌∙◌, ◌≢◌, inl, inr, Bool, true, false, ◌&&◌, ◌||◌, Option,
  List, [], ◌∷◌, arith, ◌==◌, Bool-cases, any, All, ok, err,
}
use openvac_web.Quota.Types.{Target, is_reserved, LedgerRow, Database, reserved}
use openvac_web.Quota.Repository.Rows.{RepositoryTransitionInput}
use openvac_web.Quota.Repository.Transition.{
  settle_row, update_row, transition_row, transition_rows,
}
use openvac_web.Quota.Accounting.{Rows, IsValid}
use openvac_web.Quota.Settling.{
  find_row, bulk, settle_row-keeps, settled, settled-IsValid, transition_row-settled,
  transition_row-skips,
}
use openvac_web.Quota.Selection.{Current, Distinct, settles, bulk_ext}

module _ (t : Target) (reason : Option String) (now : ℕ) where
  find_row-settle_ne :
      (id j : ℕ) (ledger : List LedgerRow)
      → j ≢ id
      → find_row j (update_row id (settle_row t reason now) ledger) ≡ find_row j ledger
  unfolding find_row update_row
  find_row-settle_ne id j [] ne = refl
  find_row-settle_ne id j (r ∷ rs) ne =
      ground (arith, settle_row-keeps t reason now r, find_row-settle_ne id j rs ne)

  Current-settle :
      (id : ℕ) (ledger rows : List LedgerRow)
      → All (λ x. x.id ≢ id) rows
      → Current ledger rows
      → Current (update_row id (settle_row t reason now) ledger) rows
  Current-settle id ledger [] ne k = tt
  Current-settle id ledger (r ∷ rs) ne k =
      (find_row-settle_ne id r.id ledger ne.0 ∙ k.0, Current-settle id ledger rs ne.1 k.1)

  bulk_above :
      (id n : ℕ) (ledger : List LedgerRow)
      → Rows n ledger
      → n ≤ id
      → bulk (λ r. id == r.id) (settle_row t reason now) ledger ≡ ledger
  unfolding bulk
  bulk_above id n [] k h = refl
  bulk_above id n (r ∷ rs) k h = ground (arith, bulk_above id r.id rs k.4)

  update_row-bulk :
      (id n : ℕ) (ledger : List LedgerRow)
      → Rows n ledger
      → update_row id (settle_row t reason now) ledger
        ≡ bulk (λ r. id == r.id) (settle_row t reason now) ledger
  unfolding update_row bulk
  update_row-bulk id n [] k = refl
  update_row-bulk id n (r ∷ rs) k =
      ground (arith, bulk_above id r.id rs k.4, update_row-bulk id r.id rs k.4)

  settle_row_idempotent :
      (r : LedgerRow)
      → settle_row t reason now (settle_row t reason now r) ≡ settle_row t reason now r
  unfolding settle_row
  settle_row_idempotent r = ground arith

  -- Two updates whose tests read only the identifier are one.
  bulk-bulk :
      (p q : ℕ → Bool) (ledger : List LedgerRow)
      → bulk
          (λ r. q r.id)
          (settle_row t reason now)
          (bulk (λ r. p r.id) (settle_row t reason now) ledger)
        ≡ bulk (λ r. p r.id || q r.id) (settle_row t reason now) ledger
  unfolding bulk
  bulk-bulk p q [] = refl
  bulk-bulk p q (r ∷ rs) =
      ground (arith, settle_row-keeps t reason now r, settle_row_idempotent r, bulk-bulk p q rs)

  bulk_none :
      (p : LedgerRow → Bool) (ledger : List LedgerRow)
      → All (λ r. p r ≡ false) ledger
      → bulk p (settle_row t reason now) ledger ≡ ledger
  unfolding bulk
  bulk_none p [] k = refl
  bulk_none p (r ∷ rs) k = rw (k.0, bulk_none p rs k.1)

module _ (input : RepositoryTransitionInput) (t : Target) (now : ℕ) where
  -- What the loop has done when it ends.
  abbrev pub Settles : List LedgerRow → Database → Database → Type 0
  Settles rows db s =
      IsValid s
      × (s.accounts ≡ db.accounts)
      × (s.next_id ≡ db.next_id)
      × (s.ledger ≡ bulk (settles rows) (settle_row t input.reason now) db.ledger)

  pub transition_rows-cons :
      (row : LedgerRow) (rows : List LedgerRow) (db s : Database)
      → transition_row input t now row db ≡ ok (tt, s)
      → transition_rows input t now (row ∷ rows) db ≡ transition_rows input t now rows s
  unfolding transition_rows
  transition_rows-cons row rows db s e =
      λ i. elim (e i) [ ok (a, s') ↦ transition_rows input t now rows s' | err x ↦ err x ]

  settles-skipped :
      (row : LedgerRow) (rows ledger : List LedgerRow)
      → is_reserved row.status ≡ false
      → All (λ r. settles rows r ≡ settles (row ∷ rows) r) ledger
  settles-skipped row rows [] st = tt
  settles-skipped row rows (r ∷ rs) st = (ground arith, settles-skipped row rows rs st)

  settles-held :
      (row : LedgerRow) (rows ledger : List LedgerRow)
      → is_reserved row.status ≡ true
      → All (λ r. ((row.id == r.id) || settles rows r) ≡ settles (row ∷ rows) r) ledger
  settles-held row rows [] st = tt
  settles-held row rows (r ∷ rs) st = (ground arith, settles-held row rows rs st)

  settles-none : (ledger : List LedgerRow) → All (λ r. settles [] r ≡ false) ledger
  settles-none [] = tt
  settles-none (r ∷ rs) = (refl, settles-none rs)

  pub transition_rows-Settles :
      (rows : List LedgerRow) (db : Database)
      → IsValid db
      → Current db.ledger rows
      → Distinct rows
      → (s : Database) × (transition_rows input t now rows db ≡ ok (tt, s)) × Settles rows db s
  unfolding transition_rows
  transition_rows-Settles [] db v k d = (
    db,
    refl,
    (
      v,
      refl,
      refl,
      sym (bulk_none t input.reason now (settles []) db.ledger (settles-none db.ledger)),
    ),
  )
  transition_rows-Settles (row ∷ rows) db v k d = elim (Bool-cases (is_reserved row.status)) [
    | inr skipped ↦
        let (s, e, (v', a, n, l)) = transition_rows-Settles rows db v k.1 d.1 in
        (
          s,
          transition_rows-cons row rows db db (transition_row-skips input t now row db skipped) ∙ e,
          (
            v',
            a,
            n,
            l
                ∙ bulk_ext (settles rows) (settles (row ∷ rows)) (settle_row t input.reason now)
                    db.ledger (settles-skipped row rows db.ledger skipped),
          ),
        )
    | inl held ↦
        let st : row.status ≡ reserved = ground arith in
        let f = settle_row t input.reason now in
        let moved = settled t input.reason now row db in
        let (s, e, (v', a, n, l)) =
          transition_rows-Settles rows moved (settled-IsValid t input.reason now row db v k.0 st)
            (Current-settle t input.reason now row.id db.ledger rows d.0 k.1) d.1 in
        (
          s,
          transition_rows-cons row rows db moved
                (transition_row-settled input t now row db v k.0 st)
              ∙ e,
          (
            v',
            a,
            n,
            l
                ∙ ap (bulk (settles rows) f)
                    (update_row-bulk t input.reason now row.id db.next_id db.ledger v.rows_sound)
                ∙ bulk-bulk t input.reason now (λ j. row.id == j)
                    (λ j. any (λ (x : LedgerRow). x.id == j && is_reserved x.status) rows) db.ledger
                ∙ bulk_ext _ (settles (row ∷ rows)) f db.ledger
                    (settles-held row rows db.ledger held),
          ),
        )
  ]

-- ===== src/Quota/Fresh.antt =====
-- What a new reservation of src/server/quota/repository.ts adds to the ledger.
use openvac_web.Prelude.{
  ℕ, zero, suc, ◌+◌, ◌≡◌, refl, sym, ap, subst, ◌∙◌, ◌⊎◌, inl, inr, true, false, List, [], ◌∷◌,
  ◌++◌, append_assoc, arith, length, sort, All, All-append, length-append, Result, Result-cases,
  Ensures, Ensures-bind, ok, err,
}
use openvac_web.Quota.Types.{
  QuotaScopePolicy, QuotaReservation, BucketRow, LedgerRow, Database, QuotaError, Collation,
  reserved,
}
use openvac_web.Quota.Repository.Rows.{
  RepositoryReserveInput, aggregate_status, compare_scopes, select_idempotent_rows,
  assert_actor_can_reserve, reservation_from_rows,
}
use openvac_web.Quota.Repository.Reserve.{
  new_ledger_row, insert_ledger_row, reserve_scope, reserve_scopes, random_uuid, reserve_new,
  reserve_in_transaction, recover_reserve, reserve,
}
use openvac_web.Quota.Charged.{reserve_scope_ends}

-- A row that the request has just reserved under its lease.
abbrev pub IsNew : RepositoryReserveInput → ℕ → LedgerRow → Type 0
IsNew input lease_id r =
    (r.lease_id ≡ lease_id) × (r.actor_user_id ≡ input.actor_user_id) × (r.status ≡ reserved)

-- The ledger has grown by such rows in front, and is otherwise the old one.
pub record Grown (input : RepositoryReserveInput) (lease_id : ℕ) (old : List LedgerRow)
    (s : Database) (count : ℕ) : Type 0 where
  pub added : List LedgerRow
  pub ledger : s.ledger ≡ added ++ old
  pub each : All (IsNew input lease_id) added
  pub counted : length added ≡ count

insert-IsNew-adds :
    (input : RepositoryReserveInput) (lease_id now id : ℕ) (scope : QuotaScopePolicy)
    (b : BucketRow) (db : Database)
    → Ensures
        (λ r s. IsNew input lease_id r × (s.ledger ≡ r ∷ db.ledger))
        (insert_ledger_row (new_ledger_row input lease_id now scope b id) db)
unfolding insert_ledger_row new_ledger_row
insert-IsNew-adds input lease_id now id scope b db = ground arith

Ensures-mono :
    {S E A : Type 0} (P Q : A → S → Type 0) (r : Result E (A × S))
    → ((a : A) (s : S) → P a s → Q a s)
    → Ensures P r
    → Ensures Q r
Ensures-mono P Q (ok (a, s)) f h = f a s h
Ensures-mono P Q (err e) f h = tt

reserve_scope-adds :
    (input : RepositoryReserveInput) (lease_id now : ℕ) (scope : QuotaScopePolicy) (db : Database)
    → Ensures
        (λ r s. IsNew input lease_id r × (s.ledger ≡ r ∷ db.ledger))
        (reserve_scope input lease_id now scope db)
reserve_scope-adds input lease_id now scope db =
    reserve_scope_ends (λ r s. IsNew input lease_id r × (s.ledger ≡ r ∷ db.ledger)) input lease_id
      now scope db
      λ b s same.
        Ensures-mono (λ r x. IsNew input lease_id r × (x.ledger ≡ r ∷ s.ledger))
          (λ r x. IsNew input lease_id r × (x.ledger ≡ r ∷ db.ledger)) _
          (λ r x h. (h.0, h.1 ∙ ap (λ l. r ∷ l) same))
          (insert-IsNew-adds input lease_id now s.next_id scope b s)

Grown-one :
    (input : RepositoryReserveInput) (lease_id count : ℕ) (r : LedgerRow) (old : List LedgerRow)
    (s x : Database)
    → IsNew input lease_id r
    → s.ledger ≡ r ∷ old
    → Grown input lease_id s.ledger x count
    → Grown input lease_id old x (suc count)
Grown-one input lease_id count r old s x new e g = record {
  added = g.added ++ r ∷ [];
  ledger = g.ledger ∙ ap (λ l. g.added ++ l) e ∙ sym (append_assoc g.added (r ∷ []) old);
  each = All-append (IsNew input lease_id) g.added (r ∷ []) g.each (new, tt);
  counted = omega (arith, length-append g.added (r ∷ []), g.counted);
}

-- The loop's rows, and what they have added.
abbrev Loop : RepositoryReserveInput → ℕ → List LedgerRow → ℕ → List LedgerRow → Database → Type 0
Loop input lease_id old before rows s =
    All (IsNew input lease_id) rows
    × ((count : ℕ) × (length rows ≡ before + count) × Grown input lease_id old s count)

reserve_scopes-grows :
    (input : RepositoryReserveInput) (lease_id now : ℕ) (scopes : List QuotaScopePolicy)
    (rows : List LedgerRow) (db : Database)
    → All (IsNew input lease_id) rows
    → Ensures
        (Loop input lease_id db.ledger (length rows))
        (reserve_scopes input lease_id now scopes rows db)
unfolding reserve_scopes
reserve_scopes-grows input lease_id now [] rows db k =
    (k, (0, omega arith, record { added = []; ledger = refl; each = tt; counted = refl }))
reserve_scopes-grows input lease_id now (scope ∷ scopes) rows db k =
    Ensures-bind (λ r s. IsNew input lease_id r × (s.ledger ≡ r ∷ db.ledger))
      (Loop input lease_id db.ledger (length rows)) (reserve_scope input lease_id now scope) _ db
      (reserve_scope-adds input lease_id now scope db)
      λ row s _ h.
        Ensures-mono (Loop input lease_id s.ledger (length (rows ++ row ∷ [])))
          (Loop input lease_id db.ledger (length rows)) _
          (λ rows' x l. (
            l.0,
            (
              suc l.1.0,
              omega (arith, length-append rows (row ∷ []), l.1.1),
              Grown-one input lease_id l.1.0 row db.ledger s x h.0 h.1 l.1.2,
            ),
          ))
          (reserve_scopes-grows input lease_id now scopes (rows ++ row ∷ []) s
            (All-append (IsNew input lease_id) rows (row ∷ []) k (h.0, tt)))

-- A fresh reservation: it is reserved, not a replay, and its rows stand in front of the old ones.
pub record IsFresh (input : RepositoryReserveInput) (db : Database) (res : QuotaReservation)
    (s : Database) : Type 0 where
  pub lease : res.lease_id ≡ db.next_id
  pub not_replay : res.idempotent ≡ false
  pub open_status : res.status ≡ reserved
  pub grown_count : ℕ
  pub grown : Grown input db.next_id db.ledger s (suc grown_count)

-- Either the answer replays older rows and nothing changes, or the reservation is fresh.
abbrev pub Outcome : RepositoryReserveInput → Database → QuotaReservation → Database → Type 0
Outcome input db res s = ((res.idempotent ≡ true) × (s ≡ db)) ⊎ IsFresh input db res s

fresh_answer :
    (input : RepositoryReserveInput) (db : Database) (rows : List LedgerRow) (s : Database)
    → Loop input db.next_id db.ledger 0 rows s
    → Ensures (λ res x. Outcome input db res x) (reservation_from_rows rows false s)
unfolding reservation_from_rows aggregate_status
fresh_answer input db [] s l = tt
fresh_answer input db (r ∷ rs) s (new, (zero, e, g)) = absurd (omega arith)
fresh_answer input db (r ∷ rs) s (new, (suc count, e, g)) = inr (record {
  lease = new.0.0;
  not_replay = refl;
  open_status = rw new.0.2;
  grown_count = count;
  grown = g;
})

reserve_new-Outcome :
    (c : Collation) (input : RepositoryReserveInput) (now : ℕ) (db : Database)
    → Ensures (Outcome input db) (reserve_new c input now db)
unfolding reserve_new random_uuid
reserve_new-Outcome c input now db =
    let scopes = sort (compare_scopes c) input.scopes in
    let start : Database = record db { next_id = db.next_id + 1 } in
    Ensures-bind (Loop input db.next_id db.ledger 0) (Outcome input db)
      (reserve_scopes input db.next_id now scopes []) (λ rows. reservation_from_rows rows false)
      start (reserve_scopes-grows input db.next_id now scopes [] start tt)
      (λ rows s _ l. fresh_answer input db rows s l)

replay-Outcome :
    (input : RepositoryReserveInput) (rows : List LedgerRow) (db : Database)
    → Ensures (Outcome input db) (reservation_from_rows rows true db)
unfolding reservation_from_rows
replay-Outcome input [] db = tt
replay-Outcome input (r ∷ rs) db = inl (refl, refl)

reserve_in_transaction-Outcome :
    (c : Collation) (input : RepositoryReserveInput) (now : ℕ) (seen db : Database)
    → Ensures (Outcome input db) (reserve_in_transaction c input now seen db)
unfolding reserve_in_transaction assert_actor_can_reserve
reserve_in_transaction-Outcome c input now seen db = ground (
  arith,
  reserve_new-Outcome c input now db,
  replay-Outcome input (select_idempotent_rows c input seen) db,
)

recover_reserve-Outcome :
    (c : Collation) (input : RepositoryReserveInput) (db : Database) (e : QuotaError)
    → Ensures (Outcome input db) (recover_reserve c input db e)
unfolding recover_reserve
recover_reserve-Outcome c input db e =
    ground (arith, replay-Outcome input (select_idempotent_rows c input db) db)

pub reserve-Outcome :
    (c : Collation) (input : RepositoryReserveInput) (now : ℕ) (seen db : Database)
    → Ensures (Outcome input db) (reserve c input now seen db)
unfolding reserve
reserve-Outcome c input now seen db =
    elim (Result-cases (reserve_in_transaction c input now seen db)) [
      | inl (r, e) ↦
          rw (e, Ensures, reserve)
            (subst (Ensures (Outcome input db)) e
              (reserve_in_transaction-Outcome c input now seen db))
      | inr (x, e) ↦ rw (e, Ensures, reserve) (recover_reserve-Outcome c input db x)
    ]

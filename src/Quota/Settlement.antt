-- ===== src/Quota/Settlement.antt =====
-- `transitionQuotaReservation` of src/server/quota/repository.ts as one update of the ledger.
use openvac_web.Prelude.{
  ℕ, ◌<◌, String, ◌≡◌, refl, sym, ap, ◌∙◌, Bool, true, ◌&&◌, Option, List, [], ◌∷◌, arith, length,
  select, sort, length-sort, ◌>>=◌, ◌>>◌, gets, ok, err,
}
use openvac_web.Quota.Types.{
  Target, is_reserved, QuotaReservation, LedgerRow, Database, Collation, to_committed, to_released,
  reservation_not_found,
}
use openvac_web.Quota.Repository.Rows.{
  RepositoryTransitionInput, compare_rows, order_by_scope, reservation_from_rows,
}
use openvac_web.Quota.Repository.Transition.{
  is_lease, select_lease_rows, settle_row, transition_rows, transition_quota_reservation,
}
use openvac_web.Quota.Accounting.{IsValid}
use openvac_web.Quota.Settling.{bulk}
use openvac_web.Quota.Selection.{lease_rows_ready, settles-lease_rows}
use openvac_web.Quota.Transitions.{transition_rows-Settles}

-- The rows of the lease that are still held.
abbrev pub is_open : RepositoryTransitionInput → LedgerRow → Bool
is_open input r = is_lease input r && is_reserved r.status

-- What a transition promises: the accounts stay valid, every open row of the lease is settled at
-- once, and all else of the ledger stays.
pub record Settled (input : RepositoryTransitionInput) (t : Target) (now : ℕ) (db s : Database)
    : Type 0 where
  pub valid : IsValid s
  pub same_accounts : s.accounts ≡ db.accounts
  pub same_next_id : s.next_id ≡ db.next_id
  pub ledger_bulk : s.ledger ≡ bulk (is_open input) (settle_row t input.reason now) db.ledger

length-select-bulk :
    (p q : LedgerRow → Bool) (f : LedgerRow → LedgerRow) (ledger : List LedgerRow)
    → ((r : LedgerRow) → p (f r) ≡ p r)
    → length (select p (bulk q f ledger)) ≡ length (select p ledger)
unfolding bulk
length-select-bulk p q f [] h = refl
length-select-bulk p q f (r ∷ rs) h = ground (arith, h r, length-select-bulk p q f rs h)

is_lease-settle :
    (input : RepositoryTransitionInput) (t : Target) (reason : Option String) (now : ℕ)
    (r : LedgerRow)
    → is_lease input (settle_row t reason now r) ≡ is_lease input r
unfolding is_lease settle_row
is_lease-settle input to_committed reason now r = refl
is_lease-settle input to_released reason now r = refl

pub length-lease_rows :
    (c : Collation) (input : RepositoryTransitionInput) (db : Database)
    → length (select_lease_rows c input db) ≡ length (select (is_lease input) db.ledger)
unfolding select_lease_rows
length-lease_rows c input db =
    length-sort (compare_rows c) (sort (order_by_scope c) (select (is_lease input) db.ledger))
    ∙ length-sort (order_by_scope c) (select (is_lease input) db.ledger)

pub lease_rows-settled :
    (c : Collation) (input : RepositoryTransitionInput) (t : Target) (now : ℕ) (db s : Database)
    → Settled input t now db s
    → length (select_lease_rows c input s) ≡ length (select_lease_rows c input db)
lease_rows-settled c input t now db s k =
    length-lease_rows c input s
    ∙ ap (λ l. length (select (is_lease input) l)) k.ledger_bulk
    ∙ length-select-bulk (is_lease input) (is_open input) _ db.ledger
        (is_lease-settle input t input.reason now)
    ∙ sym (length-lease_rows c input db)

-- The answer that a non-empty list of rows makes up.
reservation_total :
    (rows : List LedgerRow) (db : Database)
    → 0 < length rows
    → (res : QuotaReservation) × (reservation_from_rows rows true db ≡ ok (res, db))
unfolding reservation_from_rows
reservation_total [] db h = elim h [ ]
reservation_total (r ∷ rs) db h = (_, refl)

pub transition_eq :
    (c : Collation) (input : RepositoryTransitionInput) (t : Target) (now : ℕ) (db s : Database)
    → 0 < length (select_lease_rows c input db)
    → transition_rows input t now (select_lease_rows c input db) db ≡ ok (tt, s)
    → transition_quota_reservation c input t now db
      ≡ reservation_from_rows (select_lease_rows c input s) true s
unfolding transition_quota_reservation
transition_eq c input t now db s h e = go (select_lease_rows c input db) h e
  where
    go :
        (rows : List LedgerRow)
        → 0 < length rows
        → transition_rows input t now rows db ≡ ok (tt, s)
        → (elim rows [
          | [] ↦ err (reservation_not_found input.lease_id)
          | row ∷ rest ↦
              (do
                transition_rows input t now (row ∷ rest)
                final_rows ← gets (select_lease_rows c input)
                reservation_from_rows final_rows true)
                db
        ])
          ≡ reservation_from_rows (select_lease_rows c input s) true s
    go [] h e = elim h [ ]
    go (r ∷ rs) h e = λ i. elim (e i) [
      | ok (a, s') ↦ reservation_from_rows (select_lease_rows c input s') true s'
      | err x ↦ err x
    ]

-- On valid tables a transition of a lease that has rows returns, to either target: the tables stay
-- valid, every open row of the lease is settled to the target, and all other rows, the accounts
-- and the next key stay as they are.
pub transition_settles :
    (c : Collation) (input : RepositoryTransitionInput) (t : Target) (now : ℕ) (db : Database)
    → IsValid db
    → 0 < length (select_lease_rows c input db)
    → (res : QuotaReservation) × (s : Database) × (transition_quota_reservation c input t now db
        ≡ ok (res, s))
      × Settled input t now db s
transition_settles c input t now db v h =
    let rows = select_lease_rows c input db in
    let (current, distinct) = lease_rows_ready c input db v in
    let (s, e, (v', a, n, l)) = transition_rows-Settles input t now rows db v current distinct in
    let k : Settled input t now db s = record {
      valid = v';
      same_accounts = a;
      same_next_id = n;
      ledger_bulk = l ∙ settles-lease_rows c input db (settle_row t input.reason now) v;
    } in
    let (res, built) =
      reservation_total (select_lease_rows c input s) s
        (omega (arith, lease_rows-settled c input t now db s k)) in
    (res, s, transition_eq c input t now db s h e ∙ built, k)

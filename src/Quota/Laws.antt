-- ===== src/Quota/Laws.antt =====
-- What `commit` and `release` of src/server/quota promise their callers.
use openvac_web.Quota.Selection.{lease_rows_ready}
use openvac_web.Prelude.{
  ℕ, ◌<◌, String, ◌≡◌, refl, sym, ap, subst, ◌∙◌, inl, inr, Bool, true, false, ◌&&◌, Option, none,
  some, List, [], ◌∷◌, arith, str_eq, ◌==◌, Bool-cases, length, select, sort, All, All-sort, ◌>>=◌,
  ◌>>◌, gets, ok, err,
}
use openvac_web.Quota.Types.{
  Target, is_reserved, QuotaReservation, LedgerRow, Database, Collation, reservation_not_found,
}
use openvac_web.Quota.Repository.Rows.{
  RepositoryTransitionInput, compare_rows, order_by_scope, reservation_from_rows,
}
use openvac_web.Quota.Repository.Transition.{
  is_lease, select_lease_rows, settle_row, transition_rows, transition_quota_reservation,
}
use openvac_web.Quota.Accounting.{IsValid}
use openvac_web.Quota.Settling.{bulk, settle_row-keeps, transition_row-skips}
use openvac_web.Quota.Transitions.{transition_rows-cons, transition_rows-Settles}
use openvac_web.Quota.Settlement.{
  is_open, Settled, lease_rows-settled, transition_eq, transition_settles,
}

-- No row of the lease is open.
abbrev Closed : RepositoryTransitionInput → List LedgerRow → Type 0
Closed input = All (λ r. is_lease input r ≡ true → is_reserved r.status ≡ false)

Closed-bulk :
    (input : RepositoryTransitionInput) (t : Target) (reason : Option String) (now : ℕ)
    (ledger : List LedgerRow)
    → Closed input (bulk (is_open input) (settle_row t reason now) ledger)
unfolding bulk
Closed-bulk input t reason now [] = tt
Closed-bulk input t reason now (r ∷ rs) =
    (λ h. ground (arith, settle_row-keeps t reason now r, h), Closed-bulk input t reason now rs)

Closed-select :
    (input : RepositoryTransitionInput) (ledger : List LedgerRow)
    → Closed input ledger
    → All (λ r. is_reserved r.status ≡ false) (select (is_lease input) ledger)
Closed-select input [] k = tt
Closed-select input (r ∷ rs) k = elim (Bool-cases (is_lease input r)) [
  | inl hit ↦ rw hit (k.0 hit, Closed-select input rs k.1)
  | inr miss ↦ rw miss (Closed-select input rs k.1)
]

transition_rows-skips :
    (input : RepositoryTransitionInput) (t : Target) (now : ℕ) (rows : List LedgerRow)
    (db : Database)
    → All (λ r. is_reserved r.status ≡ false) rows
    → transition_rows input t now rows db ≡ ok (tt, db)
unfolding transition_rows
transition_rows-skips input t now [] db k = refl
transition_rows-skips input t now (r ∷ rs) db k =
    transition_rows-cons input t now r rs db db (transition_row-skips input t now r db k.0)
    ∙ transition_rows-skips input t now rs db k.1

reservation_state :
    (rows : List LedgerRow) (idempotent : Bool) (x s : Database) (res : QuotaReservation)
    → reservation_from_rows rows idempotent x ≡ ok (res, s)
    → x ≡ s
unfolding reservation_from_rows
reservation_state [] idempotent x s res h = absurd (cc)
reservation_state (r ∷ rs) idempotent x s res h = cc

Closed-lease_rows :
    (c : Collation) (input : RepositoryTransitionInput) (t : Target) (now : ℕ) (db s : Database)
    → Settled input t now db s
    → All (λ r. is_reserved r.status ≡ false) (select_lease_rows c input s)
unfolding select_lease_rows
Closed-lease_rows c input t now db s k = All-sort _ (compare_rows c) _ (
    All-sort _ (order_by_scope c) (select (is_lease input) s.ledger) (
      Closed-select input s.ledger (
        subst (Closed input) (sym k.ledger_bulk) (Closed-bulk input t input.reason now db.ledger))))

select_lease_rows_same :
    (c : Collation) (input again : RepositoryTransitionInput) (db : Database)
    → again.lease_id ≡ input.lease_id
    → again.actor_user_id ≡ input.actor_user_id
    → select_lease_rows c again db ≡ select_lease_rows c input db
unfolding select_lease_rows is_lease
select_lease_rows_same c input again db l a = λ i. sort (compare_rows c) (
    sort (order_by_scope c) (
      select
        (λ r.
          r.lease_id == l i
          && elim (a i) [ none ↦ true | some actor ↦ str_eq r.actor_user_id actor ])
        db.ledger))

-- What a successful transition tells.
pub record Success (c : Collation) (input : RepositoryTransitionInput) (t : Target) (now : ℕ)
    (db s : Database) (res : QuotaReservation) : Type 0 where
  pub nonempty : 0 < length (select_lease_rows c input db)
  pub settled : Settled input t now db s
  pub answer : reservation_from_rows (select_lease_rows c input s) true s ≡ ok (res, s)

transition_nonempty :
    (c : Collation) (input : RepositoryTransitionInput) (t : Target) (now : ℕ) (db s : Database)
    (res : QuotaReservation)
    → transition_quota_reservation c input t now db ≡ ok (res, s)
    → 0 < length (select_lease_rows c input db)
unfolding transition_quota_reservation
transition_nonempty c input t now db s res e = go (select_lease_rows c input db) e
  where
    go :
        (rows : List LedgerRow)
        → (elim rows [
          | [] ↦ err (reservation_not_found input.lease_id)
          | row ∷ rest ↦
              (do
                transition_rows input t now (row ∷ rest)
                final_rows ← gets (select_lease_rows c input)
                reservation_from_rows final_rows true)
                db
        ])
          ≡ ok (res, s)
        → 0 < length rows
    go [] e = absurd (cc)
    go (r ∷ rs) e = omega arith

pub transition-Success :
    (c : Collation) (input : RepositoryTransitionInput) (t : Target) (now : ℕ) (db s : Database)
    (res : QuotaReservation)
    → IsValid db
    → transition_quota_reservation c input t now db ≡ ok (res, s)
    → Success c input t now db s res
transition-Success c input t now db s res v e =
    let nonempty = transition_nonempty c input t now db s res e in
    let (res', s', e', k) = transition_settles c input t now db v nonempty in
    let s_eq : s' ≡ s = cc in
    let k' = subst (Settled input t now db) s_eq k in
    let (current, distinct) = lease_rows_ready c input db v in
    let (s₂, run, k₂) =
      transition_rows-Settles input t now (select_lease_rows c input db) db v current distinct in
    let built = sym (transition_eq c input t now db s₂ nonempty run) ∙ e in
    let s₂_eq : s₂ ≡ s = same_state (select_lease_rows c input s₂) s₂ built in
    record {
      nonempty = nonempty;
      settled = k';
      answer =
          subst (λ x. reservation_from_rows (select_lease_rows c input x) true x ≡ ok (res, s))
            s₂_eq built;
    }
  where
    same_state :
        (rows : List LedgerRow) (x : Database)
        → reservation_from_rows rows true x ≡ ok (res, s)
        → x ≡ s
    same_state rows x h = reservation_state rows true x s res h

-- Once a transition of a lease has succeeded on valid accounts, another transition of the same
-- lease by the same actor, to either target, with any reason and at any time, changes nothing and
-- gives the same answer. So a lease is charged or given back at most once.
pub transition_once :
    (c : Collation) (input again : RepositoryTransitionInput) (t u : Target) (now later : ℕ)
    (db s : Database) (res : QuotaReservation)
    → IsValid db
    → again.lease_id ≡ input.lease_id
    → again.actor_user_id ≡ input.actor_user_id
    → transition_quota_reservation c input t now db ≡ ok (res, s)
    → transition_quota_reservation c again u later s ≡ ok (res, s)
transition_once c input again t u now later db s res v same_lease same_actor e =
    let k = transition-Success c input t now db s res v e in
    let same = select_lease_rows_same c input again s same_lease same_actor in
    let closed = Closed-lease_rows c input t now db s k.settled in
    let length_same = lease_rows-settled c input t now db s k.settled in
    let nonempty : 0 < length (select_lease_rows c again s) =
      subst (λ n. 0 < n) (sym length_same ∙ ap length (sym same)) k.nonempty in
    transition_eq c again u later s s nonempty (
      transition_rows-skips again u later (select_lease_rows c again s) s
        (subst (All (λ r. is_reserved r.status ≡ false)) (sym same) closed))
    ∙ rw same k.answer

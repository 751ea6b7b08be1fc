-- ===== src/Quota/Charged.antt =====
-- The rows of a request in the ledger of src/server/quota, and the unique index on them.
use openvac_web.Prelude.{
  ℕ, ◌≡◌, ◌∙◌, inl, inr, Bool, true, ◌&&◌, ◌||◌, some, List, [], ◌∷◌, arith, str_eq, ◌==◌,
  Bool-cases, Option-cases, any, first, Ensures, Ensures-bind,
}
use openvac_web.Quota.Types.{
  same_resource, same_scope_type, QuotaScopePolicy, BucketRow, LedgerRow, Database,
}
use openvac_web.Quota.Repository.Rows.{RepositoryReserveInput}
use openvac_web.Quota.Repository.Reserve.{
  insert_bucket, lock_bucket, reconcile_bucket, take_units, is_duplicate, new_ledger_row,
  insert_ledger_row, reserve_scope,
}

abbrev pub is_charge : RepositoryReserveInput → QuotaScopePolicy → LedgerRow → Bool
is_charge input scope row =
    str_eq row.actor_user_id input.actor_user_id
    && (same_resource row.resource input.resource
        && (str_eq row.client_request_id input.client_request_id
            && (same_scope_type row.scope_type scope.scope_type
                && str_eq row.scope_key scope.scope_key)))

-- The ledger has a row for one of the scopes of the request.
abbrev pub is_charged : RepositoryReserveInput → List QuotaScopePolicy → List LedgerRow → Bool
is_charged input scopes ledger = any (λ scope. any (is_charge input scope) ledger) scopes

first_of_any {ℓ} :
    {A : Type ℓ} (p : A → Bool) (xs : List A) → any p xs ≡ true → (a : A) × (first p xs ≡ some a)
first_of_any p [] h = absurd (cc)
first_of_any p (x ∷ xs) h = elim (Bool-cases (p x)) [
  | inl hit ↦ (x, rw hit)
  | inr miss ↦ let (a, e) = first_of_any p xs (ground arith) in (a, rw miss e)
]

abbrev pub SameLedger : Database → Database → Type 0
SameLedger db s = s.ledger ≡ db.ledger

insert_bucket-ledger :
    (input : RepositoryReserveInput) (scope : QuotaScopePolicy) (db : Database)
    → Ensures (λ _ s. SameLedger db s) (insert_bucket input scope db)
unfolding insert_bucket
insert_bucket-ledger input scope db = ground arith

lock_bucket-ledger :
    (input : RepositoryReserveInput) (scope : QuotaScopePolicy) (db : Database)
    → Ensures (λ _ s. SameLedger db s) (lock_bucket input scope db)
unfolding lock_bucket
lock_bucket-ledger input scope db = ground arith

reconcile_bucket-ledger :
    (scope : QuotaScopePolicy) (existing : BucketRow) (db : Database)
    → Ensures (λ _ s. SameLedger db s) (reconcile_bucket scope existing db)
unfolding reconcile_bucket
reconcile_bucket-ledger scope existing db = ground arith

take_units-ledger :
    (input : RepositoryReserveInput) (scope : QuotaScopePolicy) (b : BucketRow) (db : Database)
    → Ensures (λ _ s. SameLedger db s) (take_units input scope b db)
unfolding take_units
take_units-ledger input scope b db = ground arith

-- A row of the request in the scope makes the insert fail.
pub insert_ledger_row-refuses :
    (input : RepositoryReserveInput) (lease_id now id : ℕ) (scope : QuotaScopePolicy)
    (b : BucketRow) (db : Database)
    → any (is_charge input scope) db.ledger ≡ true
    → Ensures (λ _ _. ⊥) (insert_ledger_row (new_ledger_row input lease_id now scope b id) db)
unfolding insert_ledger_row new_ledger_row
insert_ledger_row-refuses input lease_id now id scope b db h =
    let (row, found) = first_of_any (is_charge input scope) db.ledger h in ground arith

or-true : (a b : Bool) → b ≡ true → (a || b) ≡ true
or-true a b h = ground arith

any-any-cons :
    (q : QuotaScopePolicy → LedgerRow → Bool) (row : LedgerRow) (scopes : List QuotaScopePolicy)
    (ledger : List LedgerRow)
    → any (λ scope. any (q scope) ledger) scopes ≡ true
    → any (λ scope. any (q scope) (row ∷ ledger)) scopes ≡ true
any-any-cons q row [] ledger h = h
any-any-cons q row (scope ∷ scopes) ledger h = elim (Bool-cases (any (q scope) ledger)) [
  | inl here ↦ rw (or-true (q scope row) _ here)
  | inr later ↦ or-true _ _ (any-any-cons q row scopes ledger (rw later at h))
]

is_charged-cons :
    (input : RepositoryReserveInput) (row : LedgerRow) (scopes : List QuotaScopePolicy)
    (ledger : List LedgerRow)
    → is_charged input scopes ledger ≡ true
    → is_charged input scopes (row ∷ ledger) ≡ true
is_charged-cons input row scopes ledger h = any-any-cons (is_charge input) row scopes ledger h

pub insert_ledger_row-charged :
    (input : RepositoryReserveInput) (row : LedgerRow) (scopes : List QuotaScopePolicy)
    (db : Database)
    → is_charged input scopes db.ledger ≡ true
    → Ensures (λ _ s. is_charged input scopes s.ledger ≡ true) (insert_ledger_row row db)
unfolding insert_ledger_row
insert_ledger_row-charged input row scopes db h = elim (Bool-cases (row.units == 0)) [
  | inl none_asked ↦ rw (none_asked, Ensures) tt
  | inr some_asked ↦ elim (Option-cases (first (is_duplicate row) db.ledger)) [
    | inl fresh ↦ rw (some_asked, fresh, Ensures) (is_charged-cons input row scopes db.ledger h)
    | inr (old, taken) ↦ rw (some_asked, taken, Ensures) tt
  ]
]

-- The steps before the insert leave the ledger alone.
pub reserve_scope_ends :
    (Q : LedgerRow → Database → Type 0) (input : RepositoryReserveInput) (lease_id now : ℕ)
    (scope : QuotaScopePolicy) (db : Database)
    → ((b : BucketRow) (s : Database)
        → SameLedger db s
        → Ensures Q (insert_ledger_row (new_ledger_row input lease_id now scope b s.next_id) s))
    → Ensures Q (reserve_scope input lease_id now scope db)
unfolding reserve_scope
reserve_scope_ends Q input lease_id now scope db last =
    Ensures-bind (λ _ s. SameLedger db s) Q (insert_bucket input scope) _ db
      (insert_bucket-ledger input scope db)
      λ _ s₁ _ k₁.
        Ensures-bind (λ _ s. SameLedger s₁ s) Q (lock_bucket input scope) _ s₁
          (lock_bucket-ledger input scope s₁)
          λ existing s₂ _ k₂.
            Ensures-bind (λ _ s. SameLedger s₂ s) Q (reconcile_bucket scope existing) _ s₂
              (reconcile_bucket-ledger scope existing s₂)
              λ b s₃ _ k₃.
                Ensures-bind (λ _ s. SameLedger s₃ s) Q (take_units input scope b) _ s₃
                  (take_units-ledger input scope b s₃) λ _ s₄ _ k₄. last b s₄ (k₄ ∙ k₃ ∙ k₂ ∙ k₁)

-- ===== src/Quota/Types.antt =====
-- src/server/quota/types.ts and the rows of src/server/db/schema/quota.ts. Identifiers that the
-- database or `randomUUID` makes are numbers from a counter; times are milliseconds since 1970.
use openvac_web.Prelude.{ℕ, String, Bool, true, false, Option, List}

pub data QuotaResource : Type 0 where
  answer web_search model_attempt : QuotaResource

pub data QuotaScopeType : Type 0 where
  global user : QuotaScopeType

pub data QuotaReservationStatus : Type 0 where
  committed released reserved : QuotaReservationStatus

pub data Target : Type 0 where
  to_committed to_released : Target

abbrev pub target_status : Target → QuotaReservationStatus
target_status to_committed = committed
target_status to_released = released

abbrev pub same_resource : QuotaResource → QuotaResource → Bool
same_resource answer answer = true
same_resource web_search web_search = true
same_resource model_attempt model_attempt = true
same_resource _ _ = false

abbrev pub same_scope_type : QuotaScopeType → QuotaScopeType → Bool
same_scope_type global global = true
same_scope_type user user = true
same_scope_type _ _ = false

abbrev pub is_committed : QuotaReservationStatus → Bool
is_committed committed = true
is_committed _ = false

abbrev pub is_released : QuotaReservationStatus → Bool
is_released released = true
is_released _ = false

abbrev pub is_reserved : QuotaReservationStatus → Bool
is_reserved reserved = true
is_reserved _ = false

pub record QuotaScopePolicy : Type 0 where
  pub scope_type : QuotaScopeType
  pub scope_key : String
  pub limit : ℕ

pub record QuotaWindow : Type 0 where
  pub key : String
  pub reset_at : ℕ

pub record QuotaScopeUsage : Type 0 where
  pub scope_type : QuotaScopeType
  pub scope_key : String
  pub limit : ℕ
  pub reserved_units : ℕ
  pub committed_units : ℕ
  pub remaining : ℕ
  pub reset_at : ℕ

pub record QuotaReservation : Type 0 where
  pub lease_id : ℕ
  pub actor_user_id : String
  pub client_request_id : String
  pub resource : QuotaResource
  pub units : ℕ
  pub status : QuotaReservationStatus
  pub window : QuotaWindow
  pub scopes : List QuotaScopeUsage
  pub idempotent : Bool

-- A row of `quota_bucket`.
pub record BucketRow : Type 0 where
  pub id : ℕ
  pub resource : QuotaResource
  pub scope_type : QuotaScopeType
  pub scope_key : String
  pub window_key : String
  pub limit_value : ℕ
  pub reserved_units : ℕ
  pub committed_units : ℕ
  pub reset_at : ℕ

-- A row of `quota_ledger`.
pub record LedgerRow : Type 0 where
  pub id : ℕ
  pub lease_id : ℕ
  pub bucket_id : ℕ
  pub actor_user_id : String
  pub client_request_id : String
  pub resource : QuotaResource
  pub scope_type : QuotaScopeType
  pub scope_key : String
  pub window_key : String
  pub units : ℕ
  pub status : QuotaReservationStatus
  pub release_reason : Option String
  pub reserved_at : ℕ
  pub committed_at : Option ℕ
  pub released_at : Option ℕ

-- The columns of `user` that the quota code reads.
pub record AccountRow : Type 0 where
  pub id : String
  pub deletion_requested_at : Option ℕ

-- Newest rows first; `next_id` is above every identifier in use.
pub record Database : Type 0 where
  pub accounts : List AccountRow
  pub buckets : List BucketRow
  pub ledger : List LedgerRow
  pub next_id : ℕ

-- What the code throws, and what the database throws.
pub data QuotaError : Type 0 where
  quota_exceeded : QuotaResource → QuotaScopeType → ℕ → ℕ → QuotaError
  reservation_not_found : ℕ → QuotaError
  account_unavailable account_deletion_pending : QuotaError
  bucket_not_initialized bucket_not_reconciled no_ledger_rows : QuotaError
  unique_violation check_violation integer_out_of_range : QuotaError

-- The two orders of text that the code leaves to its surroundings: `localeCompare` and the
-- collation of the database.
pub record Collation : Type 0 where
  pub locale_le : String → String → Bool
  pub text_le : String → String → Bool

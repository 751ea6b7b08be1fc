-- ===== src/Budget/Types.antt =====
-- The rows of src/server/db/schema/operations.ts that src/server/operations/model-runtime.ts reads
-- and writes, and its types. Money is in whole micros: prices are taken as integers.
use openvac_web.Prelude.{ℕ, String, Bool, Option, List}
use openvac_web.Json.{Json}
use openvac_web.Quota.Types.{AccountRow}

pub record ModelPricing : Type 0 where
  pub input_micros_per_million_tokens : ℕ
  pub output_micros_per_million_tokens : ℕ

pub record ModelBudgetPolicy : Type 0 where
  pub model : String
  pub daily_limit_cents : ℕ
  pub monthly_limit_cents : ℕ
  pub enabled : Bool

pub data OperationStatus : Type 0 where
  queued is_running succeeded has_failed was_cancelled : OperationStatus

pub data CostState : Type 0 where
  cost_reserved cost_actual reserved_estimate : CostState
  reserved_estimate_after_failure reserved_estimate_after_cancellation not_started : CostState

-- `ModelUsage`: what the provider reports.
pub record ModelUsage : Type 0 where
  pub input_tokens : Option ℕ
  pub cached_input_tokens : Option ℕ
  pub output_tokens : Option ℕ

pub record InvocationHandle : Type 0 where
  pub id : ℕ
  pub provider : String
  pub model : String
  pub started_at : ℕ
  pub reserved_cost_micros : ℕ
  pub estimated_input_tokens : ℕ
  pub maximum_output_tokens : ℕ
  pub pricing : ModelPricing

-- `StartInvocationInput`, less the columns that are only stored.
pub record StartInvocationInput : Type 0 where
  pub user_id : String
  pub client_request_id : String
  pub provider : String
  pub model : String
  pub messages : List String
  pub maximum_output_tokens : ℕ

-- A row of `model_invocation`, less the columns that are only stored.
pub record InvocationRow : Type 0 where
  pub id : ℕ
  pub user_id : String
  pub client_request_id : String
  pub provider : String
  pub model : String
  pub status : OperationStatus
  pub input_tokens : Option ℕ
  pub cache_miss_input_tokens : Option ℕ
  pub output_tokens : Option ℕ
  pub cost_micros : Option ℕ
  pub cost_state : CostState
  pub latency_ms : Option ℕ
  pub error_code : Option String
  pub started_at : ℕ
  pub completed_at : Option ℕ

-- A row of `daily_usage`.
pub record DailyUsageRow : Type 0 where
  pub date : ℕ
  pub provider : String
  pub model : String
  pub request_count : ℕ
  pub input_tokens : ℕ
  pub output_tokens : ℕ
  pub cost_cents : ℕ
  pub updated_at : ℕ

pub record ModelDatabase : Type 0 where
  pub accounts : List AccountRow
  pub model_budgets : Option Json
  pub invocations : List InvocationRow
  pub daily_usage : List DailyUsageRow
  pub next_id : ℕ

-- The codes of `ModelRuntimeError`, and what the account's guard throws.
pub data ModelRuntimeError : Type 0 where
  model_disabled model_daily_budget_exhausted model_monthly_budget_exhausted : ModelRuntimeError
  model_pricing_unconfigured account_not_writable : ModelRuntimeError

-- ===== src/Budget/Runtime.antt =====
-- The transactions of src/server/operations/model-runtime.ts. The advisory lock of the model orders
-- the starts of one model, so each is one step.
use openvac_web.Prelude.{
  ℕ, ◌+◌, String, Bool, true, false, not, ◌&&◌, none, some, List, [], ◌∷◌, str_eq, ltb, leb, ◌==◌,
  if◌then◌else◌, first, Tx, ◌>>=◌, ◌>>◌, require, gets, ok, err,
}
use openvac_web.Budget.Types.{
  ModelPricing, ModelBudgetPolicy, OperationStatus, InvocationHandle, StartInvocationInput,
  InvocationRow, ModelDatabase, ModelRuntimeError, queued, is_running, cost_reserved,
  model_disabled, model_pricing_unconfigured, account_not_writable,
}
use openvac_web.Budget.Policy.{
  calculate_model_cost_micros, estimate_input_tokens, find_model_budget, within_model_budget,
  usable_pricing,
}
use openvac_web.Budget.Windows.{Months, beijing_usage_windows}
use mathlib.Core.Option

abbrev pub ModelTx : Type 0 → Type 0
ModelTx A = Tx ModelDatabase ModelRuntimeError A

-- `assertAccountWritable`
unfoldable pub account_writable : String → ModelDatabase → Bool
account_writable user_id db = elim (first (λ a. str_eq a.id user_id) db.accounts) [
  | none ↦ false
  | some account ↦ elim account.deletion_requested_at [ none ↦ true | some at ↦ false ]
]

-- `BUDGET_ACCOUNTED_INVOCATION_STATUSES.includes(status)`
unfoldable pub is_accounted : OperationStatus → Bool
is_accounted queued = false
is_accounted _ = true

-- The rows of a model's calls that started from `from` on and before `to`.
unfoldable pub counts_in : String → ℕ → ℕ → InvocationRow → Bool
unfolding is_accounted
counts_in model from to row =
    str_eq row.model model
    && (is_accounted row.status && (leb from row.started_at && ltb row.started_at to))

unfoldable pub cost_in : String → ℕ → ℕ → List InvocationRow → ℕ
unfolding counts_in
cost_in model from to [] = 0
cost_in model from to (row ∷ rows) =
    (if counts_in model from to row then Option.get_or row.cost_micros 0 else 0)
    + cost_in model from to rows

unfoldable pub sum_reserved_model_cost : String → ℕ → ℕ → ModelDatabase → ℕ
unfolding cost_in
sum_reserved_model_cost model from to db = cost_in model from to db.invocations

-- The guard of a policy, in the order of its checks.
unfoldable pub check_policy :
    String → ModelBudgetPolicy → ModelPricing → Months → ℕ → ℕ → ModelTx (Unit {0})
unfolding usable_pricing beijing_usage_windows sum_reserved_model_cost within_model_budget
check_policy model policy pricing months now reserved_cost db =
    let windows = beijing_usage_windows months now in
    let day_spend = sum_reserved_model_cost model windows.day_start windows.day_end db in
    let month_spend = sum_reserved_model_cost model windows.month_start windows.month_end db in
    if not policy.enabled
    then err model_disabled
    else if not (usable_pricing pricing)
    then err model_pricing_unconfigured
    else elim (within_model_budget policy day_spend month_spend reserved_cost) [
      | some e ↦ err e
      | none ↦ ok (tt, db)
    ]

unfoldable pub check_budget : String → ModelPricing → Months → ℕ → ℕ → ModelTx (Unit {0})
unfolding find_model_budget check_policy
check_budget model pricing months now reserved_cost db =
    elim (find_model_budget db.model_budgets model) [
      | none ↦ ok (tt, db)
      | some policy ↦ check_policy model policy pricing months now reserved_cost db
    ]

unfoldable pub insert_invocation :
    StartInvocationInput → ModelPricing → ℕ → ℕ → ℕ → ModelTx InvocationHandle
insert_invocation input pricing now estimated_input_tokens reserved_cost db = ok (
  record {
    id = db.next_id;
    provider = input.provider;
    model = input.model;
    started_at = now;
    reserved_cost_micros = reserved_cost;
    estimated_input_tokens = estimated_input_tokens;
    maximum_output_tokens = input.maximum_output_tokens;
    pricing = pricing;
  },
  record db {
    invocations =
        record {
          id = db.next_id;
          user_id = input.user_id;
          client_request_id = input.client_request_id;
          provider = input.provider;
          model = input.model;
          status = is_running;
          input_tokens = none;
          cache_miss_input_tokens = none;
          output_tokens = none;
          cost_micros = some reserved_cost;
          cost_state = cost_reserved;
          latency_ms = none;
          error_code = none;
          started_at = now;
          completed_at = none;
        }
        ∷ db.invocations;
    next_id = db.next_id + 1;
  },
)

unfoldable pub start_model_invocation :
    ModelPricing → Months → StartInvocationInput → ℕ → ModelTx InvocationHandle
unfolding account_writable estimate_input_tokens calculate_model_cost_micros check_budget
    insert_invocation
start_model_invocation pricing months input now = do
  let estimated_input_tokens = estimate_input_tokens input.messages
  let reserved_cost =
      calculate_model_cost_micros (some estimated_input_tokens) (some input.maximum_output_tokens)
        pricing
  writable ← gets (account_writable input.user_id)
  require writable account_not_writable
  check_budget input.model pricing months now reserved_cost
  insert_invocation input pricing now estimated_input_tokens reserved_cost

unfoldable pub update_invocation :
    ℕ → (InvocationRow → InvocationRow) → List InvocationRow → List InvocationRow
update_invocation id f [] = []
update_invocation id f (row ∷ rows) =
    if row.id == id then f row ∷ rows else row ∷ update_invocation id f rows

-- The actual cost, when the provider reported both counts; else the reserved one.

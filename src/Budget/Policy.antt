-- ===== src/Budget/Policy.antt =====
-- The pure functions of src/server/operations/model-runtime.ts. The source computes a cost in floating
-- point, with prices that may be fractional; here prices are natural numbers and the cost is exact, so
-- the two quotients are added before they are rounded up.
use openvac_web.Json.{
  Json, JsonItems, JsonFields, get, is_text, record_value, natural, bool_value, number_value,
  array_value, no_items, item,
}
use openvac_web.Script.{codes}
use openvac_web.Prelude.{
  ℕ, ◌+◌, ◌*◌, ◌/◌, max, String, Bool, not, ◌&&◌, Option, none, some, List, [], ◌∷◌, ltb,
  if◌then◌else◌, length,
}
use openvac_web.Budget.Types.{
  ModelPricing, ModelBudgetPolicy, CostState, ModelRuntimeError, reserved_estimate_after_failure,
  reserved_estimate_after_cancellation, not_started, model_disabled, model_daily_budget_exhausted,
  model_monthly_budget_exhausted,
}
use mathlib.Core.Option

abbrev pub micros_per_cent : ℕ
micros_per_cent = 10000

-- `Math.ceil(value / 1_000_000)`
abbrev pub millionths : ℕ → ℕ
millionths value = (value + 999999) / 1000000

unfoldable pub calculate_model_cost_micros : Option ℕ → Option ℕ → ModelPricing → ℕ
calculate_model_cost_micros input_tokens output_tokens pricing = millionths (
    Option.get_or input_tokens 0 * pricing.input_micros_per_million_tokens
    + Option.get_or output_tokens 0 * pricing.output_micros_per_million_tokens)

-- The code points of a text: `Array.from(content).length`.
unfoldable pub characters : List String → ℕ
characters [] = 0
characters (m ∷ ms) = length (codes m) + characters ms

unfoldable pub estimate_input_tokens : List String → ℕ
unfolding characters
estimate_input_tokens messages = max 1 (characters messages + length messages * 12)

limit_of : Option Json → Option ℕ
limit_of (some (number_value (natural n))) = some n
limit_of _ = none

flag_of : Option Json → Option Bool
flag_of (some (bool_value b)) = some b
flag_of _ = none

-- One stored item as the policy of a model, if it is one.
unfoldable pub policy_of : String → JsonFields → Option ModelBudgetPolicy
unfolding limit_of flag_of is_text get
policy_of model value = elim (limit_of (get "dailyLimitCents" value)) [
  | none ↦ none
  | some daily ↦ elim (limit_of (get "monthlyLimitCents" value)) [
    | none ↦ none
    | some monthly ↦ elim (flag_of (get "enabled" value)) [
      | none ↦ none
      | some enabled ↦
          if is_text model (get "model" value)
          then some (record {
            model = model;
            daily_limit_cents = daily;
            monthly_limit_cents = monthly;
            enabled = enabled;
          })
          else none
    ]
  ]
]

unfoldable pub find_in_items : String → JsonItems → Option ModelBudgetPolicy
unfolding policy_of record_value
find_in_items model no_items = none
find_in_items model (item value rest) = elim (policy_of model (record_value (some value))) [
  | some policy ↦ some policy
  | none ↦ find_in_items model rest
]

unfoldable pub find_model_budget : Option Json → String → Option ModelBudgetPolicy
unfolding find_in_items
find_model_budget (some (array_value items)) model = find_in_items model items
find_model_budget _ model = none

-- The error that `assertWithinModelBudget` throws, if any.
unfoldable pub within_model_budget : ModelBudgetPolicy → ℕ → ℕ → ℕ → Option ModelRuntimeError
within_model_budget policy day_spend month_spend reserved_cost =
    if not policy.enabled
    then some model_disabled
    else if ltb (policy.daily_limit_cents * micros_per_cent) (day_spend + reserved_cost)
    then some model_daily_budget_exhausted
    else if ltb (policy.monthly_limit_cents * micros_per_cent) (month_spend + reserved_cost)
    then some model_monthly_budget_exhausted
    else none

unfoldable pub usable_pricing : ModelPricing → Bool
usable_pricing pricing =
    ltb 0 pricing.input_micros_per_million_tokens && ltb 0 pricing.output_micros_per_million_tokens

-- What `failedInvocationAccounting` gives: the cost that stays, and why.
unfoldable pub failed_invocation_accounting : ℕ → Bool → Bool → ℕ × CostState
failed_invocation_accounting reserved_cost cancelled_by_user retain_reserved_estimate =
    if not retain_reserved_estimate then (0, not_started) else (
      reserved_cost,
      if cancelled_by_user
          then reserved_estimate_after_cancellation
          else reserved_estimate_after_failure,
    )

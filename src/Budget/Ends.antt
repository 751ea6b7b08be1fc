-- ===== src/Budget/Ends.antt =====
-- How a model call ends in src/server/operations/model-runtime.ts: `completeModelInvocation` and
-- `failModelInvocation`.
use mathlib.Core.Option
use openvac_web.Budget.Runtime.{ModelTx, update_invocation}
use openvac_web.Prelude.{
  ℕ, ◌+◌, ◌-◌, ◌/◌, String, Bool, ◌&&◌, Option, none, some, List, [], ◌∷◌, str_eq, ◌==◌,
  if◌then◌else◌, ok,
}
use openvac_web.Budget.Types.{
  CostState, ModelUsage, InvocationHandle, InvocationRow, DailyUsageRow, succeeded, has_failed,
  was_cancelled, cost_actual, reserved_estimate,
}
use openvac_web.Budget.Policy.{calculate_model_cost_micros, failed_invocation_accounting}
use openvac_web.Budget.Windows.{Months, beijing_usage_windows}

unfoldable pub completed_cost : InvocationHandle → Option ModelUsage → ℕ × CostState
unfolding calculate_model_cost_micros
completed_cost handle none = (handle.reserved_cost_micros, reserved_estimate)
completed_cost handle (some usage) = elim usage.input_tokens [
  | none ↦ (handle.reserved_cost_micros, reserved_estimate)
  | some input ↦ elim usage.output_tokens [
    | none ↦ (handle.reserved_cost_micros, reserved_estimate)
    | some output ↦
        (calculate_model_cost_micros (some input) (some output) handle.pricing, cost_actual)
  ]
]

-- A column that an update leaves alone when its value is undefined.
updated {ℓ} : {A : Type ℓ} → Option A → Option A → Option A
updated (some a) old = some a
updated none old = old

usage_field : (ModelUsage → Option ℕ) → Option ModelUsage → Option ℕ
usage_field f none = none
usage_field f (some usage) = f usage

cache_miss : Option ModelUsage → Option ℕ
unfolding usage_field
cache_miss usage = elim (usage_field (λ u. u.input_tokens) usage) [
  | none ↦ none
  | some n ↦ some (n - Option.get_or (usage_field (λ u. u.cached_input_tokens) usage) 0)
]

unfoldable pub complete_row :
    InvocationHandle → Option ModelUsage → ℕ → InvocationRow → InvocationRow
unfolding completed_cost updated usage_field cache_miss
complete_row handle usage now row = record row {
  status = succeeded;
  input_tokens = updated (usage_field (λ u. u.input_tokens) usage) row.input_tokens;
  cache_miss_input_tokens = updated (cache_miss usage) row.cache_miss_input_tokens;
  output_tokens = updated (usage_field (λ u. u.output_tokens) usage) row.output_tokens;
  cost_micros = some (completed_cost handle usage).0;
  cost_state = (completed_cost handle usage).1;
  latency_ms = some (now - handle.started_at);
  completed_at = some now;
}

-- `Math.ceil(costMicros / MICROS_PER_CENT)`
abbrev pub cents : ℕ → ℕ
cents cost = (cost + 9999) / 10000

-- The insert of a day's usage, or its update: the key is the day, the provider and the model.
unfoldable pub add_usage : DailyUsageRow → List DailyUsageRow → List DailyUsageRow
add_usage new [] = new ∷ []
add_usage new (row ∷ rows) =
    if row.date == new.date && (str_eq row.provider new.provider && str_eq row.model new.model)
    then record row {
      request_count = row.request_count + 1;
      input_tokens = row.input_tokens + new.input_tokens;
      output_tokens = row.output_tokens + new.output_tokens;
      cost_cents = row.cost_cents + new.cost_cents;
      updated_at = new.updated_at;
    }
      ∷ rows
    else row ∷ add_usage new rows

unfoldable pub complete_model_invocation :
    Months → InvocationHandle → Option ModelUsage → ℕ → ModelTx (Unit {0})
unfolding completed_cost usage_field beijing_usage_windows update_invocation complete_row add_usage
complete_model_invocation months handle usage now db = ok (
  tt,
  record db {
    invocations = update_invocation handle.id (complete_row handle usage now) db.invocations;
    daily_usage =
        add_usage
          (record {
            date = (beijing_usage_windows months now).day_start;
            provider = handle.provider;
            model = handle.model;
            request_count = 1;
            input_tokens = Option.get_or (usage_field (λ u. u.input_tokens) usage) 0;
            output_tokens = Option.get_or (usage_field (λ u. u.output_tokens) usage) 0;
            cost_cents = cents (completed_cost handle usage).0;
            updated_at = now;
          })
          db.daily_usage;
  },
)

-- How a call fails: its status, its code, and whether the estimate stays charged.
pub record FailedInvocation : Type 0 where
  pub cancelled_by_user : Bool
  pub error_code : String
  pub retain_reserved_estimate : Bool

unfoldable pub fail_row : InvocationHandle → FailedInvocation → ℕ → InvocationRow → InvocationRow
unfolding failed_invocation_accounting
fail_row handle failure now row =
    let accounting =
      failed_invocation_accounting handle.reserved_cost_micros failure.cancelled_by_user
        failure.retain_reserved_estimate in
    record row {
      status = if failure.cancelled_by_user then was_cancelled else has_failed;
      cost_micros = some accounting.0;
      cost_state = accounting.1;
      latency_ms = some (now - handle.started_at);
      error_code = some failure.error_code;
      completed_at = some now;
    }

unfoldable pub fail_model_invocation : InvocationHandle → FailedInvocation → ℕ → ModelTx (Unit {0})
unfolding update_invocation fail_row
fail_model_invocation handle failure now db = ok (
  tt,
  record db {
    invocations = update_invocation handle.id (fail_row handle failure now) db.invocations;
  },
)

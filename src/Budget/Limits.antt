-- ===== src/Budget/Limits.antt =====
-- The daily and the monthly limit of src/server/operations/model-runtime.ts over any order of calls.

use openvac_web.Prelude.{ℕ, ◌*◌, ◌≤◌, String, ◌≡◌, Option, some, after, ok}
use openvac_web.Budget.Types.{
  ModelPricing, ModelBudgetPolicy, ModelUsage, InvocationHandle, StartInvocationInput,
  ModelDatabase,
}
use openvac_web.Budget.Windows.{Months, beijing_usage_windows}
use openvac_web.Budget.Policy.{find_model_budget, failed_invocation_accounting}
use openvac_web.Budget.Runtime.{cost_in, start_model_invocation}
use openvac_web.Budget.Ends.{
  completed_cost, complete_model_invocation, FailedInvocation, fail_model_invocation,
}
use openvac_web.Budget.Spending.{Covers}

-- The cost that a failed call keeps.
abbrev pub failed_cost : InvocationHandle → FailedInvocation → ℕ
failed_cost handle failure =
    let accounting =
      failed_invocation_accounting handle.reserved_cost_micros failure.cancelled_by_user
        failure.retain_reserved_estimate in
    accounting.0

-- One transaction on the calls of the models. A call completes or fails within what is reserved for it: the
-- code takes the provider's counts as they are.
pub data Step (months : Months) (db : ModelDatabase) : ModelDatabase → Type 0 where
  starts :
      (pricing : ModelPricing) (input : StartInvocationInput) (now : ℕ) (h : InvocationHandle)
      (s : ModelDatabase)
      → start_model_invocation pricing months input now db ≡ ok (h, s)
      → Step months db s
  completes :
      (handle : InvocationHandle) (usage : Option ModelUsage) (now : ℕ)
      → Covers handle.id (completed_cost handle usage).0 db.invocations
      → Step months db (after db (complete_model_invocation months handle usage now db))
  fails :
      (handle : InvocationHandle) (failure : FailedInvocation) (now : ℕ)
      → Covers handle.id (failed_cost handle failure) db.invocations
      → Step months db (after db (fail_model_invocation handle failure now db))

-- Any number of steps.
pub data Steps (months : Months) (db : ModelDatabase) : ModelDatabase → Type 0 where
  no_step : Steps months db db
  one_more : (x y : ModelDatabase) → Steps months db x → Step months x y → Steps months db y

-- The spending of a model stays within its policy in every day and in every month.
pub record Within (months : Months) (policy : ModelBudgetPolicy) (model : String)
    (db : ModelDatabase) : Type 0 where
  pub found : find_model_budget db.model_budgets model ≡ some policy
  pub daily :
      (at : ℕ)
      → cost_in model
          (beijing_usage_windows months at).day_start
          (beijing_usage_windows months at).day_end
          db.invocations
        ≤ policy.daily_limit_cents * 10000
  pub monthly :
      (at : ℕ)
      → cost_in model
          (beijing_usage_windows months at).month_start
          (beijing_usage_windows months at).month_end
          db.invocations
        ≤ policy.monthly_limit_cents * 10000

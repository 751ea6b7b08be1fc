-- ===== src/Budget/Examples.antt =====
-- The budget at concrete inputs: a policy of 100 cents a day and 1,000 a month.
use openvac_web.Budget.Reserve.{completed_within_reserve}
use openvac_web.Prelude.{◌*◌, ◌/◌, ◌≤◌, ◌≡◌, refl, true, none, some, [], ◌∷◌, arith, after, ok}
use openvac_web.Json.{
  Json, natural, bool_value, number_value, string_value, array_value, object_value, no_items, item,
  no_fields, field,
}
use openvac_web.Budget.Types.{
  ModelPricing, ModelBudgetPolicy, ModelUsage, InvocationHandle, StartInvocationInput,
  ModelDatabase,
}
use openvac_web.Budget.Windows.{Months, beijing_usage_windows}
use openvac_web.Budget.Policy.{calculate_model_cost_micros, estimate_input_tokens}
use openvac_web.Budget.Runtime.{check_budget, start_model_invocation}
use openvac_web.Budget.Ends.{completed_cost}

-- A calendar whose months have 30 days.
abbrev thirty_days : Months
thirty_days = record {
  month_of = λ day. day / 30;
  first_day = λ month. month * 30;
  starts_before = λ day. omega arith;
  ends_after = λ day. omega arith;
  only_month = λ day month h k. omega arith;
}

abbrev stored_policy : Json
stored_policy = array_value (
    item
      (object_value (
        field "model" (string_value "flash") (
          field "dailyLimitCents" (number_value (natural 100)) (
            field "monthlyLimitCents" (number_value (natural 1000))
              (field "enabled" (bool_value true) no_fields)))))
      no_items)

abbrev policy : ModelBudgetPolicy
policy = record {
  model = "flash";
  daily_limit_cents = 100;
  monthly_limit_cents = 1000;
  enabled = true;
}

abbrev pricing : ModelPricing
pricing = record {
  input_micros_per_million_tokens = 1000000;
  output_micros_per_million_tokens = 2000000;
}

abbrev no_calls : ModelDatabase
no_calls = record {
  accounts = record { id = "ann"; deletion_requested_at = none } ∷ [];
  model_budgets = some stored_policy;
  invocations = [];
  daily_usage = [];
  next_id = 1;
}

abbrev call : StartInvocationInput
call = record {
  user_id = "ann";
  client_request_id = "first";
  provider = "p";
  model = "flash";
  messages = "hi" ∷ [];
  maximum_output_tokens = 100;
}

abbrev one_call : ModelDatabase
one_call = after no_calls (start_model_invocation pricing thirty_days call 5 no_calls)

-- The estimate is 14 tokens in, and the reserve 14 + 200 micros.
abbrev handle : InvocationHandle
handle = record {
  id = 1;
  provider = "p";
  model = "flash";
  started_at = 5;
  reserved_cost_micros = 214;
  estimated_input_tokens = 14;
  maximum_output_tokens = 100;
  pricing = pricing;
}

call_starts : start_model_invocation pricing thirty_days call 5 no_calls ≡ ok (handle, one_call)
unfolding start_model_invocation check_budget beijing_usage_windows calculate_model_cost_micros
    estimate_input_tokens
call_starts = refl

abbrev usage : ModelUsage
usage = record { input_tokens = some 10; cached_input_tokens = none; output_tokens = some 50 }

completed_within_reserve_example : (completed_cost handle (some usage)).0 ≤ 214
completed_within_reserve_example =
    completed_within_reserve pricing thirty_days call 5 no_calls one_call handle usage call_starts
      (omega arith) (omega arith)

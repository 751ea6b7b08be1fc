-- ===== src/Quota/Service.antt =====
-- `reserve` and `status` of src/server/quota/service.ts. The environment is a function from variable
-- names; the account's bonus is what `readAnswerBonus` returns.
use openvac_web.Script.{Environment, is_blank, parse_int, max_safe_integer, safe_positive}
use openvac_web.Prelude.{
  ℕ, ◌+◌, min, String, ◌||◌, Option, none, some, List, [], ◌∷◌, ltb, leb, ◌==◌, if◌then◌else◌,
  Result, Tx, ok, err,
}
use openvac_web.Quota.Types.{
  QuotaResource, QuotaReservationStatus, same_resource, QuotaScopePolicy, QuotaWindow,
  QuotaScopeUsage, QuotaReservation, Database, QuotaError, Collation, answer, web_search,
  model_attempt, global, user,
}
use openvac_web.Quota.Window.{Calendar, shanghai_daily_window}
use openvac_web.Quota.Repository.Rows.{RepositoryReserveInput}
use openvac_web.Quota.Repository.Reserve.{reserve}
use openvac_web.Quota.Repository.Status.{status}
use mathlib.Core.Option

unfoldable pub positive_integer : Option String → ℕ → ℕ
positive_integer value fallback =
    Option.get_or (safe_positive (parse_int (Option.get_or value ""))) fallback

-- A number of the row, or none.
unfoldable pub non_negative_integer : Option ℕ → ℕ
non_negative_integer none = 0
non_negative_integer (some n) = if leb n max_safe_integer then n else 0

pub record QuotaLimits : Type 0 where
  pub answer_daily : ℕ
  pub web_search_user_daily : ℕ
  pub web_search_global_daily : ℕ
  pub model_attempt_user_daily : ℕ
  pub model_attempt_global_daily : ℕ

or_else : Option String → Option String → Option String
or_else (some a) b = some a
or_else none b = b

unfoldable pub quota_limits_from_environment : Environment → QuotaLimits
unfolding or_else positive_integer
quota_limits_from_environment env = record {
  answer_daily = positive_integer (env "ANSWER_DAILY_LIMIT") 20;
  web_search_user_daily =
      positive_integer
        (or_else (env "WEB_SEARCH_PER_USER_DAILY_LIMIT")
          (env "ALIBABA_WEB_SEARCH_PER_USER_DAILY_LIMIT"))
        5;
  web_search_global_daily =
      positive_integer
        (or_else (env "WEB_SEARCH_GLOBAL_DAILY_LIMIT")
          (env "ALIBABA_WEB_SEARCH_GLOBAL_DAILY_LIMIT"))
        500;
  model_attempt_user_daily = positive_integer (env "MODEL_ATTEMPT_PER_USER_DAILY_LIMIT") 30;
  model_attempt_global_daily = positive_integer (env "MODEL_ATTEMPT_GLOBAL_DAILY_LIMIT") 1000;
}

pub record ReserveQuotaInput : Type 0 where
  pub user_id : String
  pub client_request_id : String
  pub resource : QuotaResource
  pub units : Option ℕ
  pub at : ℕ

-- What the service throws. `F` is what the guarded operation throws.
pub data ServiceError (F : Type 0) : Type 0 where
  user_id_required client_request_id_required units_not_positive : ServiceError F
  quota : QuotaError → ServiceError F
  request_in_progress : ServiceError F
  request_already_used : QuotaReservationStatus → ServiceError F
  operation_failed : F → ServiceError F
  aggregate : F → QuotaError → ServiceError F
  commit_failed : QuotaError → ServiceError F
  commit_and_release_failed : QuotaError → QuotaError → ServiceError F

unfoldable pub scopes : QuotaLimits → String → QuotaResource → ℕ → List QuotaScopePolicy
scopes limits user_id answer answer_bonus =
    record { scope_type = user; scope_key = user_id; limit = limits.answer_daily + answer_bonus }
    ∷ []
scopes limits user_id web_search answer_bonus =
    record { scope_type = global; scope_key = "all"; limit = limits.web_search_global_daily }
    ∷ record { scope_type = user; scope_key = user_id; limit = limits.web_search_user_daily }
    ∷ []
scopes limits user_id model_attempt answer_bonus =
    record { scope_type = global; scope_key = "all"; limit = limits.model_attempt_global_daily }
    ∷ record { scope_type = user; scope_key = user_id; limit = limits.model_attempt_user_daily }
    ∷ []

-- What surrounds the service.
pub record Host : Type 0 where
  pub collation : Collation
  pub calendar : Calendar
  pub limits : QuotaLimits
  pub read_answer_bonus : String → ℕ

answer_bonus_for : Host → ReserveQuotaInput → ℕ
answer_bonus_for host input =
    if same_resource input.resource answer then host.read_answer_bonus input.user_id else 0

-- The repository's request for a validated one.
unfoldable pub repository_input : Host → ReserveQuotaInput → RepositoryReserveInput
unfolding scopes answer_bonus_for
repository_input host input = record {
  actor_user_id = input.user_id;
  client_request_id = input.client_request_id;
  resource = input.resource;
  units = Option.get_or input.units 1;
  window = shanghai_daily_window host.calendar input.at;
  scopes = scopes host.limits input.user_id input.resource (answer_bonus_for host input);
}

unfoldable pub lift_quota :
    {F : Type 0} {A : Type 0} → Result QuotaError A → Result (ServiceError F) A
lift_quota (ok a) = ok a
lift_quota (err e) = err (quota e)

-- `QuotaService.reserve`; `seen` is the older snapshot of its first select.
unfoldable pub service_reserve :
    {F : Type 0}
    → Host
    → ReserveQuotaInput
    → ℕ
    → Database
    → Tx Database (ServiceError F) QuotaReservation
unfolding repository_input lift_quota
service_reserve host input now seen db =
    let units = Option.get_or input.units 1 in
    if is_blank input.user_id
    then err user_id_required
    else if is_blank input.client_request_id
    then err client_request_id_required
    else if units == 0 || ltb max_safe_integer units
    then err units_not_positive
    else lift_quota (reserve host.collation (repository_input host input) now seen db)

pub record QuotaStatus : Type 0 where
  pub resource : QuotaResource
  pub window : QuotaWindow
  pub scope_usages : List QuotaScopeUsage
  pub remaining : ℕ

-- `Math.min(...)` of a list that starts with `n`.
min_of : ℕ → List QuotaScopeUsage → ℕ
min_of n [] = n
min_of n (u ∷ us) = min n (min_of u.remaining us)

-- `Math.min()` of no numbers is infinite, but `scopes` is never empty.
min_remaining : List QuotaScopeUsage → ℕ
unfolding min_of
min_remaining [] = 0
min_remaining (u ∷ us) = min_of u.remaining us

-- `QuotaService.status`.
unfoldable pub service_status :
    {F : Type 0} → Host → ReserveQuotaInput → Database → Result (ServiceError F) QuotaStatus
unfolding repository_input min_remaining status
service_status host input db =
    let request = repository_input host input in
    let usages =
      status
        (record { resource = request.resource; window = request.window; scopes = request.scopes })
        db in
    if is_blank input.user_id
    then err user_id_required
    else ok (record {
      resource = input.resource;
      window = request.window;
      scope_usages = usages;
      remaining = min_remaining usages;
    })

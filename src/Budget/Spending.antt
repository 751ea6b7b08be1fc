-- ===== src/Budget/Spending.antt =====
-- The spending limits of src/server/operations/model-runtime.ts, over any order of calls.
use openvac_web.Prelude.{
  ℕ, ◌+◌, ◌*◌, ◌≤◌, String, ◌≡◌, refl, ap, ◌∙◌, inl, inr, true, some, List, [], ◌∷◌, arith, ◌==◌,
  if◌then◌else◌, ==_iff, Bool-cases, Option-cases, All, Result-cases, Ensures, ok,
}
use openvac_web.Budget.Types.{
  ModelPricing, ModelBudgetPolicy, StartInvocationInput, InvocationRow, ModelDatabase, is_running,
}
use openvac_web.Budget.Windows.{Months, beijing_usage_windows}
use openvac_web.Budget.Policy.{
  calculate_model_cost_micros, estimate_input_tokens, find_model_budget, within_model_budget,
}
use openvac_web.Budget.Runtime.{
  account_writable, is_accounted, counts_in, cost_in, sum_reserved_model_cost, check_policy,
  check_budget, insert_invocation, start_model_invocation, update_invocation,
}
use mathlib.Core.Option

-- Every call under a key is counted, and has a cost of at least `cost`.
abbrev pub Covers : ℕ → ℕ → List InvocationRow → Type 0
Covers id cost =
    All (λ r. r.id ≡ id → (is_accounted r.status ≡ true) × (cost ≤ Option.get_or r.cost_micros 0))

row_cost_less :
    (model : String) (from to cost : ℕ) (r r' : InvocationRow)
    → r'.model ≡ r.model
    → r'.started_at ≡ r.started_at
    → r'.cost_micros ≡ some cost
    → is_accounted r.status ≡ true
    → cost ≤ Option.get_or r.cost_micros 0
    → (if counts_in model from to r' then Option.get_or r'.cost_micros 0 else 0)
      ≤ (if counts_in model from to r then Option.get_or r.cost_micros 0 else 0)
unfolding counts_in
row_cost_less model from to cost r r' m t c a le = rw (m, t, c, a) (ground (arith))

pub cost_in-update :
    (model : String) (from to id cost : ℕ) (f : InvocationRow → InvocationRow)
    (rows : List InvocationRow)
    → ((r : InvocationRow)
        → ((f r).model ≡ r.model)
          × ((f r).started_at ≡ r.started_at)
          × ((f r).cost_micros ≡ some cost))
    → Covers id cost rows
    → cost_in model from to (update_invocation id f rows) ≤ cost_in model from to rows
unfolding cost_in update_invocation
cost_in-update model from to id cost f [] same k = omega arith
cost_in-update model from to id cost f (r ∷ rs) same k =
    let rest = cost_in-update model from to id cost f rs same k.1 in
    elim (Bool-cases (r.id == id)) [
      | inl hit ↦
          let own = same r in
          let covered = k.0 ((==_iff r.id id).0 hit) in
          let less =
            row_cost_less model from to cost r (f r) own.0 own.1 own.2 covered.0 covered.1 in
          rw (hit, cost_in) (omega (arith, less))
      | inr miss ↦ rw (miss, cost_in) (omega (arith, rest))
    ]

-- What a start has checked and written.
pub record Started (pricing : ModelPricing) (months : Months) (input : StartInvocationInput)
    (now : ℕ) (db s : ModelDatabase) : Type 0 where
  pub cost : ℕ
  pub row : InvocationRow
  pub inserted : s.invocations ≡ row ∷ db.invocations
  pub own_model : row.model ≡ input.model
  pub own_cost : row.cost_micros ≡ some cost
  pub own_start : row.started_at ≡ now
  pub own_status : row.status ≡ is_running
  pub same_budgets : s.model_budgets ≡ db.model_budgets
  pub checked : check_budget input.model pricing months now cost db ≡ ok (tt, db)

check_budget-unchanged :
    (model : String) (pricing : ModelPricing) (months : Months) (now cost : ℕ)
    (db s : ModelDatabase)
    → check_budget model pricing months now cost db ≡ ok (tt, s)
    → s ≡ db
unfolding check_budget check_policy
check_budget-unchanged model pricing months now cost db s e =
    elim (Option-cases (find_model_budget db.model_budgets model)) [
      | inl free ↦ ground (arith, free, e)
      | inr (policy, found) ↦ ground (arith, found, e)
    ]

pub start-Started :
    (pricing : ModelPricing) (months : Months) (input : StartInvocationInput) (now : ℕ)
    (db : ModelDatabase)
    → Ensures
        (λ _ s. Started pricing months input now db s)
        (start_model_invocation pricing months input now db)
unfolding start_model_invocation insert_invocation
start-Started pricing months input now db =
    let cost =
      calculate_model_cost_micros (some (estimate_input_tokens input.messages))
        (some input.maximum_output_tokens) pricing in
    elim (Bool-cases (account_writable input.user_id db)) [
      | inr refused ↦ rw (refused, Ensures) tt
      | inl writable ↦ elim (Result-cases (check_budget input.model pricing months now cost db)) [
        | inr (x, thrown) ↦ rw (writable, thrown, Ensures) tt
        | inl ((u, s), passed) ↦
            let same = check_budget-unchanged input.model pricing months now cost db s passed in
            let passed' : check_budget input.model pricing months now cost db ≡ ok (tt, db) =
              passed ∙ ap (λ x. ok (tt, x)) same in
            rw (writable, passed', Ensures)
              (record {
                cost = cost;
                row = _;
                inserted = refl;
                own_model = refl;
                own_cost = refl;
                own_start = refl;
                own_status = refl;
                same_budgets = refl;
                checked = passed';
              })
      ]
    ]

-- The spending that a policy allows, in the windows of a time.
pub record Checked (policy : ModelBudgetPolicy) (months : Months) (model : String) (now cost : ℕ)
    (rows : List InvocationRow) : Type 0 where
  pub daily :
      cost_in model
          (beijing_usage_windows months now).day_start
          (beijing_usage_windows months now).day_end
          rows
        + cost
      ≤ policy.daily_limit_cents * 10000
  pub monthly :
      cost_in model
          (beijing_usage_windows months now).month_start
          (beijing_usage_windows months now).month_end
          rows
        + cost
      ≤ policy.monthly_limit_cents * 10000

pub check_policy-Checked :
    (policy : ModelBudgetPolicy) (pricing : ModelPricing) (months : Months) (model : String)
    (now cost : ℕ) (db s : ModelDatabase)
    → check_policy model policy pricing months now cost db ≡ ok (tt, s)
    → Checked policy months model now cost db.invocations
unfolding check_policy within_model_budget sum_reserved_model_cost
check_policy-Checked policy pricing months model now cost db s e = record {
  daily = ground (arith, e);
  monthly = ground (arith, e);
}

pub check_budget_found :
    (policy : ModelBudgetPolicy) (pricing : ModelPricing) (months : Months) (model : String)
    (now cost : ℕ) (db : ModelDatabase)
    → find_model_budget db.model_budgets model ≡ some policy
    → check_budget model pricing months now cost db
      ≡ check_policy model policy pricing months now cost db
unfolding check_budget
check_budget_found policy pricing months model now cost db found = rw (found, check_budget) refl

pub cost_in-grown :
    (model : String) (from to cost limit : ℕ) (row : InvocationRow)
    (rows grown : List InvocationRow)
    → row.cost_micros ≡ some cost
    → grown ≡ row ∷ rows
    → cost_in model from to rows + cost ≤ limit
    → cost_in model from to grown ≤ limit
unfolding cost_in
cost_in-grown model from to cost limit row rows grown own e le =
    rw (e, cost_in) (ground (arith, own, le))

-- ===== src/Budget/Reserve.antt =====
-- The cost that src/server/operations/model-runtime.ts reserves for a call, against what it ends with.
use openvac_web.Prelude.{
  ℕ, ◌≤◌, ◌≡◌, refl, subst, inl, inr, Option, none, some, arith, Bool-cases, Result-cases, Ensures,
  ok,
}
use openvac_web.Budget.Types.{
  ModelPricing, ModelUsage, InvocationHandle, StartInvocationInput, ModelDatabase,
}
use openvac_web.Budget.Windows.{Months}
use openvac_web.Budget.Policy.{calculate_model_cost_micros, estimate_input_tokens}
use openvac_web.Budget.Runtime.{
  account_writable, check_budget, insert_invocation, start_model_invocation,
}
use openvac_web.Budget.Ends.{completed_cost}
use native.Mathlib.Nat.{mul-le-mul_right}
use mathlib.Core.Option

-- More tokens cost no less.
cost_mono :
    (a b c d : ℕ) (pricing : ModelPricing)
    → a ≤ c
    → b ≤ d
    → calculate_model_cost_micros (some a) (some b) pricing
      ≤ calculate_model_cost_micros (some c) (some d) pricing
unfolding calculate_model_cost_micros
cost_mono a b c d pricing h k =
    let input = mul-le-mul_right pricing.input_micros_per_million_tokens h in
    let output = mul-le-mul_right pricing.output_micros_per_million_tokens k in
    omega (arith, input, output)

-- The cost of a reserve is the cost of all the tokens that the call may use.
abbrev Priced : InvocationHandle → Type 0
Priced h =
    h.reserved_cost_micros
    ≡ calculate_model_cost_micros (some h.estimated_input_tokens) (some h.maximum_output_tokens)
        h.pricing

start-Priced :
    (pricing : ModelPricing) (months : Months) (input : StartInvocationInput) (now : ℕ)
    (db : ModelDatabase)
    → Ensures (λ h _. Priced h) (start_model_invocation pricing months input now db)
unfolding start_model_invocation insert_invocation
start-Priced pricing months input now db =
    let cost =
      calculate_model_cost_micros (some (estimate_input_tokens input.messages))
        (some input.maximum_output_tokens) pricing in
    elim (Bool-cases (account_writable input.user_id db)) [
      | inr refused ↦ rw (refused, Ensures) tt
      | inl writable ↦ elim (Result-cases (check_budget input.model pricing months now cost db)) [
        | inr (x, thrown) ↦ rw (writable, thrown, Ensures) tt
        | inl ((u, s), passed) ↦ rw (writable, passed, Ensures) refl
      ]
    ]

-- A call that uses no more tokens than its start estimated and allowed costs no more than its start
-- reserved, whether the provider reports both counts or not.
pub completed_within_reserve :
    (pricing : ModelPricing) (months : Months) (input : StartInvocationInput) (now : ℕ)
    (db s : ModelDatabase) (h : InvocationHandle) (usage : ModelUsage)
    → start_model_invocation pricing months input now db ≡ ok (h, s)
    → Option.get_or usage.input_tokens 0 ≤ h.estimated_input_tokens
    → Option.get_or usage.output_tokens 0 ≤ h.maximum_output_tokens
    → (completed_cost h (some usage)).0 ≤ h.reserved_cost_micros
unfolding completed_cost
completed_within_reserve pricing months input now db s h usage e i o =
    go usage.input_tokens usage.output_tokens i o
  where
    priced : Priced h
    priced = subst (Ensures (λ x _. Priced x)) e (start-Priced pricing months input now db)

    go :
        (a b : Option ℕ)
        → Option.get_or a 0 ≤ h.estimated_input_tokens
        → Option.get_or b 0 ≤ h.maximum_output_tokens
        → (completed_cost h (some (record usage { input_tokens = a; output_tokens = b }))).0
          ≤ h.reserved_cost_micros
    go none b i o = omega arith
    go (some a) none i o = omega arith
    go (some a) (some b) i o = omega (
      arith,
      priced,
      cost_mono a b h.estimated_input_tokens h.maximum_output_tokens h.pricing i o,
    )

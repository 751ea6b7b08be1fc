-- ===== src/Runs/Modes.antt =====
-- src/server/agent/mode-policy.ts. The two regular expressions are parameters, as tests on the
-- question's text.
use openvac_web.Prelude.{
  ℕ, max, String, Bool, true, false, not, ◌&&◌, ◌||◌, none, some, ◌==◌, if◌then◌else◌, tests,
}
use openvac_web.Script.{Environment, parse_int, safe_positive}
use openvac_web.Runs.Types.{
  RequestedAgentMode, ResolvedAgentMode, WebMode, RiskLevel, auto_mode, deep_requested, fast, deep,
  web_auto, web_always, low, high,
}
use mathlib.Core.Option

-- Tests of the question: `COMPLEX`, and `TIME_SENSITIVE` after `normalize("NFKC")`.
pub record QuestionTests : Type 0 where
  pub is_complex : String → Bool
  pub is_time_sensitive : String → Bool

unfoldable pub is_low : RiskLevel → Bool
is_low low = true
is_low _ = false

unfoldable pub is_high : RiskLevel → Bool
is_high high = true
is_high _ = false

unfoldable pub is_deep : ResolvedAgentMode → Bool
is_deep deep = true
is_deep fast = false

unfoldable pub resolve_agent_mode :
    QuestionTests → RequestedAgentMode → String → RiskLevel → ResolvedAgentMode
unfolding is_low
resolve_agent_mode tests deep_requested question risk = deep
resolve_agent_mode tests auto_mode question risk =
    if not (is_low risk) || tests.is_complex question then deep else fast

unfoldable pub requires_fresh_web_evidence : QuestionTests → String → Bool
requires_fresh_web_evidence tests question = tests.is_time_sensitive question

unfoldable pub should_use_web :
    QuestionTests → WebMode → String → RiskLevel → ℕ → ResolvedAgentMode → Bool
unfolding requires_fresh_web_evidence is_high is_deep
should_use_web tests web_always question risk count mode = true
should_use_web tests web_auto question risk count mode =
    requires_fresh_web_evidence tests question || (count == 0 || (is_high risk && is_deep mode))

pub record AgentRunBudgetProfile : Type 0 where
  pub timeout_environment_name : String
  pub timeout_fallback_ms : ℕ
  pub max_tool_rounds : ℕ
  pub input_token_budget : ℕ
  pub output_token_environment_name : String
  pub output_token_fallback : ℕ

unfoldable pub agent_run_budget_profile : RequestedAgentMode → AgentRunBudgetProfile
agent_run_budget_profile deep_requested = record {
  timeout_environment_name = "AGENT_DEEP_TIMEOUT_MS";
  timeout_fallback_ms = 180000;
  max_tool_rounds = 3;
  input_token_budget = 131072;
  output_token_environment_name = "AGENT_DEEP_MAX_OUTPUT_TOKENS";
  output_token_fallback = 8192;
}
agent_run_budget_profile auto_mode = record {
  timeout_environment_name = "AGENT_AUTO_TIMEOUT_MS";
  timeout_fallback_ms = 120000;
  max_tool_rounds = 1;
  input_token_budget = 65536;
  output_token_environment_name = "AGENT_AUTO_MAX_OUTPUT_TOKENS";
  output_token_fallback = 4096;
}

-- A requested or resolved mode, as `effectiveAgentRunTimeoutMs` takes it.
pub data AnyMode : Type 0 where
  requested : RequestedAgentMode → AnyMode
  resolved : ResolvedAgentMode → AnyMode

unfoldable pub profile_mode : AnyMode → RequestedAgentMode
profile_mode (requested m) = m
profile_mode (resolved deep) = deep_requested
profile_mode (resolved fast) = auto_mode

unfoldable pub effective_agent_run_timeout_ms : AnyMode → Environment → ℕ
unfolding agent_run_budget_profile profile_mode
effective_agent_run_timeout_ms mode env =
    let profile = agent_run_budget_profile (profile_mode mode) in
    elim (safe_positive (parse_int (Option.get_or (env profile.timeout_environment_name) ""))) [
      | none ↦ profile.timeout_fallback_ms
      | some configured ↦ max configured profile.timeout_fallback_ms
    ]

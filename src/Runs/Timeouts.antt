-- ===== src/Runs/Timeouts.antt =====
-- The stale threshold of src/server/agent/retention.ts against the run timeouts of
-- src/server/agent/mode-policy.ts.
use openvac_web.Prelude.{ℕ, ◌+◌, ◌≤◌, max, String, Option, none, some, arith}
use openvac_web.Runs.Types.{auto_mode, deep_requested, fast, deep}
use openvac_web.Script.{Environment, Parsed, parse_int, safe_positive}
use openvac_web.Runs.Modes.{AnyMode, effective_agent_run_timeout_ms, requested, resolved}
use openvac_web.Runs.Recovery.{default_stale_run_ms, configured_or, stale_run_threshold_ms}
use mathlib.Core.Option

configured_or-ge : (minimum : ℕ) (p : Option Parsed) → minimum ≤ configured_or minimum p
unfolding configured_or
configured_or-ge minimum none = omega arith
configured_or-ge minimum (some p) = ground arith

abbrev minimum_of : Option ℕ → Option ℕ → ℕ
minimum_of auto_ms deep_ms =
    max default_stale_run_ms
      (max (Option.get_or auto_ms 60000) (Option.get_or deep_ms 180000) + 30000)

deep_covered :
    (auto_ms deep_ms : Option ℕ) (p : Option Parsed)
    → elim deep_ms [ none ↦ 180000 | some configured ↦ max configured 180000 ] + 30000
      ≤ configured_or (minimum_of auto_ms deep_ms) p
deep_covered auto_ms none p = omega (arith, configured_or-ge (minimum_of auto_ms none) p)
deep_covered auto_ms (some n) p = omega (arith, configured_or-ge (minimum_of auto_ms (some n)) p)

auto_covered :
    (auto_ms deep_ms : Option ℕ) (p : Option Parsed)
    → elim auto_ms [ none ↦ 120000 | some configured ↦ max configured 120000 ] + 30000
      ≤ configured_or (minimum_of auto_ms deep_ms) p
auto_covered none deep_ms p = omega (arith, configured_or-ge (minimum_of none deep_ms) p)
auto_covered (some n) deep_ms p = omega (arith, configured_or-ge (minimum_of (some n) deep_ms) p)

abbrev timeout_of : Environment → String → Option ℕ
timeout_of env name = safe_positive (parse_int (Option.get_or (env name) ""))

-- In every environment, a run is taken for dead no earlier than 30 seconds after the timeout of
-- every mode that a run can have.
pub stale_threshold_covers :
    (mode : AnyMode) (env : Environment)
    → effective_agent_run_timeout_ms mode env + 30000 ≤ stale_run_threshold_ms env
unfolding effective_agent_run_timeout_ms stale_run_threshold_ms
stale_threshold_covers (requested deep_requested) env =
    deep_covered (timeout_of env "AGENT_AUTO_TIMEOUT_MS") (timeout_of env "AGENT_DEEP_TIMEOUT_MS")
      (parse_int (Option.get_or (env "AGENT_STALE_RUN_MS") ""))
stale_threshold_covers (requested auto_mode) env =
    auto_covered (timeout_of env "AGENT_AUTO_TIMEOUT_MS") (timeout_of env "AGENT_DEEP_TIMEOUT_MS")
      (parse_int (Option.get_or (env "AGENT_STALE_RUN_MS") ""))
stale_threshold_covers (resolved deep) env =
    deep_covered (timeout_of env "AGENT_AUTO_TIMEOUT_MS") (timeout_of env "AGENT_DEEP_TIMEOUT_MS")
      (parse_int (Option.get_or (env "AGENT_STALE_RUN_MS") ""))
stale_threshold_covers (resolved fast) env =
    auto_covered (timeout_of env "AGENT_AUTO_TIMEOUT_MS") (timeout_of env "AGENT_DEEP_TIMEOUT_MS")
      (parse_int (Option.get_or (env "AGENT_STALE_RUN_MS") ""))

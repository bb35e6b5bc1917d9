-- ===== src/Tests/Health.antt =====
-- Verification runs and the lifecycle at concrete inputs.
use directory.Common.{◌≡◌, ◌↔◌, refl, true, none, some, [], ◌∷◌, if◌then◌else◌, ltb}
use mathlib.Core.Option
use directory.Types.{ToolStatus, mcp_http}
use directory.Types.Records.{MemoryTool}
use directory.Lifecycle.{next_lifecycle_status}
use directory.Lifecycle.Laws.{
  Health, attempt, attempts, failure, success, repeat, attempts-failures,
}
use directory.Store.{Store, tool_of_id, get, update, get_tool_by_id, with_usage}
use directory.Store.Evidence.{
  get_endpoint_for_tool, insert_verification_check, upsert_trust_profile,
}
use directory.Store.Providers.{set_tool_status}
use directory.Store.Queue.{complete_verification_attempt}
use directory.Trust.{refresh_trust_for_tool}
use directory.Verification.{
  meets_activation_criteria, run_checks_for_endpoint, is_security_isolation_failure, check_of,
}
use directory.Verification.Admission.{IsAdmitted, meets_activation_criteria_iff}
use directory.Verification.Run.{verify_tool}
use directory.Verification.Refinement.{health_of, attempt_of, verify_tool-attempt}
use directory.Verification.Activation.{answers_for, verify_tool-active, verify_tool-isolated}
use directory.Tests.Data.{tool, catalog, net, bad_net, fresh, no_log}

-- What a run of `verifyTool` computes through.
verification : Unit {0}
unfolding verify_tool answers_for get update get_endpoint_for_tool refresh_trust_for_tool
    get_tool_by_id next_lifecycle_status is_security_isolation_failure check_of
    run_checks_for_endpoint meets_activation_criteria with_usage set_tool_status
    complete_verification_attempt insert_verification_check upsert_trust_profile attempt_of attempt
    attempts
verification = tt

after : Store
after = (verify_tool no_log net fresh 1000 catalog "t1").0

verified_tool : MemoryTool
unfolding after
verified_tool = elim (tool_of_id "t1" after) [ none ↦ tool | some t ↦ t ]

isolated_tool : MemoryTool
isolated_tool = elim (tool_of_id "t1" (verify_tool no_log bad_net fresh 1000 catalog "t1").0) [
  | none ↦ tool
  | some t ↦ t
]

test_verify_tool :
    (verified_tool.status ≡ ToolStatus.active)
    × (verified_tool.verify_success_streak ≡ 1)
    × (verified_tool.next_verify_at ≡ some 1801000)
    × (isolated_tool.status ≡ ToolStatus.suspended)
    × (isolated_tool.verify_fail_count ≡ 1)
unfolding verification verified_tool isolated_tool
test_verify_tool = (refl, refl, refl, refl, refl)

verify_tool-active_example : IsAdmitted true mcp_http (net "" none)
unfolding verification verified_tool
verify_tool-active_example =
    verify_tool-active no_log net fresh 1000 catalog "t1" tool verified_tool refl (λ e. cc) refl
      refl

verify_tool-isolated_example : isolated_tool.status ≡ ToolStatus.suspended
unfolding verification isolated_tool
verify_tool-isolated_example =
    verify_tool-isolated no_log bad_net fresh 1000 catalog "t1" tool isolated_tool refl refl refl

verify_tool-attempt_example :
    Option.map health_of (tool_of_id "t1" (verify_tool no_log net fresh 1000 catalog "t1").0)
    ≡ some (attempt (health_of tool) (attempt_of no_log net fresh tool))
unfolding get
verify_tool-attempt_example = verify_tool-attempt no_log net fresh 1000 catalog "t1" tool refl

meets_activation_criteria_iff_example :
    (meets_activation_criteria true mcp_http (run_checks_for_endpoint mcp_http (net "" none))
      ≡ true)
    ↔ IsAdmitted true mcp_http (net "" none)
meets_activation_criteria_iff_example = meets_activation_criteria_iff true mcp_http (net "" none)

abbrev healthy : Health
healthy = record { status = ToolStatus.active; fail_count = 0; success_streak = 5 }

abbrev down : Health
down = record { status = ToolStatus.suspended; fail_count = 4; success_streak = 0 }

abbrev retired : Health
retired = record { status = ToolStatus.deprecated; fail_count = 0; success_streak = 0 }

test_attempts :
    ((attempts healthy (repeat 2 failure)).status ≡ ToolStatus.degraded)
    × ((attempts healthy (repeat 4 failure)).status ≡ ToolStatus.suspended)
    × ((attempts down (success ∷ [])).status ≡ ToolStatus.suspended)
unfolding verification
test_attempts = (refl, refl, refl)

attempts-failures_example :
    ((attempts healthy (repeat 3 failure)).fail_count ≡ 3)
    × ((attempts healthy (repeat 3 failure)).status ≡ (
        if ltb 3 2
        then ToolStatus.active
        else if ltb 3 4
        then ToolStatus.degraded
        else ToolStatus.suspended))
attempts-failures_example = attempts-failures 3 healthy refl refl

-- ===== src/Verification/Run.antt =====
-- `verifyTool` of src/domain/verification.ts over the in-memory store. One clock value serves the
-- whole run; `fresh i` is the i-th id that `randomUUID` gives.
use directory.Common.{
  ℕ, ◌+◌, Bool, false, not, ◌&&◌, ◌||◌, String, Option, none, some, List, [], ◌∷◌, if◌then◌else◌,
  ◌==◌, string_eq,
}
use directory.Types.{ToolStatus, status_eq, CheckType, CheckStatus}
use directory.Types.Records.{MemoryTool, VerificationContract, ProbeMethod, VerificationCheckRecord}
use directory.Lifecycle.{next_lifecycle_status}
use directory.Store.{Store, get_tool_by_id}
use directory.Store.Providers.{set_tool_status}
use directory.Store.Queue.{complete_verification_attempt}
use directory.Store.Evidence.{Endpoint, get_endpoint_for_tool, insert_verification_check}
use directory.Trust.{refresh_trust_for_tool}
use directory.Verification.{
  CheckResult, Answers, run_checks_for_endpoint, meets_activation_criteria,
  is_security_isolation_failure,
}

-- `a || b` on optional texts: the empty text counts as missing.
abbrev pub or_text : Option String → String → String
or_text none b = b
or_text (some a) b = if a == "" then b else a

unfoldable pub probe_url : Option VerificationContract → String → String
probe_url none url = url
probe_url (some c) url = or_text c.verification_url (or_text c.health_url url)

abbrev pub contract_of : Option MemoryTool → Option VerificationContract
contract_of none = none
contract_of (some t) = t.verification

abbrev pub provider_verified : Option MemoryTool → Bool
provider_verified none = false
provider_verified (some t) = t.provider.verified

abbrev stored :
    (ℕ → String) → ℕ → ℕ → String → Option String → CheckResult → VerificationCheckRecord
stored fresh i now tool_id endpoint_id r = record {
  id = fresh i;
  tool_id = tool_id;
  endpoint_id = endpoint_id;
  check_type = r.check_type;
  status = r.status;
  latency_ms = r.latency_ms;
  checked_at = some now;
}

-- The loop that stores the results.
unfoldable pub insert_all :
    (ℕ → String) → ℕ → ℕ → String → String → List CheckResult → Store → Store
insert_all fresh i now tool_id endpoint_id [] s = s
insert_all fresh i now tool_id endpoint_id (r ∷ results) s =
    insert_all fresh (i + 1) now tool_id endpoint_id results
      (insert_verification_check s (stored fresh i now tool_id (some endpoint_id) r))

abbrev missing : CheckResult
missing = record {
  check_type = CheckType.endpoint_availability;
  status = CheckStatus.error;
  latency_ms = none;
  error = none;
}

-- The branch without an endpoint.
unfoldable pub verify_missing : (ℕ → String) → ℕ → Store → String → Option MemoryTool → Store
verify_missing fresh now s tool_id tool =
    let s₁ = insert_verification_check s (stored fresh 0 now tool_id none missing) in
    let s₂ = (complete_verification_attempt now s₁ tool_id false).0 in
    elim tool [
      | none ↦ s₂
      | some t ↦
          if t.status == ToolStatus.active || t.status == ToolStatus.degraded
          then set_tool_status now s₂ tool_id ToolStatus.suspended
          else s₂
    ]

-- From the results to the new status.
unfoldable pub settle : ℕ → Store → String → Option MemoryTool → Bool → Bool → Store
settle now s tool_id tool admitted security_fail =
    let (s', schedule) =
      complete_verification_attempt now s tool_id (admitted && not security_fail) in
    elim tool [
      | none ↦ s'
      | some t ↦
          let next =
            next_lifecycle_status t.status (admitted && not security_fail) security_fail
              schedule.fail_count schedule.success_streak in
          if not (next == t.status) then set_tool_status now s' tool_id next else s'
    ]

module _ (log10 : ℕ → ℕ) (net : String → Option ProbeMethod → Answers) (fresh : ℕ → String) where
  unfoldable pub checks_of : Option MemoryTool → Endpoint → List CheckResult
  checks_of tool endpoint = run_checks_for_endpoint endpoint.transport (
      net (probe_url (contract_of tool) endpoint.url)
        (elim (contract_of tool) [ none ↦ none | some c ↦ c.expected_method ]))

  unfoldable pub verify_tool : ℕ → Store → String → Store × List CheckResult
  unfolding verify_missing insert_all settle checks_of
  verify_tool now s tool_id =
      let tool = get_tool_by_id now s tool_id in
      elim (get_endpoint_for_tool s tool_id) [
        | none ↦ (verify_missing fresh now s tool_id tool, missing ∷ [])
        | some endpoint ↦
            let results = checks_of tool endpoint in
            let s₁ = insert_all fresh 0 now tool_id endpoint.id results s in
            let admitted =
              meets_activation_criteria (provider_verified tool) endpoint.transport results in
            let security_fail = is_security_isolation_failure results in
            let s₂ = settle now s₁ tool_id tool admitted security_fail in
            ((refresh_trust_for_tool log10 now s₂ tool_id).0, results)
      ]

-- ===== src/Risk/Decide.antt =====
-- The rules of `evaluateToolRisk` in src/domain/risk-evaluation.ts, in their order.
use directory.Common.{
  ℕ, Bool, true, false, not, ◌&&◌, ◌||◌, Option, none, some, List, [], ◌∷◌, ltb, if◌then◌else◌,
  ◌==◌, any, filter, includes, is_empty, set_add,
}
use directory.Types.{
  ToolStatus, AuthRequirement, CheckStatus, status_eq, auth_eq, check_type_eq, check_status_eq,
  tls_security,
}
use directory.Types.Records.{MemoryTool, VerificationCheckRecord, TrustProfile}
use directory.Risk.Terms.{
  Permission, public_network, local_files_read, local_files_write, credentials, personal_data,
  code_execution, payments, destructive_actions, permission_eq, DataSensitivity, public, restricted,
  sensitivity_eq, ExecutionMode, unattended, supervised, allow, review, block, decision_eq, medium,
  high, critical, Assessment, add_risk, add_risk_if, ReasonCode, reason_eq,
}
use directory.Risk.Evidence.{is_older, is_recent}

abbrev pub start : Assessment
start = record { reason_codes = []; risk_factors = []; decision = allow }

unfoldable pub target_risk : ToolStatus → Assessment → Assessment
unfolding add_risk
target_risk ToolStatus.suspended a = add_risk ReasonCode.target_suspended critical block a
target_risk ToolStatus.active a = a
target_risk ToolStatus.pending a = add_risk ReasonCode.target_not_active high block a
target_risk _ a = add_risk ReasonCode.target_not_active high review a

abbrev pub is_unsupported : Permission → Bool
is_unsupported p =
    includes
      (local_files_write ∷ credentials ∷ code_execution ∷ payments ∷ destructive_actions ∷ []) p

abbrev pub is_elevated : Permission → Bool
is_elevated p = includes (local_files_read ∷ personal_data ∷ []) p

unfoldable pub permission_risks : List Permission → Assessment → Assessment
unfolding add_risk_if
permission_risks permissions a =
    add_risk_if (not (is_empty (filter is_elevated permissions)))
      ReasonCode.elevated_permission_requires_review high review
      (add_risk_if (not (is_empty (filter is_unsupported permissions)))
        ReasonCode.high_risk_permission_out_of_scope critical block a)

unfoldable pub sensitivity_risk : DataSensitivity → Assessment → Assessment
unfolding add_risk
sensitivity_risk public a = a
sensitivity_risk restricted a = add_risk ReasonCode.restricted_data_out_of_scope critical block a
sensitivity_risk _ a = add_risk ReasonCode.non_public_data_requires_review high review a

unfoldable pub provider_risks : Bool → AuthRequirement → Assessment → Assessment
unfolding add_risk_if
provider_risks verified auth a =
    add_risk_if (not (auth == AuthRequirement.no_auth)) ReasonCode.authentication_required medium
      review (add_risk_if (not verified) ReasonCode.provider_unverified high review a)

abbrev pub is_failure : CheckStatus → Bool
is_failure s = s == CheckStatus.fail || s == CheckStatus.error

unfoldable pub recent_failures : List VerificationCheckRecord → ℕ → List VerificationCheckRecord
recent_failures latest now =
    filter (λ (c : VerificationCheckRecord). is_recent now c.checked_at && is_failure c.status)
      latest

unfoldable pub failure_risk : List VerificationCheckRecord → Assessment → Assessment
unfolding add_risk_if
failure_risk failures a =
    if any (λ (c : VerificationCheckRecord). c.check_type == tls_security) failures
    then add_risk ReasonCode.recent_security_failure critical block a
    else add_risk_if (not (is_empty failures)) ReasonCode.recent_verification_failure high review a

unfoldable pub stale_checks_of : List VerificationCheckRecord → ℕ → List VerificationCheckRecord
stale_checks_of latest now =
    filter (λ (c : VerificationCheckRecord). is_older now c.checked_at) latest

unfoldable pub evidence_risks : Bool → Bool → Assessment → Assessment
unfolding add_risk_if
evidence_risks missing stale a =
    add_risk_if stale ReasonCode.evidence_stale medium review
      (add_risk_if missing ReasonCode.evidence_incomplete medium review a)

abbrev pub overall : Option TrustProfile → ℕ
overall none = 0
overall (some p) = p.overall_score

unfoldable pub trust_risk : Option TrustProfile → Assessment → Assessment
unfolding add_risk_if
trust_risk trust a =
    add_risk_if (ltb (overall trust) 7000) ReasonCode.trust_signal_below_allow_threshold medium
      review a

-- A reason without a risk.
unfoldable pub usage_reason : ℕ → Assessment → Assessment
usage_reason invocations a =
    if ltb invocations 3
    then record a { reason_codes = set_add ReasonCode.limited_observed_usage a.reason_codes }
    else a

abbrev is_unattended : ExecutionMode → Bool
is_unattended unattended = true
is_unattended supervised = false

unfoldable pub unattended_risk :
    ExecutionMode → List Permission → DataSensitivity → Assessment → Assessment
unfolding add_risk_if
unattended_risk mode permissions sensitivity a =
    add_risk_if
      (is_unattended mode
        && (any (λ p. not (p == public_network)) permissions || not (sensitivity == public)))
      ReasonCode.unattended_higher_assurance_required high review a

unfoldable pub passed_reason : Assessment → Assessment
passed_reason a =
    if a.decision == allow
    then record a { reason_codes = set_add ReasonCode.low_risk_preflight_passed a.reason_codes }
    else a

-- All that the rules read.
pub record Facts : Type 0 where
  pub tool : MemoryTool
  pub permissions : List Permission
  pub data_sensitivity : DataSensitivity
  pub execution_mode : ExecutionMode
  pub latest : List VerificationCheckRecord
  pub missing : Bool
  pub trust : Option TrustProfile
  pub now : ℕ

unfoldable pub assess : Facts → Assessment
assess f = passed_reason (
    unattended_risk f.execution_mode f.permissions f.data_sensitivity (
      usage_reason f.tool.usage.invocations_7d (
        trust_risk f.trust (
          evidence_risks f.missing (not (is_empty (stale_checks_of f.latest f.now))) (
            failure_risk (recent_failures f.latest f.now) (
              provider_risks f.tool.provider.verified f.tool.auth_requirement (
                sensitivity_risk f.data_sensitivity
                  (permission_risks f.permissions (target_risk f.tool.status start)))))))))

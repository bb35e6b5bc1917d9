-- ===== src/Tests/Preflight.antt =====
-- Preflights and their receipts at concrete inputs.
use directory.Common.{
  ℕ, ◌≤◌, ◌≡◌, ◌↔◌, ◌⊎◌, refl, false, String, none, some, List, [], ◌∷◌, codes, Text, In, is_some,
}
use directory.Types.{ToolStatus, CheckType, check_type_eq}
use directory.Types.Records.{MemoryTool, VerificationCheckRecord}
use directory.Store.{get, get_tool_by_slug}
use directory.Receipts.{Receipt, recorded, already_reported, get_evaluation, record_outcome}
use directory.Receipts.Protocol.{record_outcome-recorded_iff, record_outcome_final}
use directory.Risk.Terms.{
  EvaluateToolRiskRequest, RiskAction, DataSensitivity, ExecutionMode, allow, block, ReasonCode,
  restricted, Permission,
}
use directory.Slug.{slugify}
use directory.Risk.Evidence.{latest_checks, missing_checks, required_checks}
use directory.Risk.Decide.{
  Facts, assess, recent_failures, target_risk, passed_reason, unattended_risk, usage_reason,
  trust_risk, evidence_risks, stale_checks_of, failure_risk, provider_risks, sensitivity_risk,
  permission_risks,
}
use directory.Risk.Permissions.{IsHighRisk}
use directory.Risk.Allow.{IsClear, IsTlsFailure, assess-allow_iff, assess-block_iff}
use directory.Risk.Records.{
  RiskReceipt, EvaluationOutcomeRequest, RiskEvaluationOutcome, ActionTaken, OutcomeResult,
  is_valid_outcome,
}
use directory.Risk.Evaluate.{
  Service, facts_of, record_of, evaluate_target, evaluate_tool_risk, report_risk_evaluation_outcome,
}
use directory.Risk.Coverage.{record_of-allow}
use directory.Risk.Service.{evaluate_tool_risk-report}
use directory.Tests.Data.{tool, catalog, all_checks, good_trust, check_of_type, no_log}

abbrev active_tool : MemoryTool
active_tool = record tool { status = ToolStatus.active }

abbrev ask : EvaluateToolRiskRequest
ask = record {
  target = "docs";
  action = RiskAction.invoke;
  data_sensitivity = DataSensitivity.public;
  execution_mode = ExecutionMode.supervised;
  permissions = [];
}

facts : Facts
facts = facts_of ask active_tool all_checks (some good_trust) 1000

-- What a preflight computes through.
preflight : Unit {0}
unfolding facts facts_of record_of assess latest_checks passed_reason unattended_risk usage_reason
    trust_risk evidence_risks stale_checks_of missing_checks required_checks failure_risk
    recent_failures provider_risks sensitivity_risk permission_risks target_risk evaluate_tool_risk
    get evaluate_target get_tool_by_slug slugify
preflight = tt

test_assess :
    ((assess facts).reason_codes
      ≡ ReasonCode.limited_observed_usage ∷ ReasonCode.low_risk_preflight_passed ∷ [])
unfolding preflight
test_assess = refl

assess-allow_iff_example : ((assess facts).decision ≡ allow) ↔ IsClear facts
assess-allow_iff_example = assess-allow_iff facts

assess-block_iff_example : ((assess facts).decision ≡ block) ↔ (
    (facts.tool.status ≡ ToolStatus.suspended)
    ⊎ (facts.tool.status ≡ ToolStatus.pending)
    ⊎ ((p : Permission) × In p facts.permissions × IsHighRisk p)
    ⊎ (facts.data_sensitivity ≡ restricted)
    ⊎ ((c : VerificationCheckRecord) × In c facts.latest × IsTlsFailure facts.now c))
assess-block_iff_example = assess-block_iff facts

record_of-allow_example :
    ((record_of ask facts).evidence_coverage ≡ 10000) × (8500 ≤ (record_of ask facts).confidence)
unfolding preflight
record_of-allow_example = record_of-allow ask active_tool all_checks (some good_trust) 1000 refl

abbrev mixed : List VerificationCheckRecord
mixed =
    check_of_type CheckType.latency 500
    ∷ record (check_of_type CheckType.latency 0) { checked_at = none }
    ∷ check_of_type CheckType.latency 900
    ∷ []

test_latest_checks : latest_checks mixed ≡ check_of_type CheckType.latency 900 ∷ []
unfolding preflight
test_latest_checks = refl

abbrev service : Service
service = record { store = catalog; evaluations = [] }

abbrev hash : Text → String
hash t = elim t [ [] ↦ "none" | c ∷ s ↦ "h" ]

abbrev outcome : RiskEvaluationOutcome
outcome = record {
  action_taken = ActionTaken.proceeded;
  result = OutcomeResult.success;
  error_type = none;
}

abbrev report : EvaluationOutcomeRequest
report = record {
  outcome_token = codes "0123456789012345678901234567890123456789";
  outcome = outcome;
}

created : Service × RiskReceipt
created = elim (evaluate_tool_risk no_log 1000 "r1" "h" ask service) [
  | none ↦ (service, pending)
  | some q ↦ q
]
  where
    pending : RiskReceipt
    pending = record {
      id = "r0";
      outcome_token_hash = "h";
      body = record_of ask facts;
      outcome = none;
      outcome_reported_at = none;
    }

evaluate_tool_risk-report_example :
    ((report_risk_evaluation_outcome hash 2000 "r1" report created.0).1 ≡ some recorded)
    × ((report_risk_evaluation_outcome hash 3000 "r1" report
          (report_risk_evaluation_outcome hash 2000 "r1" report created.0).0).1
        ≡ some already_reported)
unfolding preflight created is_valid_outcome
evaluate_tool_risk-report_example =
    evaluate_tool_risk-report no_log 1000 "r1" "h" ask service created.0 created.1 refl hash 2000
      3000 report refl refl

abbrev receipt : Receipt ℕ ℕ
receipt = record {
  id = "r1";
  outcome_token_hash = "h";
  body = 7;
  outcome = none;
  outcome_reported_at = none;
}

abbrev told : Receipt ℕ ℕ
told = record receipt { id = "r2"; outcome = some 4; outcome_reported_at = some 50 }

abbrev kept : List (Receipt ℕ ℕ)
kept = receipt ∷ told ∷ []

record_outcome-recorded_iff_example : ((record_outcome "r1" "h" 5 60 kept).1 ≡ recorded) ↔ (
    (r : Receipt ℕ ℕ) × (get_evaluation "r1" kept ≡ some r)
    × (r.outcome_token_hash ≡ "h")
    × (is_some r.outcome ≡ false))
record_outcome-recorded_iff_example = record_outcome-recorded_iff "r1" "h" 5 60 kept

record_outcome_final_example : get_evaluation "r2" (record_outcome "r2" "h" 5 60 kept).0 ≡ some told
unfolding get_evaluation
record_outcome_final_example = record_outcome_final "r2" "h" "r2" 5 4 60 kept told refl refl

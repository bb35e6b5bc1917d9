-- ===== src/Risk/Records.antt =====
-- The receipt of src/domain/risk-evaluation.ts and the outcome that is reported for it
-- (src/domain/store.ts). The fixed texts of a receipt are left out.
use directory.Common.{
  ℕ, ◌*◌, String, Bool, true, false, not, ◌&&◌, ◌||◌, Option, List, leb, is_some, length, Text,
}
use directory.Types.{ToolStatus}
use directory.Receipts.{Receipt}
use directory.Risk.Terms.{
  RiskAction, DataSensitivity, ExecutionMode, Permission, RiskDecision, allow, review, block,
  ReasonCode, RiskFactor, RiskEvidence, Unknown,
}

abbrev pub risk_receipt_ttl_ms : ℕ
risk_receipt_ttl_ms = 60 * 60 * 1000

pub data NextAction : Type 0 where
  proceed pause refuse : NextAction

abbrev pub next_action_of : RiskDecision → NextAction
next_action_of allow = proceed
next_action_of review = pause
next_action_of block = refuse

pub record RiskEvaluationRecord : Type 0 where
  pub target_tool_id : String
  pub target_slug : Text
  pub target_status : ToolStatus
  pub action : RiskAction
  pub data_sensitivity : DataSensitivity
  pub execution_mode : ExecutionMode
  pub permissions : List Permission
  pub decision : RiskDecision
  pub confidence : ℕ
  pub evidence_coverage : ℕ
  pub reason_codes : List ReasonCode
  pub risk_factors : List RiskFactor
  pub evidence : List RiskEvidence
  pub unknowns : List Unknown
  pub next_action : NextAction
  pub created_at : ℕ
  pub expires_at : ℕ

pub data ActionTaken : Type 0 where
  proceeded changed_tool requested_review aborted : ActionTaken

pub data OutcomeResult : Type 0 where
  success failure not_executed unknown : OutcomeResult

pub data ErrorType : Type 0 where
  unavailable authentication timeout validation permission_denied unsafe wrong_tool other :
      ErrorType

pub record RiskEvaluationOutcome : Type 0 where
  pub action_taken : ActionTaken
  pub result : OutcomeResult
  pub error_type : Option ErrorType

pub record EvaluationOutcomeRequest : Type 0 where
  pub outcome_token : Text
  pub outcome : RiskEvaluationOutcome

abbrev is_failed : OutcomeResult → Bool
is_failed failure = true
is_failed _ = false

-- What `EvaluationOutcomeRequestSchema` tests beyond the types: the length of the token, and an
-- error type only with a failure.
unfoldable pub is_valid_outcome : EvaluationOutcomeRequest → Bool
is_valid_outcome r =
    leb 32 (length r.outcome_token)
    && leb (length r.outcome_token) 128
    && (is_failed r.outcome.result || not (is_some r.outcome.error_type))

abbrev pub RiskReceipt : Type 0
RiskReceipt = Receipt RiskEvaluationRecord RiskEvaluationOutcome

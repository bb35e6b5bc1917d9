-- ===== src/PredictionMarket/Records.antt =====
-- The receipt of a market's preflight and the outcome that is reported for it
-- (src/domain/prediction-market-risk.ts, src/domain/store.ts).
use directory.Common.{
  ℕ, Bool, true, false, not, ◌&&◌, ◌||◌, Option, List, leb, is_some, length, Text,
}
use directory.Receipts.{Receipt}
use directory.Risk.Terms.{RiskDecision, EvidenceStatus}
use directory.PredictionMarket.{EvaluatePredictionMarketRequest}
use directory.PredictionMarket.Depth.{DepthAnalysis}
use directory.PredictionMarket.Terms.{MarketCode, MarketRiskFactor}

pub data MarketEvidenceKind : Type 0 where
  market_metadata market_metadata_freshness resolution_rules time_boundary order_book :
      MarketEvidenceKind

-- The source and the summary are left out, and when the evidence was observed.
pub record MarketEvidence : Type 0 where
  pub kind : MarketEvidenceKind
  pub status : EvidenceStatus

-- The fields of `PredictionMarketEvaluationRecord` that are computed; `unknowns` are named by codes.
pub record PredictionMarketEvaluation (W : Type 0) : Type 0 where
  pub market_id : Text
  pub market_slug : Text
  pub intent : EvaluatePredictionMarketRequest W
  pub decision : RiskDecision
  pub risk_score : ℕ
  pub confidence : ℕ
  pub reason_codes : List MarketCode
  pub risk_factors : List MarketRiskFactor
  pub evidence : List MarketEvidence
  pub unknowns : List MarketCode
  pub depth : Option (DepthAnalysis W)
  pub created_at : ℕ
  pub expires_at : ℕ

pub data MarketActionTaken : Type 0 where
  proceeded reduced_position changed_side waited requested_review aborted : MarketActionTaken

pub data ExecutionResult : Type 0 where
  executed not_executed failed unknown : ExecutionResult

pub data FailureType : Type 0 where
  resolution_rules liquidity execution data_quality compliance signal other : FailureType

pub record MarketOutcome : Type 0 where
  pub action_taken : MarketActionTaken
  pub execution_result : ExecutionResult
  pub failure_type : Option FailureType

pub record PredictionMarketOutcomeRequest : Type 0 where
  pub outcome_token : Text
  pub outcome : MarketOutcome

abbrev is_failed_execution : ExecutionResult → Bool
is_failed_execution failed = true
is_failed_execution _ = false

-- What the schema tests beyond the types.
unfoldable pub is_valid_market_outcome : PredictionMarketOutcomeRequest → Bool
is_valid_market_outcome r =
    leb 32 (length r.outcome_token)
    && leb (length r.outcome_token) 128
    && (is_failed_execution r.outcome.execution_result || not (is_some r.outcome.failure_type))

abbrev pub MarketReceipt : Type 0 → Type 0
MarketReceipt W = Receipt (PredictionMarketEvaluation W) MarketOutcome

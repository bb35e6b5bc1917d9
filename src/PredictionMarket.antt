-- ===== src/PredictionMarket.antt =====
-- src/domain/prediction-market-risk.ts: the preflight of an action on a prediction market. This file
-- has the data: what a caller asks, what the market's public API answers, and the verdict.
pub mod Reference
pub mod Freshness
pub mod RuleText
pub mod Depth
pub mod Terms
pub mod Records
pub mod Assess
pub mod Evidence
pub mod Service
use directory.Common.{ℕ, String, Bool, true, false, Option, List, Text}
use directory.Risk.Terms.{ExecutionMode, RiskDecision, Severity, EvidenceStatus}

pub data MarketAction : Type 0 where
  observe buy_yes buy_no sell_yes sell_no : MarketAction

pub data Eligibility : Type 0 where
  eligible blocked unknown : Eligibility

-- `estimated_notional_usd` is positive where it is given. `W` is the type of the numbers.
pub record EvaluatePredictionMarketRequest (W : Type 0) : Type 0 where
  pub market : Text
  pub intended_action : MarketAction
  pub estimated_notional_usd : Option W
  pub execution_mode : ExecutionMode
  pub geographic_eligibility : Eligibility

-- The fields of the market that the preflight reads. The two lists were arrays of JSON.
pub record GammaMarket (W : Type 0) : Type 0 where
  pub id : Text
  pub slug : Text
  pub description : Text
  pub resolution_source : Text
  pub updated_at : Option Text
  pub active : Bool
  pub closed : Bool
  pub accepting_orders : Bool
  pub enable_order_book : Bool
  pub outcomes : List Text
  pub token_ids : List Text
  pub best_bid : Option W
  pub best_ask : Option W
  pub spread : Option W

pub record OrderLevel : Type 0 where
  pub price : Text
  pub size : Text

pub record OrderBook : Type 0 where
  pub timestamp : Text
  pub bids : List OrderLevel
  pub asks : List OrderLevel

abbrev pub is_trading : MarketAction → Bool
is_trading MarketAction.observe = false
is_trading _ = true

-- `startsWith("buy_")`
abbrev pub is_buying : MarketAction → Bool
is_buying MarketAction.buy_yes = true
is_buying MarketAction.buy_no = true
is_buying _ = false

-- ===== src/PredictionMarket/Assess.antt =====
-- The verdict of `evaluatePredictionMarket` on what it has read: its calls of `addRisk` in their
-- order, the score, the confidence and the expiry. The numbers are the doubles of `Numbers`.
pub mod Calls
pub mod Laws
pub mod Decision
pub mod Bounds
pub mod Expiry
use directory.Common.{
  ℕ, ◌+◌, ◌*◌, min, max, Bool, true, false, not, ◌&&◌, ◌||◌, Option, none, some, List, [], ◌∷◌,
  ◌++◌, if◌then◌else◌, is_some, is_empty, length, filter, set_add, ◌==◌, unique,
}
use directory.Store.{to_fixed4}
use directory.Risk.Terms.{
  RiskDecision, allow, review, block, decision_eq, Severity, low, medium, high, critical,
  ExecutionMode, unattended, supervised,
}
use directory.PredictionMarket.{
  EvaluatePredictionMarketRequest, GammaMarket, Eligibility, is_trading,
}
use directory.PredictionMarket.Freshness.{FreshnessStatus, fresh, Freshness}
use directory.PredictionMarket.RuleText.{
  SourceStatus, TimeStatus, source_status, time_status, ambiguous_terms,
}
use directory.PredictionMarket.Depth.{Numbers, DepthAnalysis}
use directory.PredictionMarket.Terms.{
  MarketCode, market_code_eq, market_metadata, orderbook, market_not_tradeable,
  outcome_mapping_unsupported, orderbook_unavailable, resolution_source_missing,
  resolution_source_generic, time_boundary_unclear, subjective_rule_language, wide_spread,
  elevated_spread, severe_depth_shortfall, insufficient_nearby_depth, high_estimated_slippage,
  geographically_blocked, geographic_eligibility_unknown, unattended_trading_requires_review,
  size_specific_depth_not_evaluated, preflight_passed, Call, MarketRiskFactor, MarketAssessment,
  add_market_risks, when, when_unknown,
}

abbrev pub receipt_ttl_ms : ℕ
receipt_ttl_ms = 60 * 60 * 1000

-- What the rules read: the request, the market, and what was found out about its order book.
pub record MarketFacts (W : Type 0) : Type 0 where
  pub input : EvaluatePredictionMarketRequest W
  pub market : GammaMarket W
  pub has_yes : Bool
  pub has_no : Bool
  pub has_target : Bool
  pub order_book_available : Bool
  pub depth : Option (DepthAnalysis W)
  pub market_freshness : Freshness
  pub book_freshness : Freshness

abbrev pub is_fresh : Freshness → Bool
is_fresh f = elim f.status [ fresh ↦ true | _ ↦ false ]

abbrev is_missing_source : SourceStatus → Bool
is_missing_source SourceStatus.missing = true
is_missing_source _ = false

abbrev is_generic_source : SourceStatus → Bool
is_generic_source SourceStatus.generic = true
is_generic_source _ = false

abbrev is_limited : TimeStatus → Bool
is_limited TimeStatus.limited = true
is_limited TimeStatus.specific = false

abbrev is_blocked : Eligibility → Bool
is_blocked Eligibility.blocked = true
is_blocked _ = false

abbrev pub is_unchecked : Eligibility → Bool
is_unchecked Eligibility.unknown = true
is_unchecked _ = false

abbrev is_unattended_mode : ExecutionMode → Bool
is_unattended_mode unattended = true
is_unattended_mode supervised = false

unfoldable pub freshness_risks : Bool → Bool → Freshness → Freshness → List Call
freshness_risks trading available market book =
    when_unknown (not (is_fresh market)) (market_metadata market.status) high review
    ++ when_unknown (trading && available && not (is_fresh book)) (orderbook book.status) critical
        block

unfoldable pub rule_risks : SourceStatus → TimeStatus → Bool → List Call
rule_risks source time ambiguous =
    when_unknown (is_missing_source source) resolution_source_missing high review
    ++ when (is_generic_source source) resolution_source_generic high review
    ++ when_unknown (is_limited time) time_boundary_unclear medium review
    ++ when ambiguous subjective_rule_language medium review

unfoldable pub eligibility_risks : Bool → Eligibility → List Call
eligibility_risks trading e =
    when (trading && is_blocked e) geographically_blocked critical block
    ++ when_unknown (trading && is_unchecked e) geographic_eligibility_unknown high review

unfoldable pub supervision_risks : Bool → ExecutionMode → Bool → List Call
supervision_risks trading mode has_notional =
    when (trading && is_unattended_mode mode) unattended_trading_requires_review high review
    ++ when_unknown (trading && not has_notional) size_specific_depth_not_evaluated high review

-- `if (decision === "allow") reasonCodes.add("PREFLIGHT_PASSED")`
unfoldable pub passed_market : MarketAssessment → MarketAssessment
passed_market a =
    if a.decision == allow
    then record a { reason_codes = set_add preflight_passed a.reason_codes }
    else a

abbrev pub severity_weight : Severity → ℕ
severity_weight low = 5
severity_weight medium = 15
severity_weight high = 30
severity_weight critical = 60

unfoldable pub sum_weights : List MarketRiskFactor → ℕ
sum_weights [] = 0
sum_weights (f ∷ fs) = severity_weight f.severity + sum_weights fs

unfoldable pub risk_score : List MarketRiskFactor → ℕ
unfolding sum_weights
risk_score fs = min 100 (sum_weights fs)

-- Between 0.1 and 0.95, in ten-thousandths.
unfoldable pub confidence_of_checks : List Bool → ℕ
confidence_of_checks checks =
    max 1000 (min 9500 (to_fixed4 (length (filter (λ b. b) checks)) (length checks)))

abbrev earliest : ℕ → Option ℕ → ℕ
earliest t none = t
earliest t (some u) = min t u

unfoldable pub expires_at : Bool → ℕ → Freshness → Freshness → ℕ
expires_at trading now market book =
    let t = earliest (now + receipt_ttl_ms) market.valid_until in
    if trading then earliest t book.valid_until else t

module _ {W : Type 0} (n : Numbers W) where
  open n use {lt, le, sub, cents_2, cents_5, half, one, bps_300}

  abbrev difference : Option W → Option W → Option W
  difference (some bid) (some ask) = some (sub ask bid)
  difference _ _ = none

  unfoldable pub spread_of : GammaMarket W → Option W
  spread_of m = elim m.spread [ some s ↦ some s | none ↦ difference m.best_bid m.best_ask ]

  -- A comparison with a number that may be null.
  abbrev pub at_least : W → Option W → Bool
  at_least bound none = false
  at_least bound (some w) = le bound w

  abbrev pub below : W → Option W → Bool
  below bound none = false
  below bound (some w) = lt w bound

  abbrev pub coverage_of : Option (DepthAnalysis W) → Option W
  coverage_of none = none
  coverage_of (some d) = d.coverage_ratio

  abbrev pub slippage_of : Option (DepthAnalysis W) → Option W
  slippage_of none = none
  slippage_of (some d) = d.estimated_slippage_bps

  unfoldable pub market_risks : MarketFacts W → List Call
  market_risks f =
      let trading = is_trading f.input.intended_action in
      when (not f.market.active || f.market.closed || (trading && not f.market.accepting_orders))
        market_not_tradeable critical block
      ++ when (trading && (not f.has_yes || not f.has_no || not f.has_target))
          outcome_mapping_unsupported critical block
      ++ when (trading && (not f.market.enable_order_book || not f.order_book_available))
          orderbook_unavailable critical block

  unfoldable pub spread_risks : Bool → Option W → List Call
  spread_risks trading spread =
      when (trading && at_least cents_5 spread) wide_spread high review
      ++ when (not (trading && at_least cents_5 spread) && trading && at_least cents_2 spread)
          elevated_spread medium review

  unfoldable pub depth_risks : Bool → Bool → Option (DepthAnalysis W) → List Call
  depth_risks trading sized depth =
      let severe = trading && sized && below half (coverage_of depth) in
      when severe severe_depth_shortfall critical block
      ++ when (not severe && trading && sized && below one (coverage_of depth))
          insufficient_nearby_depth high review
      ++ when (trading && at_least bps_300 (slippage_of depth)) high_estimated_slippage high review

  -- The calls of `addRisk`, in their order.
  unfoldable pub calls : MarketFacts W → List Call
  unfolding freshness_risks rule_risks eligibility_risks supervision_risks market_risks spread_of
      spread_risks depth_risks source_status time_status ambiguous_terms
  calls f =
      let trading = is_trading f.input.intended_action in
      let m = f.market in
      let sized = is_some f.input.estimated_notional_usd in
      freshness_risks trading f.order_book_available f.market_freshness f.book_freshness
      ++ market_risks f
      ++ rule_risks (source_status m.resolution_source m.description) (time_status m.description)
          (not (is_empty (ambiguous_terms m.resolution_source m.description)))
      ++ spread_risks trading (spread_of m)
      ++ depth_risks trading sized f.depth
      ++ eligibility_risks trading f.input.geographic_eligibility
      ++ supervision_risks trading f.input.execution_mode sized

  unfoldable pub assess_market : MarketFacts W → MarketAssessment
  unfolding calls passed_market add_market_risks
  assess_market f = passed_market (
      add_market_risks (calls f)
        (record { reason_codes = []; risk_factors = []; unknowns = []; decision = allow }))

  unfoldable pub evidence_checks : MarketFacts W → List Bool
  unfolding source_status time_status
  evidence_checks f =
      let trading = is_trading f.input.intended_action in
      not (is_empty f.market.description)
      ∷ not (is_missing_source (source_status f.market.resolution_source f.market.description))
      ∷ not (is_limited (time_status f.market.description))
      ∷ is_fresh f.market_freshness
      ∷ (not trading || (f.order_book_available && is_fresh f.book_freshness))
      ∷ (not trading || is_some f.input.estimated_notional_usd)
      ∷ (not trading || not (is_unchecked f.input.geographic_eligibility))
      ∷ []

-- ===== src/PredictionMarket/Terms.antt =====
-- The vocabulary of `evaluatePredictionMarket`: the codes of its reasons, and its call `addRisk`.
use directory.Common.{
  ℕ, ◌+◌, ◌≡◌, ◌↔◌, Bool, true, false, ◌&&◌, List, [], ◌∷◌, ◌++◌, if◌then◌else◌, StrictEq, ◌==◌,
  nat_beq, nat_beq_iff, set_add, refl, sym, ap, ◌∙◌,
}
use directory.Risk.Terms.{RiskDecision, allow, review, block, decision_eq, Severity}
use directory.PredictionMarket.Freshness.{FreshnessStatus}

pub data MarketCode : Type 0 where
  market_metadata orderbook : FreshnessStatus → MarketCode
  market_not_tradeable outcome_mapping_unsupported orderbook_unavailable resolution_source_missing
        resolution_source_generic time_boundary_unclear subjective_rule_language wide_spread
        elevated_spread severe_depth_shortfall insufficient_nearby_depth high_estimated_slippage
        geographically_blocked geographic_eligibility_unknown unattended_trading_requires_review
        size_specific_depth_not_evaluated preflight_passed :
      MarketCode

abbrev status_tag : FreshnessStatus → ℕ
status_tag FreshnessStatus.missing = 0
status_tag FreshnessStatus.invalid = 1
status_tag FreshnessStatus.future = 2
status_tag FreshnessStatus.stale = 3
status_tag FreshnessStatus.fresh = 4

abbrev market_code_tag : MarketCode → ℕ
market_code_tag (market_metadata s) = status_tag s
market_code_tag (orderbook s) = 5 + status_tag s
market_code_tag market_not_tradeable = 10
market_code_tag outcome_mapping_unsupported = 11
market_code_tag orderbook_unavailable = 12
market_code_tag resolution_source_missing = 13
market_code_tag resolution_source_generic = 14
market_code_tag time_boundary_unclear = 15
market_code_tag subjective_rule_language = 16
market_code_tag wide_spread = 17
market_code_tag elevated_spread = 18
market_code_tag severe_depth_shortfall = 19
market_code_tag insufficient_nearby_depth = 20
market_code_tag high_estimated_slippage = 21
market_code_tag geographically_blocked = 22
market_code_tag geographic_eligibility_unknown = 23
market_code_tag unattended_trading_requires_review = 24
market_code_tag size_specific_depth_not_evaluated = 25
market_code_tag preflight_passed = 26

-- The code at a place of the list, which is the inverse of the tag.
abbrev pick : ℕ → List MarketCode → MarketCode
pick n [] = preflight_passed
pick n (c ∷ cs) = if nat_beq n (market_code_tag c) then c else pick n cs

abbrev codes_with : List MarketCode
codes_with =
    market_metadata FreshnessStatus.missing
    ∷ market_metadata FreshnessStatus.invalid
    ∷ market_metadata FreshnessStatus.future
    ∷ market_metadata FreshnessStatus.stale
    ∷ market_metadata FreshnessStatus.fresh
    ∷ orderbook FreshnessStatus.missing
    ∷ orderbook FreshnessStatus.invalid
    ∷ orderbook FreshnessStatus.future
    ∷ orderbook FreshnessStatus.stale
    ∷ orderbook FreshnessStatus.fresh
    ∷ market_not_tradeable
    ∷ outcome_mapping_unsupported
    ∷ orderbook_unavailable
    ∷ resolution_source_missing
    ∷ resolution_source_generic
    ∷ time_boundary_unclear
    ∷ subjective_rule_language
    ∷ wide_spread
    ∷ elevated_spread
    ∷ severe_depth_shortfall
    ∷ insufficient_nearby_depth
    ∷ high_estimated_slippage
    ∷ geographically_blocked
    ∷ geographic_eligibility_unknown
    ∷ unattended_trading_requires_review
    ∷ size_specific_depth_not_evaluated
    ∷ []

pick-market_code_tag : (c : MarketCode) → pick (market_code_tag c) codes_with ≡ c
pick-market_code_tag (market_metadata FreshnessStatus.missing) = refl
pick-market_code_tag (market_metadata _) = refl
pick-market_code_tag (orderbook FreshnessStatus.missing) = refl
pick-market_code_tag (orderbook _) = refl
pick-market_code_tag _ = refl

abbrev market_code_beq : MarketCode → MarketCode → Bool
market_code_beq p q = nat_beq (market_code_tag p) (market_code_tag q)

pub market_code_beq_iff : (p q : MarketCode) → (market_code_beq p q ≡ true) ↔ (p ≡ q)
market_code_beq_iff p q = (
  λ h.
      sym (pick-market_code_tag p)
      ∙ ap (λ t. pick t codes_with) ((nat_beq_iff _ _).0 h)
      ∙ pick-market_code_tag q,
  λ e. (nat_beq_iff _ _).1 (ap market_code_tag e),
)

instance abbrev pub market_code_eq : StrictEq MarketCode
market_code_eq = record { same = market_code_beq; same_iff = market_code_beq_iff }

-- One call `addRisk(code, severity, …, required)`. `is_unknown` says that the same explanation, or a
-- text of its own, was pushed to `unknowns` before it.
pub record Call : Type 0 where
  pub code : MarketCode
  pub severity : Severity
  pub required : RiskDecision
  pub is_unknown : Bool

pub record MarketRiskFactor : Type 0 where
  pub code : MarketCode
  pub severity : Severity

-- The variables `reasonCodes`, `riskFactors`, `unknowns` and `decision`. A text of `unknowns` is named
-- by the code of the call that it comes with.
pub record MarketAssessment : Type 0 where
  pub reason_codes : List MarketCode
  pub risk_factors : List MarketRiskFactor
  pub unknowns : List MarketCode
  pub decision : RiskDecision

abbrev pub raise : RiskDecision → RiskDecision → RiskDecision
raise required decision =
    if required == block
    then block
    else if required == review && decision == allow
    then review
    else decision

unfoldable pub add_market_risk : Call → MarketAssessment → MarketAssessment
add_market_risk c a = record {
  reason_codes = set_add c.code a.reason_codes;
  risk_factors = a.risk_factors ++ (record { code = c.code; severity = c.severity }) ∷ [];
  unknowns = if c.is_unknown then a.unknowns ++ c.code ∷ [] else a.unknowns;
  decision = raise c.required a.decision;
}

unfoldable pub add_market_risks : List Call → MarketAssessment → MarketAssessment
unfolding add_market_risk
add_market_risks [] a = a
add_market_risks (c ∷ cs) a = add_market_risks cs (add_market_risk c a)

-- `if (test) addRisk(…)`
abbrev pub when : Bool → MarketCode → Severity → RiskDecision → List Call
when test code severity required =
    if test
    then record { code = code; severity = severity; required = required; is_unknown = false } ∷ []
    else []

-- `if (test) { unknowns.push(…); addRisk(…) }`
abbrev pub when_unknown : Bool → MarketCode → Severity → RiskDecision → List Call
when_unknown test code severity required =
    if test
    then record { code = code; severity = severity; required = required; is_unknown = true } ∷ []
    else []

-- ===== src/PredictionMarket/Service.antt =====
-- `evaluatePredictionMarket`, `getPredictionMarketEvaluationReceipt` and
-- `reportPredictionMarketOutcome`. The data source and the class URL are given by what they answer;
-- `id` is `randomUUID()` and `token_hash` the hash of the token that is handed out.
pub mod Laws
use directory.Common.{
  ℕ, zero, suc, String, Bool, true, false, not, ◌&&◌, ◌||◌, Option, none, some, List, [], ◌∷◌, ◌++◌,
  leb, map, if◌then◌else◌, ◌==◌, text_eq, is_some, is_empty, length, unique, Text, codes,
}
use mathlib.Core.Option
use directory.Slug.{to_lower_case}
use directory.Receipts.{Receipt, Reported, record_evaluation, get_evaluation, record_outcome}
use directory.Risk.Terms.{RiskDecision, EvidenceStatus, pass, warn, fail}
use directory.PredictionMarket.{
  EvaluatePredictionMarketRequest, GammaMarket, OrderBook, MarketAction, observe, buy_yes, buy_no,
  sell_yes, sell_no, is_trading,
}
use directory.PredictionMarket.Reference.{
  PredictionMarketReference, InputError, ParsedUrl, Parsed, ok, throws,
  parse_prediction_market_reference,
}
use directory.PredictionMarket.Freshness.{
  Freshness, evidence_freshness, market_metadata_max_age_ms, orderbook_max_age_ms,
}
use directory.PredictionMarket.RuleText.{SourceStatus, TimeStatus, source_status, time_status}
use directory.PredictionMarket.Depth.{Numbers, DepthAnalysis, analyze_depth}
use directory.PredictionMarket.Terms.{
  MarketCode, market_code_eq, MarketRiskFactor, MarketAssessment,
}
use directory.PredictionMarket.Records.{
  MarketEvidenceKind, market_metadata, market_metadata_freshness, time_boundary, order_book,
  MarketEvidence, PredictionMarketEvaluation, MarketOutcome, PredictionMarketOutcomeRequest,
  is_valid_market_outcome, MarketReceipt,
}
use directory.PredictionMarket.Assess.{
  MarketFacts, is_fresh, assess_market, risk_score, evidence_checks, confidence_of_checks,
  expires_at,
}
use directory.PredictionMarket.Evidence.{
  MarketAnswer, found, not_found, EvaluationError, input_error, market_not_found, upstream_error,
  out_of_fuel, Outcome, done, fails, outcome_index, target_of, token_at, evidence_of_market,
}

module _ {W : Type 0} (n : Numbers W) (date_parse : Text → Option ℕ) where
  -- The order book that the trade would use, where the market offers one and it can be read.
  unfoldable pub book_of :
      (Text → Option OrderBook)
      → EvaluatePredictionMarketRequest W
      → GammaMarket W
      → Option ℕ
      → Option OrderBook
  unfolding token_at
  book_of get_order_book input m target =
      if is_trading input.intended_action && m.enable_order_book
      then Option.bind (token_at m.token_ids target) get_order_book
      else none

  abbrev is_priced : Option (DepthAnalysis W) → Bool
  is_priced none = false
  is_priced (some d) = is_some d.best_price

  unfoldable pub market_facts_of :
      EvaluatePredictionMarketRequest W
      → GammaMarket W
      → Option ℕ
      → Option ℕ
      → Option OrderBook
      → ℕ
      → MarketFacts W
  unfolding analyze_depth evidence_freshness
  market_facts_of input m on_yes on_no book now =
      let depth =
        Option.map
          (λ (b : OrderBook).
            analyze_depth n date_parse b input.intended_action input.estimated_notional_usd)
          book in
      record {
        input = input;
        market = m;
        has_yes = is_some on_yes;
        has_no = is_some on_no;
        has_target = is_some (target_of input.intended_action on_yes on_no);
        order_book_available = is_priced depth;
        depth = depth;
        market_freshness =
            evidence_freshness date_parse m.updated_at market_metadata_max_age_ms now false;
        book_freshness =
            evidence_freshness date_parse (Option.map (λ (b : OrderBook). b.timestamp) book)
              orderbook_max_age_ms now true;
      }

  unfoldable pub evaluation_of : MarketFacts W → ℕ → PredictionMarketEvaluation W
  unfolding assess_market risk_score evidence_checks confidence_of_checks expires_at
      evidence_of_market
  evaluation_of f now =
      let a = assess_market n f in
      record {
        market_id = f.market.id;
        market_slug = f.market.slug;
        intent = f.input;
        decision = a.decision;
        risk_score = risk_score a.risk_factors;
        confidence = confidence_of_checks (evidence_checks n f);
        reason_codes = a.reason_codes;
        risk_factors = a.risk_factors;
        evidence = evidence_of_market f;
        unknowns = unique a.unknowns;
        depth = f.depth;
        created_at = now;
        expires_at =
            expires_at (is_trading f.input.intended_action) now f.market_freshness f.book_freshness;
      }

  -- What is evaluated for a market that was found.
  unfoldable pub evaluate_market :
      (Text → Option OrderBook)
      → EvaluatePredictionMarketRequest W
      → GammaMarket W
      → ℕ
      → PredictionMarketEvaluation W
  unfolding outcome_index book_of market_facts_of evaluation_of
  evaluate_market get_order_book input m now =
      let on_yes = outcome_index (codes "yes") m.outcomes in
      let on_no = outcome_index (codes "no") m.outcomes in
      let book = book_of get_order_book input m (target_of input.intended_action on_yes on_no) in
      evaluation_of (market_facts_of input m on_yes on_no book now) now

  module _ (parse_url : Text → Option ParsedUrl)
      (get_market : PredictionMarketReference → MarketAnswer W)
      (get_order_book : Text → Option OrderBook) where
    unfoldable pub evaluate_answer :
        EvaluatePredictionMarketRequest W
        → ℕ
        → MarketAnswer W
        → Outcome (PredictionMarketEvaluation W)
    unfolding evaluate_market
    evaluate_answer input now (found m) = done (evaluate_market get_order_book input m now)
    evaluate_answer input now not_found = fails market_not_found
    evaluate_answer input now _ = fails upstream_error

    unfoldable pub evaluate_reference :
        EvaluatePredictionMarketRequest W
        → ℕ
        → Option Parsed
        → Outcome (PredictionMarketEvaluation W)
    unfolding evaluate_answer
    evaluate_reference input now none = fails out_of_fuel
    evaluate_reference input now (some (throws e)) = fails (input_error e)
    evaluate_reference input now (some (ok r)) = evaluate_answer input now (get_market r)

    unfoldable pub evaluate_prediction_market :
        ℕ
        → String
        → String
        → EvaluatePredictionMarketRequest W
        → List (MarketReceipt W)
        → List (MarketReceipt W) × Outcome (MarketReceipt W)
    unfolding evaluate_reference parse_prediction_market_reference
    evaluate_prediction_market now id token_hash input receipts =
        let reference = parse_prediction_market_reference parse_url 2 input.market in
        elim (evaluate_reference input now reference) [
          | fails e ↦ (receipts, fails e)
          | done body ↦
              let r : MarketReceipt W = record {
                id = id;
                outcome_token_hash = token_hash;
                body = body;
                outcome = none;
                outcome_reported_at = none;
              } in
              (record_evaluation r receipts, done r)
        ]

unfoldable pub get_prediction_market_evaluation_receipt :
    {W : Type 0} → List (MarketReceipt W) → String → Option (MarketReceipt W)
get_prediction_market_evaluation_receipt receipts id = get_evaluation id receipts

-- `none` is the error of `parse`.
unfoldable pub report_prediction_market_outcome :
    {W : Type 0}
    → (Text → String)
    → ℕ
    → String
    → PredictionMarketOutcomeRequest
    → List (MarketReceipt W)
    → List (MarketReceipt W) × Option Reported
unfolding is_valid_market_outcome
report_prediction_market_outcome hash now id request receipts =
    if is_valid_market_outcome request
    then (let (l, v) =
          record_outcome id (hash request.outcome_token) request.outcome now receipts in
        (l, some v))
    else (receipts, none)

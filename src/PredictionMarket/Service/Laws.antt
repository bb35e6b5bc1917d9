-- ===== src/PredictionMarket/Service/Laws.antt =====
-- The receipts of `evaluatePredictionMarket`: their score, confidence and expiry.
use directory.Common.{
  ℕ, ◌+◌, ◌≤◌, ◌<◌, ◌≡◌, ◌⊎◌, refl, inl, inr, Bool, true, false, Option, List, [], arith, is_some,
  Bool-cases, Text, codes, unique,
}
use mathlib.Core.Option
use directory.Risk.Terms.{allow, block, supervised}
use directory.PredictionMarket.{
  EvaluatePredictionMarketRequest, GammaMarket, OrderBook, Eligibility, is_trading,
}
use directory.PredictionMarket.Freshness.{fresh, orderbook_max_age_ms, market_metadata_max_age_ms}
use directory.PredictionMarket.Depth.{Numbers}
use directory.PredictionMarket.Terms.{market_code_eq}
use directory.PredictionMarket.Records.{PredictionMarketEvaluation}
use directory.PredictionMarket.Assess.{
  MarketFacts, assess_market, risk_score, evidence_checks, confidence_of_checks, expires_at,
  receipt_ttl_ms,
}
use directory.PredictionMarket.Assess.Decision.{IsClearTrade, assess_market-allow_iff}
use directory.PredictionMarket.Assess.Expiry.{
  Ahead, evidence_freshness-Ahead, evidence_freshness-ends, expires_at-Ahead,
}
use directory.PredictionMarket.Assess.Bounds.{
  assess_market-risk_score, assess_market-allow_nothing, confidence-allow,
}
use directory.PredictionMarket.Evidence.{outcome_index, target_of}
use directory.PredictionMarket.Service.{book_of, market_facts_of, evaluation_of, evaluate_market}

module _ {W : Type 0} (n : Numbers W) (date_parse : Text → Option ℕ)
    (get_order_book : Text → Option OrderBook) (input : EvaluatePredictionMarketRequest W)
    (m : GammaMarket W) (now : ℕ) where
  abbrev on_yes : Option ℕ
  on_yes = outcome_index (codes "yes") m.outcomes

  abbrev on_no : Option ℕ
  on_no = outcome_index (codes "no") m.outcomes

  abbrev book : Option OrderBook
  book = book_of n date_parse get_order_book input m (target_of input.intended_action on_yes on_no)

  abbrev facts : MarketFacts W
  facts = market_facts_of n date_parse input m on_yes on_no book now

  abbrev result : PredictionMarketEvaluation W
  result = evaluate_market n date_parse get_order_book input m now

  evaluate_market-facts :
      (result.decision ≡ (assess_market n facts).decision)
      × (result.risk_score ≡ risk_score (assess_market n facts).risk_factors)
      × (result.confidence ≡ confidence_of_checks (evidence_checks n facts))
      × (result.unknowns ≡ unique (assess_market n facts).unknowns)
      × (result.expires_at
          ≡ expires_at
              (is_trading input.intended_action)
              now
              facts.market_freshness
              facts.book_freshness)
  unfolding evaluate_market evaluation_of market_facts_of
  evaluate_market-facts = (refl, refl, refl, refl, refl)

  market-Ahead : Ahead now market_metadata_max_age_ms facts.market_freshness
  unfolding market_facts_of
  market-Ahead =
      evidence_freshness-Ahead date_parse m.updated_at market_metadata_max_age_ms now false
        (omega arith)

  book-Ahead : Ahead now orderbook_max_age_ms facts.book_freshness
  unfolding market_facts_of
  book-Ahead =
      evidence_freshness-Ahead date_parse (Option.map (λ (b : OrderBook). b.timestamp) book)
        orderbook_max_age_ms now true (omega arith)

  book-ends : facts.book_freshness.status ≡ fresh → is_some facts.book_freshness.valid_until ≡ true
  unfolding market_facts_of
  book-ends h =
      evidence_freshness-ends date_parse (Option.map (λ (b : OrderBook). b.timestamp) book)
        orderbook_max_age_ms now true h

  confidence-bounds :
      (bs : List Bool) → (1000 ≤ confidence_of_checks bs) × (confidence_of_checks bs ≤ 9500)
  unfolding confidence_of_checks
  confidence-bounds bs = omega arith

  result-Ahead :
      (now < result.expires_at)
      × (result.expires_at ≤ now + receipt_ttl_ms)
      × (is_trading input.intended_action ≡ true
          → is_some facts.book_freshness.valid_until ≡ true
          → result.expires_at ≤ now + orderbook_max_age_ms)
  result-Ahead =
      let (_, _, _, _, e) = evaluate_market-facts in
      rw e (
        expires_at-Ahead (is_trading input.intended_action) now market_metadata_max_age_ms
          orderbook_max_age_ms facts.market_freshness facts.book_freshness market-Ahead book-Ahead)

  clear_trade :
      (is_trading facts.input.intended_action ≡ false) ⊎ IsClearTrade n facts
      → (is_trading input.intended_action ≡ false)
        ⊎ ((result.expires_at ≤ now + orderbook_max_age_ms)
            × (is_some input.estimated_notional_usd ≡ true)
            × (input.execution_mode ≡ supervised)
            × (input.geographic_eligibility ≡ Eligibility.eligible))
  unfolding market_facts_of
  clear_trade (inl off) = inl off
  clear_trade (inr c) = elim (Bool-cases (is_trading input.intended_action)) [
    | inl on ↦
        let (_, _, soon) = result-Ahead in
        inr (soon on (book-ends c.book_fresh), c.sized, c.is_supervised, c.is_eligible)
    | inr off ↦ inl off
  ]

  -- Whatever the market, the score of its receipt is at most 100, the confidence lies between 0.1
  -- and 0.95, and the receipt ends after it is issued, within an hour.
  pub evaluate_market_bounds :
      (result.risk_score ≤ 100)
      × (1000 ≤ result.confidence)
      × (result.confidence ≤ 9500)
      × (now < result.expires_at)
      × (result.expires_at ≤ now + receipt_ttl_ms)
  evaluate_market_bounds =
      let (_, s, c, _, _) = evaluate_market-facts in
      let (later, within, _) = result-Ahead in
      let (low, up) = confidence-bounds (evidence_checks n facts) in
      (rw s (assess_market-risk_score n facts).0, rw c low, rw c up, later, within)

  -- A receipt that blocks has a score of at least 60.
  pub evaluate_market-block : result.decision ≡ block → 60 ≤ result.risk_score
  evaluate_market-block h =
      let (d, s, _, _, _) = evaluate_market-facts in
      rw s ((assess_market-risk_score n facts).1 (rw d at h))

  -- A receipt that allows has the score 0, the confidence 0.95 and no unknown; where it allows a
  -- trade, it ends within two minutes, and the trade is sized, supervised and eligible.
  pub evaluate_market-allow :
      result.decision ≡ allow
      → (result.risk_score ≡ 0)
        × (result.confidence ≡ 9500)
        × (result.unknowns ≡ [])
        × ((is_trading input.intended_action ≡ false)
            ⊎ ((result.expires_at ≤ now + orderbook_max_age_ms)
                × (is_some input.estimated_notional_usd ≡ true)
                × (input.execution_mode ≡ supervised)
                × (input.geographic_eligibility ≡ Eligibility.eligible)))
  evaluate_market-allow h =
      let (d, s, c, u, _) = evaluate_market-facts in
      let allowed : (assess_market n facts).decision ≡ allow = rw d at h in
      let (none_risky, none_unknown) = assess_market-allow_nothing n facts allowed in
      (
        rw (s, none_risky) (unfold risk_score in refl),
        rw c (confidence-allow n facts allowed),
        rw (u, none_unknown) refl,
        clear_trade ((assess_market-allow_iff n facts).0 allowed).trade,
      )

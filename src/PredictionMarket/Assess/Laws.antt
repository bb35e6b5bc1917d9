-- ===== src/PredictionMarket/Assess/Laws.antt =====
-- For each group of rules, when it asks for nothing and when it blocks.
use directory.Common.{◌≡◌, ◌↔◌, ◌⊎◌, ◌≢◌, Bool, true, false, Option, arith}
use directory.Risk.Terms.{decision_eq, ExecutionMode, supervised}
use directory.PredictionMarket.{Eligibility, is_trading}
use directory.PredictionMarket.Freshness.{fresh, Freshness}
use directory.PredictionMarket.RuleText.{SourceStatus, TimeStatus}
use directory.PredictionMarket.Depth.{Numbers, DepthAnalysis}
use directory.PredictionMarket.Assess.{
  MarketFacts, freshness_risks, rule_risks, eligibility_risks, supervision_risks, at_least, below,
  coverage_of, slippage_of, market_risks, spread_risks, depth_risks,
}
use directory.PredictionMarket.Assess.Calls.{is_quiet, is_blocking, is_graded}

pub freshness_risks-quiet :
    (t a : Bool) (m b : Freshness)
    → (is_quiet (freshness_risks t a m b) ≡ true)
      ↔ ((m.status ≡ fresh) × ((t ≡ false) ⊎ (a ≡ false) ⊎ (b.status ≡ fresh)))
unfolding freshness_risks
freshness_risks-quiet t a m b = ground arith

pub freshness_risks-graded :
    (t a : Bool) (m b : Freshness) → is_graded (freshness_risks t a m b) ≡ true
unfolding freshness_risks
freshness_risks-graded t a m b = ground arith

pub freshness_risks-blocking :
    (t a : Bool) (m b : Freshness)
    → (is_blocking (freshness_risks t a m b) ≡ true)
      ↔ ((t ≡ true) × (a ≡ true) × (b.status ≢ fresh))
unfolding freshness_risks
freshness_risks-blocking t a m b = ground arith

pub rule_risks-quiet :
    (s : SourceStatus) (t : TimeStatus) (a : Bool)
    → (is_quiet (rule_risks s t a) ≡ true)
      ↔ ((s ≡ SourceStatus.specific) × (t ≡ TimeStatus.specific) × (a ≡ false))
unfolding rule_risks
rule_risks-quiet s t a = ground arith

pub rule_risks-graded :
    (s : SourceStatus) (t : TimeStatus) (a : Bool) → is_graded (rule_risks s t a) ≡ true
unfolding rule_risks
rule_risks-graded s t a = ground arith

pub rule_risks-blocking :
    (s : SourceStatus) (t : TimeStatus) (a : Bool) → is_blocking (rule_risks s t a) ≡ false
unfolding rule_risks
rule_risks-blocking s t a = ground arith

pub eligibility_risks-quiet :
    (t : Bool) (e : Eligibility)
    → (is_quiet (eligibility_risks t e) ≡ true) ↔ ((t ≡ false) ⊎ (e ≡ Eligibility.eligible))
unfolding eligibility_risks
eligibility_risks-quiet t e = ground arith

pub eligibility_risks-graded :
    (t : Bool) (e : Eligibility) → is_graded (eligibility_risks t e) ≡ true
unfolding eligibility_risks
eligibility_risks-graded t e = ground arith

pub eligibility_risks-blocking :
    (t : Bool) (e : Eligibility)
    → (is_blocking (eligibility_risks t e) ≡ true) ↔ ((t ≡ true) × (e ≡ Eligibility.blocked))
unfolding eligibility_risks
eligibility_risks-blocking t e = ground arith

pub supervision_risks-quiet :
    (t : Bool) (m : ExecutionMode) (k : Bool)
    → (is_quiet (supervision_risks t m k) ≡ true) ↔ ((t ≡ false) ⊎ ((m ≡ supervised) × (k ≡ true)))
unfolding supervision_risks
supervision_risks-quiet t m k = ground arith

pub supervision_risks-graded :
    (t : Bool) (m : ExecutionMode) (k : Bool) → is_graded (supervision_risks t m k) ≡ true
unfolding supervision_risks
supervision_risks-graded t m k = ground arith

pub supervision_risks-blocking :
    (t : Bool) (m : ExecutionMode) (k : Bool) → is_blocking (supervision_risks t m k) ≡ false
unfolding supervision_risks
supervision_risks-blocking t m k = ground arith

module _ {W : Type 0} (n : Numbers W) where
  open n use {cents_2, cents_5, half, one, bps_300}

  pub spread_risks-quiet :
      (t : Bool) (s : Option W)
      → (is_quiet (spread_risks n t s) ≡ true)
        ↔ ((t ≡ false) ⊎ ((at_least n cents_5 s ≡ false) × (at_least n cents_2 s ≡ false)))
  unfolding spread_risks
  spread_risks-quiet t s = ground arith

  pub spread_risks-graded : (t : Bool) (s : Option W) → is_graded (spread_risks n t s) ≡ true
  unfolding spread_risks
  spread_risks-graded t s = ground arith

  pub spread_risks-blocking : (t : Bool) (s : Option W) → is_blocking (spread_risks n t s) ≡ false
  unfolding spread_risks
  spread_risks-blocking t s = ground arith

  pub depth_risks-quiet :
      (t k : Bool) (d : Option (DepthAnalysis W))
      → (is_quiet (depth_risks n t k d) ≡ true) ↔ (
          (t ≡ false)
          ⊎ (((k ≡ false)
                ⊎ ((below n half (coverage_of n d) ≡ false)
                    × (below n one (coverage_of n d) ≡ false)))
              × (at_least n bps_300 (slippage_of n d) ≡ false)))
  unfolding depth_risks
  depth_risks-quiet t k d = ground arith

  pub depth_risks-graded :
      (t k : Bool) (d : Option (DepthAnalysis W)) → is_graded (depth_risks n t k d) ≡ true
  unfolding depth_risks
  depth_risks-graded t k d = ground arith

  pub depth_risks-blocking :
      (t k : Bool) (d : Option (DepthAnalysis W))
      → (is_blocking (depth_risks n t k d) ≡ true)
        ↔ ((t ≡ true) × (k ≡ true) × (below n half (coverage_of n d) ≡ true))
  unfolding depth_risks
  depth_risks-blocking t k d = ground arith

  module _ (f : MarketFacts W) where
    abbrev pub is_trade : Bool
    is_trade = is_trading f.input.intended_action

    pub market_risks-quiet : (is_quiet (market_risks n f) ≡ true) ↔ (
        (f.market.active ≡ true)
        × (f.market.closed ≡ false)
        × ((is_trade ≡ false)
            ⊎ ((f.market.accepting_orders ≡ true)
                × (f.has_yes ≡ true)
                × (f.has_no ≡ true)
                × (f.has_target ≡ true)
                × (f.market.enable_order_book ≡ true)
                × (f.order_book_available ≡ true))))
    unfolding market_risks
    market_risks-quiet = ground arith

    pub market_risks-graded : is_graded (market_risks n f) ≡ true
    unfolding market_risks
    market_risks-graded = ground arith

    pub market_risks-blocking : (is_blocking (market_risks n f) ≡ true) ↔ (
        (f.market.active ≡ false)
        ⊎ (f.market.closed ≡ true)
        ⊎ ((is_trade ≡ true)
            × ((f.market.accepting_orders ≡ false)
                ⊎ (f.has_yes ≡ false)
                ⊎ (f.has_no ≡ false)
                ⊎ (f.has_target ≡ false)
                ⊎ (f.market.enable_order_book ≡ false)
                ⊎ (f.order_book_available ≡ false))))
    unfolding market_risks
    market_risks-blocking = ground arith

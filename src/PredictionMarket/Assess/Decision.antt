-- ===== src/PredictionMarket/Assess/Decision.antt =====
-- When the preflight of a market allows, and when it blocks.
use directory.Common.{
  ◌≡◌, ◌↔◌, ◌⊎◌, ◌≢◌, refl, inl, inr, Bool, true, false, not, List, [], ◌++◌, arith, is_some,
  is_empty, is_empty_iff, Bool-cases,
}
use directory.Risk.Terms.{allow, block, supervised}
use directory.PredictionMarket.{Eligibility, is_trading}
use directory.PredictionMarket.Freshness.{fresh}
use directory.PredictionMarket.RuleText.{
  SourceStatus, TimeStatus, source_status, time_status, ambiguous_terms,
}
use directory.PredictionMarket.Depth.{Numbers}
use directory.PredictionMarket.Terms.{Call}
use directory.PredictionMarket.Assess.{
  MarketFacts, spread_of, at_least, below, coverage_of, slippage_of, calls, assess_market,
  freshness_risks, market_risks, rule_risks, spread_risks, depth_risks, eligibility_risks,
  supervision_risks,
}
use directory.PredictionMarket.Assess.Calls.{
  nothing, is_quiet, is_blocking, is_graded, all-groups, is_blocking-groups, add_market_risks-allow,
  add_market_risks-block, passed_market-decision,
}
use directory.PredictionMarket.Terms.{add_market_risks}
use directory.PredictionMarket.Assess.Laws.{
  freshness_risks-graded, market_risks-graded, rule_risks-graded, spread_risks-graded,
  depth_risks-graded, eligibility_risks-graded, supervision_risks-graded, freshness_risks-quiet,
  freshness_risks-blocking, rule_risks-quiet, rule_risks-blocking, eligibility_risks-quiet,
  eligibility_risks-blocking, supervision_risks-quiet, supervision_risks-blocking,
  spread_risks-quiet, spread_risks-blocking, depth_risks-quiet, depth_risks-blocking,
  market_risks-quiet, market_risks-blocking,
}

module _ {W : Type 0} (n : Numbers W) (f : MarketFacts W) where
  open n use {cents_2, cents_5, half, one, bps_300}

  -- What an order needs beside the market itself.
  pub record IsClearTrade : Type 0 where
    pub accepting : f.market.accepting_orders ≡ true
    pub has_yes : f.has_yes ≡ true
    pub has_no : f.has_no ≡ true
    pub has_target : f.has_target ≡ true
    pub has_book : f.market.enable_order_book ≡ true
    pub available : f.order_book_available ≡ true
    pub book_fresh : f.book_freshness.status ≡ fresh
    pub not_wide : at_least n cents_5 (spread_of n f.market) ≡ false
    pub not_elevated : at_least n cents_2 (spread_of n f.market) ≡ false
    pub sized : is_some f.input.estimated_notional_usd ≡ true
    pub not_severe : below n half (coverage_of n f.depth) ≡ false
    pub covered : below n one (coverage_of n f.depth) ≡ false
    pub cheap : at_least n bps_300 (slippage_of n f.depth) ≡ false
    pub is_eligible : f.input.geographic_eligibility ≡ Eligibility.eligible
    pub is_supervised : f.input.execution_mode ≡ supervised

  pub record IsClearMarket : Type 0 where
    pub metadata_fresh : f.market_freshness.status ≡ fresh
    pub active : f.market.active ≡ true
    pub not_closed : f.market.closed ≡ false
    pub specific_source :
        source_status f.market.resolution_source f.market.description ≡ SourceStatus.specific
    pub specific_time : time_status f.market.description ≡ TimeStatus.specific
    pub plain : ambiguous_terms f.market.resolution_source f.market.description ≡ []
    pub trade : (is_trading f.input.intended_action ≡ false) ⊎ IsClearTrade

  abbrev t : Bool
  t = is_trading f.input.intended_action

  abbrev sized : Bool
  sized = is_some f.input.estimated_notional_usd

  -- The seven groups of `calls`.
  abbrev g₁ : List Call
  g₁ = freshness_risks t f.order_book_available f.market_freshness f.book_freshness

  abbrev g₂ : List Call
  g₂ = market_risks n f

  abbrev source : SourceStatus
  source = source_status f.market.resolution_source f.market.description

  abbrev is_ambiguous : Bool
  is_ambiguous = not (is_empty (ambiguous_terms f.market.resolution_source f.market.description))

  abbrev g₃ : List Call
  g₃ = rule_risks source (time_status f.market.description) is_ambiguous

  abbrev g₄ : List Call
  g₄ = spread_risks n t (spread_of n f.market)

  abbrev g₅ : List Call
  g₅ = depth_risks n t sized f.depth

  abbrev g₆ : List Call
  g₆ = eligibility_risks t f.input.geographic_eligibility

  abbrev g₇ : List Call
  g₇ = supervision_risks t f.input.execution_mode sized

  calls-groups : calls n f ≡ g₁ ++ g₂ ++ g₃ ++ g₄ ++ g₅ ++ g₆ ++ g₇
  unfolding calls
  calls-groups = refl

  clear_trade :
      t ≡ true
      → (t ≡ false) ⊎ (f.order_book_available ≡ false) ⊎ (f.book_freshness.status ≡ fresh)
      → is_quiet g₂ ≡ true
      → is_quiet g₄ ≡ true
      → is_quiet g₅ ≡ true
      → is_quiet g₆ ≡ true
      → is_quiet g₇ ≡ true
      → IsClearTrade
  clear_trade on fr q₂ q₄ q₅ q₆ q₇ = ground (
    arith,
    (market_risks-quiet n f).0 q₂,
    (spread_risks-quiet n t (spread_of n f.market)).0 q₄,
    (depth_risks-quiet n t sized f.depth).0 q₅,
    (eligibility_risks-quiet t f.input.geographic_eligibility).0 q₆,
    (supervision_risks-quiet t f.input.execution_mode sized).0 q₇,
  )

  calls-quiet_only : is_quiet (calls n f) ≡ true → IsClearMarket
  calls-quiet_only q =
      let (q₁, q₂, q₃, q₄, q₅, q₆, q₇) =
        (all-groups g₁ g₂ g₃ g₄ g₅ g₆ g₇ _).0 (rw calls-groups at q) in
      let (metadata, book) =
        (freshness_risks-quiet t f.order_book_available f.market_freshness f.book_freshness).0 q₁ in
      let (open_market, not_closed, _) = (market_risks-quiet n f).0 q₂ in
      let (specific_source, specific_time, plain) =
        (rule_risks-quiet source (time_status f.market.description) is_ambiguous).0 q₃ in
      record {
        metadata_fresh = metadata;
        active = open_market;
        not_closed = not_closed;
        specific_source = specific_source;
        specific_time = specific_time;
        plain = (is_empty_iff _).0 (ground arith);
        trade = elim (Bool-cases t) [
          | inl on ↦ inr (clear_trade on book q₂ q₄ q₅ q₆ q₇)
          | inr off ↦ inl off
        ];
      }

  calls-quiet_if : IsClearMarket → is_quiet (calls n f) ≡ true
  calls-quiet_if c = rw calls-groups (
      (all-groups g₁ g₂ g₃ g₄ g₅ g₆ g₇ _).1 (
        (freshness_risks-quiet t f.order_book_available f.market_freshness f.book_freshness).1
            (ground arith),
        (market_risks-quiet n f).1 (ground arith),
        (rule_risks-quiet source (time_status f.market.description) is_ambiguous).1 (
            ground (
              arith,
              (is_empty_iff (ambiguous_terms f.market.resolution_source f.market.description)).1
                  c.plain,
            )),
        (spread_risks-quiet n t (spread_of n f.market)).1 (ground arith),
        (depth_risks-quiet n t sized f.depth).1 (ground arith),
        (eligibility_risks-quiet t f.input.geographic_eligibility).1 (ground arith),
        (supervision_risks-quiet t f.input.execution_mode sized).1 (ground arith),
      ))

  calls-blocking : (is_blocking (calls n f) ≡ true) ↔ (
      (is_blocking g₁ ≡ true)
      ⊎ (is_blocking g₂ ≡ true)
      ⊎ (is_blocking g₅ ≡ true)
      ⊎ (is_blocking g₆ ≡ true))
  calls-blocking = ground (
    arith,
    calls-groups,
    is_blocking-groups g₁ g₂ g₃ g₄ g₅ g₆ g₇,
    rule_risks-blocking source (time_status f.market.description) is_ambiguous,
    spread_risks-blocking n t (spread_of n f.market),
    supervision_risks-blocking t f.input.execution_mode sized,
  )

  -- Every call asks for "review" at least, and the blocking ones are critical.
  pub calls-graded : is_graded (calls n f) ≡ true
  calls-graded = rw calls-groups (
      (all-groups g₁ g₂ g₃ g₄ g₅ g₆ g₇ _).1 (
        freshness_risks-graded t f.order_book_available f.market_freshness f.book_freshness,
        market_risks-graded n f,
        rule_risks-graded source (time_status f.market.description) is_ambiguous,
        spread_risks-graded n t (spread_of n f.market),
        depth_risks-graded n t sized f.depth,
        eligibility_risks-graded t f.input.geographic_eligibility,
        supervision_risks-graded t f.input.execution_mode sized,
      ))

  pub assess_market-quiet : ((assess_market n f).decision ≡ allow) ↔ (is_quiet (calls n f) ≡ true)
  unfolding assess_market
  assess_market-quiet = ground (
    arith,
    passed_market-decision (add_market_risks (calls n f) nothing),
    add_market_risks-allow (calls n f) nothing,
  )

  pub assess_market-blocking :
      ((assess_market n f).decision ≡ block) ↔ (is_blocking (calls n f) ≡ true)
  unfolding assess_market
  assess_market-blocking = ground (
    arith,
    passed_market-decision (add_market_risks (calls n f) nothing),
    add_market_risks-block (calls n f) nothing,
  )

  -- The preflight allows exactly when the metadata is fresh, the market is open, its rules name a
  -- specific source and a time boundary in plain language, and, for a trade, everything that
  -- IsClearTrade lists holds: orders are accepted, the outcomes are there, a fresh order book covers
  -- the size that was given at a narrow spread and a small slippage, and the trade is supervised and
  -- eligible where it is made.
  pub assess_market-allow_iff : ((assess_market n f).decision ≡ allow) ↔ IsClearMarket
  assess_market-allow_iff = (
    λ h. calls-quiet_only (assess_market-quiet.0 h),
    λ c. assess_market-quiet.1 (calls-quiet_if c),
  )

  -- The preflight blocks exactly when the market is not open, or a trade meets one of: orders are not
  -- accepted, an outcome or the order book is missing, the order book is not fresh, it covers less
  -- than half of the size, or the caller is blocked where it trades.
  pub assess_market-block_iff : ((assess_market n f).decision ≡ block) ↔ (
      (f.market.active ≡ false)
      ⊎ (f.market.closed ≡ true)
      ⊎ ((is_trading f.input.intended_action ≡ true)
          × ((f.market.accepting_orders ≡ false)
              ⊎ (f.has_yes ≡ false)
              ⊎ (f.has_no ≡ false)
              ⊎ (f.has_target ≡ false)
              ⊎ (f.market.enable_order_book ≡ false)
              ⊎ (f.order_book_available ≡ false)
              ⊎ (f.book_freshness.status ≢ fresh)
              ⊎ ((is_some f.input.estimated_notional_usd ≡ true)
                  × (below n half (coverage_of n f.depth) ≡ true))
              ⊎ (f.input.geographic_eligibility ≡ Eligibility.blocked))))
  assess_market-block_iff = ground (
    arith,
    assess_market-blocking,
    calls-blocking,
    freshness_risks-blocking t f.order_book_available f.market_freshness f.book_freshness,
    market_risks-blocking n f,
    depth_risks-blocking n t sized f.depth,
    eligibility_risks-blocking t f.input.geographic_eligibility,
  )

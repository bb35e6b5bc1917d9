-- ===== src/Tests/Market.antt =====
-- The preflight of a prediction market at concrete inputs. The numbers are ten-thousandths.
use directory.Common.{
  ℕ, ◌+◌, ◌-◌, ◌*◌, ◌/◌, ◌≤◌, ◌<◌, ◌≡◌, ◌≢◌, ◌↔◌, ◌⊎◌, refl, true, false, Option, none, some, [],
  ◌∷◌, ltb, leb, if◌then◌else◌, Text, codes, is_some, is_empty,
}
use mathlib.Core.Option
use directory.Risk.Terms.{allow, block, supervised, decision_eq}
use directory.PredictionMarket.{
  MarketAction, Eligibility, EvaluatePredictionMarketRequest, GammaMarket, OrderBook, is_trading,
}
use directory.PredictionMarket.Freshness.{decimal, fresh, orderbook_max_age_ms}
use directory.PredictionMarket.Reference.{
  slug, ParsedUrl, Parsed, ok, parse_prediction_market_reference,
}
use directory.PredictionMarket.Reference.Laws.{parse_prediction_market_reference_terminates}
use directory.PredictionMarket.Reference.Canonical.{parse_prediction_market_reference-value}
use directory.PredictionMarket.Depth.{Numbers, analyze_depth}
use directory.PredictionMarket.Assess.{
  MarketFacts, assess_market, receipt_ttl_ms, below, coverage_of,
}
use directory.PredictionMarket.Assess.Decision.{
  IsClearMarket, assess_market-allow_iff, assess_market-block_iff,
}
use directory.PredictionMarket.Service.{evaluate_market, market_facts_of}
use directory.PredictionMarket.Service.Laws.{evaluate_market_bounds, evaluate_market-allow}

-- The numbers are multiples of 0.0001; a difference below 0 is 0.
abbrev tenths : Numbers ℕ
tenths = record {
  of_text = λ s. if is_empty s then none else some (decimal 0 s);
  nought = 0;
  cents_2 = 200;
  cents_5 = 500;
  half = 5000;
  one = 10000;
  ninety_nine = 990000;
  bps_300 = 3000000;
  bps_10000 = 100000000;
  lt = ltb;
  le = leb;
  add = λ a b. a + b;
  sub = λ a b. a - b;
  mul = λ a b. a * b / 10000;
  div = λ a b. a * 10000 / b;
  abs = λ a. a;
  fixed = λ k a. a;
}

abbrev no_date : Text → Option ℕ
no_date s = if is_empty s then none else some 1000000000000

abbrev market : GammaMarket ℕ
market = record {
  id = codes "7";
  slug = codes "rain";
  description = codes "Resolves according to the NWS. Before Mar 3, 2027.";
  resolution_source = [];
  updated_at = some (codes "2001-09-09T01:46:40Z");
  active = true;
  closed = false;
  accepting_orders = true;
  enable_order_book = true;
  outcomes = codes "Yes" ∷ codes "No" ∷ [];
  token_ids = codes "11" ∷ codes "22" ∷ [];
  best_bid = some 4900;
  best_ask = some 5000;
  spread = none;
}

abbrev book : OrderBook
book = record {
  timestamp = codes "1000000000500";
  bids = [];
  asks =
      (record { price = codes "5000"; size = codes "1000000" })
      ∷ (record { price = codes "6000"; size = codes "1000000" })
      ∷ [];
}

abbrev input : EvaluatePredictionMarketRequest ℕ
input = record {
  market = codes "rain";
  intended_action = MarketAction.buy_yes;
  estimated_notional_usd = some 200000;
  execution_mode = supervised;
  geographic_eligibility = Eligibility.eligible;
}

abbrev order_books : Text → Option OrderBook
order_books s = some book

abbrev at : ℕ
at = 1000000001000

abbrev facts : MarketFacts ℕ
facts = market_facts_of tenths no_date input market (some 0) (some 1) (some book) at

test_market : (assess_market tenths facts).decision ≡ allow
unfolding assess_market market_facts_of
test_market = refl

-- An order of 80 dollars finds 50 within two points, and pays for the rest at 0.6.
test_depth :
    ((analyze_depth tenths no_date book MarketAction.buy_yes (some 800000)).available_notional_usd
      ≡ 500000)
    × ((analyze_depth tenths no_date book MarketAction.buy_yes (some 800000)).coverage_ratio
        ≡ some 6250)
    × ((analyze_depth tenths no_date book MarketAction.buy_yes
          (some 800000)).estimated_average_price
        ≡ some 5333)
unfolding analyze_depth
test_depth = (refl, refl, refl)

assess_market-allow_iff_example :
    ((assess_market tenths facts).decision ≡ allow) ↔ IsClearMarket tenths facts
assess_market-allow_iff_example = assess_market-allow_iff tenths facts

assess_market-block_iff_example : ((assess_market tenths facts).decision ≡ block) ↔ (
    (facts.market.active ≡ false)
    ⊎ (facts.market.closed ≡ true)
    ⊎ ((is_trading facts.input.intended_action ≡ true)
        × ((facts.market.accepting_orders ≡ false)
            ⊎ (facts.has_yes ≡ false)
            ⊎ (facts.has_no ≡ false)
            ⊎ (facts.has_target ≡ false)
            ⊎ (facts.market.enable_order_book ≡ false)
            ⊎ (facts.order_book_available ≡ false)
            ⊎ (facts.book_freshness.status ≢ fresh)
            ⊎ ((is_some facts.input.estimated_notional_usd ≡ true)
                × (below tenths 5000 (coverage_of tenths facts.depth) ≡ true))
            ⊎ (facts.input.geographic_eligibility ≡ Eligibility.blocked))))
assess_market-block_iff_example = assess_market-block_iff tenths facts

evaluate_market_bounds_example :
    let r = evaluate_market tenths no_date order_books input market at in
    (r.risk_score ≤ 100)
    × (1000 ≤ r.confidence)
    × (r.confidence ≤ 9500)
    × (at < r.expires_at)
    × (r.expires_at ≤ at + receipt_ttl_ms)
evaluate_market_bounds_example = evaluate_market_bounds tenths no_date order_books input market at

allowed : (evaluate_market tenths no_date order_books input market at).decision ≡ allow
unfolding evaluate_market Option.bind
allowed = refl

evaluate_market-allow_example :
    let r = evaluate_market tenths no_date order_books input market at in
    (r.risk_score ≡ 0)
    × (r.confidence ≡ 9500)
    × (r.unknowns ≡ [])
    × ((is_trading input.intended_action ≡ false)
        ⊎ ((r.expires_at ≤ at + orderbook_max_age_ms)
            × (is_some input.estimated_notional_usd ≡ true)
            × (input.execution_mode ≡ supervised)
            × (input.geographic_eligibility ≡ Eligibility.eligible)))
evaluate_market-allow_example =
    evaluate_market-allow tenths no_date order_books input market at allowed

abbrev urls : Text → Option ParsedUrl
urls s = some (record { hostname = codes "polymarket.com"; pathname = codes "/event/weather/rain" })

parse_prediction_market_reference_terminates_example :
    (r : Parsed) × (parse_prediction_market_reference urls 2
        (codes "https://polymarket.com/event/weather/rain")
      ≡ some r)
    × (parse_prediction_market_reference urls
          (2 + 3)
          (codes "https://polymarket.com/event/weather/rain")
        ≡ some r)
parse_prediction_market_reference_terminates_example =
    parse_prediction_market_reference_terminates urls
      (codes "https://polymarket.com/event/weather/rain") 3

parsed_url :
    parse_prediction_market_reference urls 2 (codes "https://polymarket.com/event/weather/rain")
    ≡ some (ok (slug (codes "rain")))
unfolding parse_prediction_market_reference
parsed_url = refl

parse_prediction_market_reference-value_example :
    parse_prediction_market_reference urls 2 (codes "rain") ≡ some (ok (slug (codes "rain")))
parse_prediction_market_reference-value_example =
    parse_prediction_market_reference-value urls (codes "https://polymarket.com/event/weather/rain")
      (slug (codes "rain")) parsed_url

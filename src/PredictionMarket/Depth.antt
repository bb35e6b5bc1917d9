-- ===== src/PredictionMarket/Depth.antt =====
-- `analyzeDepth`: what an order of a given size would meet in the book. The source computes with
-- doubles; here `W` is the type of the numbers, with the operations and constants that are used.
use directory.Common.{
  ℕ, Bool, true, ◌&&◌, Option, none, some, List, [], ◌∷◌, ◌++◌, filter, Text, if◌then◌else◌,
}
use mathlib.Core.Option
use directory.Common.Sort.{sort_by}
use directory.PredictionMarket.{MarketAction, is_buying, OrderLevel, OrderBook}
use directory.PredictionMarket.Freshness.{timestamp_ms}

-- `of_text` is `Number` where the result is finite; `fixed n` is `Number(x.toFixed(n))`.
pub record Numbers (W : Type 0) : Type 0 where
  pub of_text : Text → Option W
  pub nought : W
  pub cents_2 : W
  pub cents_5 : W
  pub half : W
  pub one : W
  pub ninety_nine : W
  pub bps_300 : W
  pub bps_10000 : W
  pub lt : W → W → Bool
  pub le : W → W → Bool
  pub add : W → W → W
  pub sub : W → W → W
  pub mul : W → W → W
  pub div : W → W → W
  pub abs : W → W
  pub fixed : ℕ → W → W

pub record Level (W : Type 0) : Type 0 where
  pub price : W
  pub size : W

pub record DepthAnalysis (W : Type 0) : Type 0 where
  pub available_notional_usd : W
  pub coverage_ratio : Option W
  pub estimated_average_price : Option W
  pub estimated_slippage_bps : Option W
  pub best_price : Option W
  pub observed_at : Option ℕ

-- What the loop over the levels has filled so far.
pub record Fill (W : Type 0) : Type 0 where
  pub remaining : W
  pub filled_notional : W
  pub filled_shares : W

module _ {W : Type 0} (n : Numbers W) where
  open n use {
    of_text, nought, cents_2, ninety_nine, bps_10000, lt, le, add, sub, mul, div, abs, fixed,
  }

  abbrev level_of : Option W → Option W → List (Level W)
  level_of (some p) (some q) =
      if lt nought p && lt nought q then record { price = p; size = q } ∷ [] else []
  level_of _ _ = []

  -- The levels that are positive numbers.
  unfoldable pub read_levels : List OrderLevel → List (Level W)
  read_levels [] = []
  read_levels (l ∷ ls) = level_of (of_text l.price) (of_text l.size) ++ read_levels ls

  abbrev cheaper : Level W → Level W → Bool
  cheaper a b = le a.price b.price

  abbrev dearer : Level W → Level W → Bool
  dearer a b = le b.price a.price

  -- The best level first.
  unfoldable pub levels_of : MarketAction → OrderBook → List (Level W)
  unfolding read_levels sort_by
  levels_of action book =
      if is_buying action
      then sort_by cheaper (read_levels book.asks)
      else sort_by dearer (read_levels book.bids)

  abbrev max : W → W → W
  max a b = if lt a b then b else a

  abbrev min : W → W → W
  min a b = if lt b a then b else a

  abbrev in_window : MarketAction → W → Level W → Bool
  in_window action best l =
      if is_buying action
      then le l.price (add best cents_2)
      else le (max nought (sub best cents_2)) l.price

  unfoldable pub sum_notional : W → List (Level W) → W
  sum_notional sum [] = sum
  sum_notional sum (l ∷ ls) = sum_notional (add sum (mul l.price l.size)) ls

  abbrev fill_level : Level W → Fill W → Fill W
  fill_level l f =
      let consumed = min f.remaining (mul l.price l.size) in
      record {
        remaining = sub f.remaining consumed;
        filled_notional = add f.filled_notional consumed;
        filled_shares = add f.filled_shares (div consumed l.price);
      }

  -- `if (remaining <= 0) break`
  unfoldable pub fill : List (Level W) → Fill W → Fill W
  fill [] f = f
  fill (l ∷ ls) f = let rest = fill ls (fill_level l f) in if le f.remaining nought then f else rest

  abbrev filled : Option W → List (Level W) → Fill W
  filled none ls = record { remaining = nought; filled_notional = nought; filled_shares = nought }
  filled (some notional) ls =
      fill ls (record { remaining = notional; filled_notional = nought; filled_shares = nought })

  unfoldable pub average_price : Fill W → Option W
  average_price f =
      if lt nought f.filled_shares then some (div f.filled_notional f.filled_shares) else none

  abbrev slippage_bps : W → W → W
  slippage_bps best average = mul (div (abs (sub average best)) best) bps_10000

  unfoldable pub analyze_levels :
      MarketAction → Option W → Option ℕ → List (Level W) → DepthAnalysis W
  unfolding sum_notional fill average_price
  analyze_levels action notional observed_at [] = record {
    available_notional_usd = nought;
    coverage_ratio = Option.map (λ w. nought) notional;
    estimated_average_price = none;
    estimated_slippage_bps = none;
    best_price = none;
    observed_at = observed_at;
  }
  analyze_levels action notional observed_at (l ∷ ls) =
      let best = l.price in
      let available = sum_notional nought (filter (in_window action best) (l ∷ ls)) in
      let average = average_price (filled notional (l ∷ ls)) in
      record {
        available_notional_usd = fixed 2 available;
        coverage_ratio = Option.map (λ w. fixed 4 (min ninety_nine (div available w))) notional;
        estimated_average_price = Option.map (fixed 6) average;
        estimated_slippage_bps = Option.map (λ a. fixed 1 (slippage_bps best a)) average;
        best_price = some best;
        observed_at = observed_at;
      }

  unfoldable pub analyze_depth :
      (Text → Option ℕ) → OrderBook → MarketAction → Option W → DepthAnalysis W
  unfolding analyze_levels levels_of timestamp_ms
  analyze_depth date_parse book action notional =
      analyze_levels action notional (timestamp_ms date_parse true book.timestamp)
        (levels_of action book)

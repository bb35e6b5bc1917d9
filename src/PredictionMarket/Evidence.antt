-- ===== src/PredictionMarket/Evidence.antt =====
-- What `evaluatePredictionMarket` reads from a market: the outcome that an action is about, its token,
-- and the evidence of the receipt.
use directory.Common.{
  ℕ, zero, suc, not, ◌&&◌, Option, none, some, List, [], ◌∷◌, if◌then◌else◌, ◌==◌, text_eq,
  is_empty, Text,
}
use mathlib.Core.Option
use directory.Slug.{to_lower_case}
use directory.Risk.Terms.{EvidenceStatus, pass, warn, fail}
use directory.PredictionMarket.{
  GammaMarket, MarketAction, observe, buy_yes, buy_no, sell_yes, sell_no, is_trading,
}
use directory.PredictionMarket.Reference.{InputError}
use directory.PredictionMarket.RuleText.{SourceStatus, TimeStatus, source_status, time_status}
use directory.PredictionMarket.Terms.{market_code_eq}
use directory.PredictionMarket.Records.{
  MarketEvidenceKind, market_metadata, market_metadata_freshness, time_boundary, order_book,
  MarketEvidence,
}
use directory.PredictionMarket.Assess.{MarketFacts, is_fresh}

-- What `getMarket` and the schema of its answer come to.
pub data MarketAnswer (W : Type 0) : Type 0 where
  found : GammaMarket W → MarketAnswer W
  not_found unavailable schema_mismatch : MarketAnswer W

pub data EvaluationError : Type 0 where
  input_error : InputError → EvaluationError
  market_not_found upstream_error out_of_fuel : EvaluationError

pub data Outcome (A : Type 0) : Type 0 where
  done : A → Outcome A
  fails : EvaluationError → Outcome A

-- `findIndex((outcome) => outcome.toLowerCase() === name)`
unfoldable pub outcome_index : Text → List Text → Option ℕ
unfolding to_lower_case
outcome_index name [] = none
outcome_index name (o ∷ os) =
    if to_lower_case o == name then some 0 else Option.map suc (outcome_index name os)

abbrev pub target_of : MarketAction → Option ℕ → Option ℕ → Option ℕ
target_of observe y n = none
target_of buy_yes y n = y
target_of sell_yes y n = y
target_of buy_no y n = n
target_of sell_no y n = n

unfoldable pub get_elem? : List Text → ℕ → Option Text
get_elem? [] i = none
get_elem? (x ∷ xs) zero = some x
get_elem? (x ∷ xs) (suc i) = get_elem? xs i

-- A token that is there and is not the empty text.
unfoldable pub token_at : List Text → Option ℕ → Option Text
unfolding get_elem?
token_at tokens none = none
token_at tokens (some i) = elim (get_elem? tokens i) [
  | none ↦ none
  | some t ↦ if is_empty t then none else some t
]

unfoldable pub evidence_of_market : {W : Type 0} → MarketFacts W → List MarketEvidence
unfolding source_status time_status
evidence_of_market f =
    let m = f.market in
    let trading = is_trading f.input.intended_action in
    (record {
      kind = market_metadata;
      status = if m.active && not m.closed then pass else if m.closed then fail else warn;
    })
    ∷ (record {
      kind = market_metadata_freshness;
      status = if is_fresh f.market_freshness then pass else EvidenceStatus.unknown;
    })
    ∷ (record {
      kind = MarketEvidenceKind.resolution_rules;
      status = elim (source_status m.resolution_source m.description) [
        | SourceStatus.specific ↦ pass
        | SourceStatus.generic ↦ warn
        | SourceStatus.missing ↦ EvidenceStatus.unknown
      ];
    })
    ∷ (record {
      kind = time_boundary;
      status = elim (time_status m.description) [
        | TimeStatus.specific ↦ pass
        | TimeStatus.limited ↦ warn
      ];
    })
    ∷ (if trading
        then (record {
          kind = order_book;
          status = if f.order_book_available && is_fresh f.book_freshness then pass else fail;
        })
          ∷ []
        else [])

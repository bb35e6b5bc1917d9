-- ===== src/PredictionMarket/Assess/Bounds.antt =====
-- The score, the confidence and the expiry of a verdict.
use directory.Common.{
  ℕ, ◌+◌, ◌≤◌, ◌≡◌, refl, Bool, true, false, List, [], ◌∷◌, ◌++◌, arith, is_empty, Text,
}
use directory.Risk.Terms.{allow, block, decision_eq}
use directory.PredictionMarket.RuleText.{time_status, time_status-nil, TimeStatus}
use directory.PredictionMarket.Depth.{Numbers}
use directory.PredictionMarket.Terms.{
  Call, MarketAssessment, MarketRiskFactor, add_market_risk, add_market_risks,
}
use directory.PredictionMarket.Assess.{
  MarketFacts, calls, assess_market, passed_market, severity_weight, sum_weights, risk_score,
  evidence_checks, confidence_of_checks,
}
use directory.PredictionMarket.Assess.Calls.{is_quiet, is_blocking, is_graded, nothing}
use directory.PredictionMarket.Assess.Decision.{
  assess_market-quiet, assess_market-blocking, assess_market-allow_iff, calls-graded,
}

quiet-nil : (cs : List Call) → is_quiet cs ≡ true → is_graded cs ≡ true → cs ≡ []
quiet-nil [] q g = refl
quiet-nil (c ∷ cs) q g = ground arith

-- The weight of a list of calls.
abbrev weigh : List Call → ℕ
weigh [] = 0
weigh (c ∷ cs) = severity_weight c.severity + weigh cs

sum_weights-append :
    (xs : List MarketRiskFactor) (x : MarketRiskFactor)
    → sum_weights (xs ++ x ∷ []) ≡ sum_weights xs + severity_weight x.severity
unfolding sum_weights
sum_weights-append [] x = omega arith
sum_weights-append (y ∷ xs) x = omega (arith, sum_weights-append xs x)

sum_weights-calls :
    (cs : List Call) (a : MarketAssessment)
    → sum_weights (add_market_risks cs a).risk_factors ≡ sum_weights a.risk_factors + weigh cs
unfolding add_market_risks add_market_risk
sum_weights-calls [] a = omega arith
sum_weights-calls (c ∷ cs) a = omega (
  arith,
  sum_weights-calls cs (add_market_risk c a),
  sum_weights-append a.risk_factors (record { code = c.code; severity = c.severity }),
)

passed_market-risk_factors :
    (a : MarketAssessment) → (passed_market a).risk_factors ≡ a.risk_factors
unfolding passed_market
passed_market-risk_factors a = ground arith

passed_market-unknowns : (a : MarketAssessment) → (passed_market a).unknowns ≡ a.unknowns
unfolding passed_market
passed_market-unknowns a = ground arith

weigh-blocking : (cs : List Call) → is_blocking cs ≡ true → is_graded cs ≡ true → 60 ≤ weigh cs
weigh-blocking [] h g = cc
weigh-blocking (c ∷ cs) h g = ground (arith, weigh-blocking cs)

confidence_full :
    (a b c d e g h : Bool)
    → a ≡ true
    → b ≡ true
    → c ≡ true
    → d ≡ true
    → e ≡ true
    → g ≡ true
    → h ≡ true
    → confidence_of_checks (a ∷ b ∷ c ∷ d ∷ e ∷ g ∷ h ∷ []) ≡ 9500
unfolding confidence_of_checks
confidence_full a b c d e g h p q r s t u v = rw (p, q, r, s, t, u, v) refl

module _ {W : Type 0} (n : Numbers W) (f : MarketFacts W) where
  assess_market-sum_weights : sum_weights (assess_market n f).risk_factors ≡ weigh (calls n f)
  unfolding assess_market sum_weights
  assess_market-sum_weights =
      rw (passed_market-risk_factors (add_market_risks (calls n f) nothing))
        (omega (arith, sum_weights-calls (calls n f) nothing))

  pub assess_market-risk_score :
      (risk_score (assess_market n f).risk_factors ≤ 100)
      × ((assess_market n f).decision ≡ block → 60 ≤ risk_score (assess_market n f).risk_factors)
  unfolding risk_score
  assess_market-risk_score = (
    omega arith,
    λ h.
        let w = weigh-blocking (calls n f) ((assess_market-blocking n f).0 h) (calls-graded n f) in
        let e = assess_market-sum_weights in omega arith,
  )

  pub assess_market-allow_nothing :
      (assess_market n f).decision ≡ allow
      → ((assess_market n f).risk_factors ≡ []) × ((assess_market n f).unknowns ≡ [])
  unfolding assess_market add_market_risks
  assess_market-allow_nothing h =
      let e : calls n f ≡ [] =
        quiet-nil (calls n f) ((assess_market-quiet n f).0 h) (calls-graded n f) in
      (
        rw (passed_market-risk_factors (add_market_risks (calls n f) nothing), e) refl,
        rw (passed_market-unknowns (add_market_risks (calls n f) nothing), e) refl,
      )

  described : (d : Text) → time_status d ≡ TimeStatus.specific → is_empty d ≡ false
  described [] h = let k = time_status-nil in cc
  described (c ∷ d) h = refl

  pub confidence-allow :
      (assess_market n f).decision ≡ allow → confidence_of_checks (evidence_checks n f) ≡ 9500
  unfolding evidence_checks
  confidence-allow h =
      let c = (assess_market-allow_iff n f).0 h in
      let d = described f.market.description c.specific_time in
      confidence_full _ _ _ _ _ _ _ (ground arith) (ground arith) (ground arith) (ground arith)
        (ground arith) (ground arith) (ground arith)

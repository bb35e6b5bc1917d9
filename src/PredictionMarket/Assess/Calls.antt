-- ===== src/PredictionMarket/Assess/Calls.antt =====
-- What a list of calls of `addRisk` makes of the decision.
use directory.Common.{
  ◌≡◌, ◌↔◌, ◌⊎◌, refl, Bool, true, false, not, ◌&&◌, ◌||◌, List, [], ◌∷◌, ◌++◌, all, any, ◌==◌,
  arith,
}
use directory.Risk.Terms.{allow, block, decision_eq, Severity, critical}
use directory.PredictionMarket.Terms.{Call, MarketAssessment, add_market_risk, add_market_risks}
use directory.PredictionMarket.Assess.{passed_market}

-- Before the first call.
abbrev pub nothing : MarketAssessment
nothing = record { reason_codes = []; risk_factors = []; unknowns = []; decision = allow }

-- Does no call ask for more than "allow"?
abbrev pub is_quiet : List Call → Bool
is_quiet cs = all (λ (c : Call). c.required == allow) cs

-- Does some call ask for "block"?
abbrev pub is_blocking : List Call → Bool
is_blocking cs = any (λ (c : Call). c.required == block) cs

-- Does every call ask for "review" or "block", the latter only with a critical severity?
abbrev pub is_critical : Severity → Bool
is_critical critical = true
is_critical _ = false

abbrev pub is_graded : List Call → Bool
is_graded cs =
    all
      (λ (c : Call).
        not (c.required == allow) && (not (c.required == block) || is_critical c.severity))
      cs

all-append : (p : Call → Bool) (xs ys : List Call) → all p (xs ++ ys) ≡ (all p xs && all p ys)
all-append p [] ys = refl
all-append p (x ∷ xs) ys = ground (arith, all-append p xs ys)

pub is_blocking-append :
    (xs ys : List Call) → is_blocking (xs ++ ys) ≡ (is_blocking xs || is_blocking ys)
is_blocking-append [] ys = refl
is_blocking-append (x ∷ xs) ys = ground (arith, is_blocking-append xs ys)

pub add_market_risks-allow :
    (cs : List Call) (a : MarketAssessment)
    → ((add_market_risks cs a).decision ≡ allow) ↔ ((a.decision ≡ allow) × (is_quiet cs ≡ true))
unfolding add_market_risks add_market_risk
add_market_risks-allow [] a = ground arith
add_market_risks-allow (c ∷ cs) a = ground (arith, add_market_risks-allow cs (add_market_risk c a))

pub add_market_risks-block :
    (cs : List Call) (a : MarketAssessment)
    → ((add_market_risks cs a).decision ≡ block) ↔ ((a.decision ≡ block) ⊎ (is_blocking cs ≡ true))
unfolding add_market_risks add_market_risk
add_market_risks-block [] a = ground arith
add_market_risks-block (c ∷ cs) a = ground (arith, add_market_risks-block cs (add_market_risk c a))

pub passed_market-decision : (a : MarketAssessment) → (passed_market a).decision ≡ a.decision
unfolding passed_market
passed_market-decision a = ground arith

module _ (a b c d e g h : List Call) where
  pub all-groups :
      (p : Call → Bool)
      → (all p (a ++ b ++ c ++ d ++ e ++ g ++ h) ≡ true) ↔ (
          (all p a ≡ true)
          × (all p b ≡ true)
          × (all p c ≡ true)
          × (all p d ≡ true)
          × (all p e ≡ true)
          × (all p g ≡ true)
          × (all p h ≡ true))
  all-groups p =
      rw
        (
          all-append p (a ++ b ++ c ++ d ++ e ++ g) h,
          all-append p (a ++ b ++ c ++ d ++ e) g,
          all-append p (a ++ b ++ c ++ d) e,
          all-append p (a ++ b ++ c) d,
          all-append p (a ++ b) c,
          all-append p a b,
        )
        (ground arith)

  pub is_blocking-groups : (is_blocking (a ++ b ++ c ++ d ++ e ++ g ++ h) ≡ true) ↔ (
      (is_blocking a ≡ true)
      ⊎ (is_blocking b ≡ true)
      ⊎ (is_blocking c ≡ true)
      ⊎ (is_blocking d ≡ true)
      ⊎ (is_blocking e ≡ true)
      ⊎ (is_blocking g ≡ true)
      ⊎ (is_blocking h ≡ true))
  is_blocking-groups =
      rw
        (
          is_blocking-append (a ++ b ++ c ++ d ++ e ++ g) h,
          is_blocking-append (a ++ b ++ c ++ d ++ e) g,
          is_blocking-append (a ++ b ++ c ++ d) e,
          is_blocking-append (a ++ b ++ c) d,
          is_blocking-append (a ++ b) c,
          is_blocking-append a b,
        )
        (ground arith)

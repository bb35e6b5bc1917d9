-- ===== src/PredictionMarket/Assess/Expiry.antt =====
-- Until when the evidence of a preflight counts, and its receipt.
use directory.Common.{
  ℕ, ◌+◌, ◌≤◌, ◌<◌, ◌≡◌, refl, if◌then◌else◌, inl, inr, min, Bool, true, false, Option, none, some,
  arith, is_some, Option-cases, Text, is_empty,
}
use directory.Search.{trim}
use directory.PredictionMarket.Freshness.{
  FreshnessStatus, Freshness, fresh, freshness_of, evidence_freshness, timestamp_ms,
  freshness_of-fresh,
}
use directory.PredictionMarket.Assess.{expires_at, receipt_ttl_ms}

-- Where a piece of evidence has an end, the end lies ahead, by at most its greatest age.
abbrev pub Ahead : ℕ → ℕ → Freshness → Type 0
Ahead now max_age f = (v : ℕ) → f.valid_until ≡ some v → (now < v) × (v ≤ now + max_age)

freshness_of-valid :
    (o : Option ℕ) (max_age now v : ℕ)
    → (freshness_of o max_age now).valid_until ≡ some v
    → (freshness_of o max_age now).status ≡ fresh
unfolding freshness_of
freshness_of-valid none max_age now v h = cc
freshness_of-valid (some ms) max_age now v h = only _ h
  where
    only :
        (s : FreshnessStatus)
        → elim s [ fresh ↦ some (min ms now + max_age) | _ ↦ none ] ≡ some v
        → s ≡ fresh
    only s h = ground arith

freshness_of-Ahead :
    (o : Option ℕ) (max_age now : ℕ) → 0 < max_age → Ahead now max_age (freshness_of o max_age now)
freshness_of-Ahead o max_age now some_time v h =
    let (ms, _, _, q, e) =
      freshness_of-fresh o max_age now (freshness_of-valid o max_age now v h) in
    ground arith

-- The shape of `evidenceFreshness`: nothing, or the age of a time.
abbrev aged : Bool → Option ℕ → ℕ → ℕ → Freshness
aged b o max_age now =
    if b
    then record { status = FreshnessStatus.missing; observed_at = none; valid_until = none }
    else freshness_of o max_age now

aged-Ahead :
    (b : Bool) (o : Option ℕ) (max_age now : ℕ)
    → 0 < max_age
    → Ahead now max_age (aged b o max_age now)
aged-Ahead true o max_age now some_time v h = cc
aged-Ahead false o max_age now some_time v h = freshness_of-Ahead o max_age now some_time v h

aged-ends :
    (b : Bool) (o : Option ℕ) (max_age now : ℕ)
    → (aged b o max_age now).status ≡ fresh
    → is_some (aged b o max_age now).valid_until ≡ true
aged-ends true o max_age now h = cc
aged-ends false o max_age now h =
    let (ms, _, _, _, e) = freshness_of-fresh o max_age now h in rw e refl

pub evidence_freshness-Ahead :
    (date_parse : Text → Option ℕ) (o : Option Text) (max_age now : ℕ) (epoch : Bool)
    → 0 < max_age
    → Ahead now max_age (evidence_freshness date_parse o max_age now epoch)
unfolding evidence_freshness
evidence_freshness-Ahead date_parse none max_age now epoch some_time v h = cc
evidence_freshness-Ahead date_parse (some s) max_age now epoch some_time v h =
    aged-Ahead (is_empty (trim s)) (timestamp_ms date_parse epoch s) max_age now some_time v h

-- A fresh piece of evidence has an end.
pub evidence_freshness-ends :
    (date_parse : Text → Option ℕ) (o : Option Text) (max_age now : ℕ) (epoch : Bool)
    → (evidence_freshness date_parse o max_age now epoch).status ≡ fresh
    → is_some (evidence_freshness date_parse o max_age now epoch).valid_until ≡ true
unfolding evidence_freshness
evidence_freshness-ends date_parse none max_age now epoch h = cc
evidence_freshness-ends date_parse (some s) max_age now epoch h =
    aged-ends (is_empty (trim s)) (timestamp_ms date_parse epoch s) max_age now h

pub expires_at-Ahead :
    (t : Bool) (now a b : ℕ) (m k : Freshness)
    → Ahead now a m
    → Ahead now b k
    → (now < expires_at t now m k)
      × (expires_at t now m k ≤ now + receipt_ttl_ms)
      × (t ≡ true → is_some k.valid_until ≡ true → expires_at t now m k ≤ now + b)
unfolding expires_at
expires_at-Ahead t now a b m k p q = elim (Option-cases m.valid_until) [
  | inl e ↦ elim (Option-cases k.valid_until) [
    | inl d ↦ ground arith
    | inr (v, d) ↦ let r = q v d in ground arith
  ]
  | inr (u, e) ↦ elim (Option-cases k.valid_until) [
    | inl d ↦ let s = p u e in ground arith
    | inr (v, d) ↦ let s = p u e in let r = q v d in ground arith
  ]
]

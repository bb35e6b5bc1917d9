-- ===== src/Risk/Coverage.antt =====
-- What a receipt that allows has seen: complete evidence, hence a confidence of 0.85 at least.
use directory.Common.{
  ℕ, suc, max, ◌≤◌, ◌≡◌, refl, ◌++◌, ◌⊎◌, inl, inr, Bool, true, false, not, Option, List, [], ◌∷◌,
  arith, is_empty, is_some, filter, length, map,
}
use directory.Store.{to_fixed4}
use directory.Types.{ToolProtocol, CheckType}
use directory.Types.Records.{MemoryTool, VerificationCheckRecord, TrustProfile}
use directory.Risk.Terms.{RiskEvidence, allow, EvaluateToolRiskRequest}
use directory.Risk.Evidence.{
  check_evidence_of, latest_get, missing_checks, required_checks, evidence_of, evidence_coverage,
  confidence_of, provider_evidence, lifecycle_evidence, usage_evidence, is_known, is_usage,
  latest_checks,
}
use directory.Risk.Allow.{assess-allow_iff}
use directory.Risk.Evaluate.{record_of, facts_of}

check_evidence_of-known :
    (l : List VerificationCheckRecord) (now : ℕ) (type : CheckType)
    → is_some (latest_get type l) ≡ true
    → (is_known (check_evidence_of l now type) ≡ true)
      × (is_usage (check_evidence_of l now type) ≡ false)
unfolding check_evidence_of
check_evidence_of-known l now type h = ground arith

missing_checks-known :
    (l : List VerificationCheckRecord) (now : ℕ) (types : List CheckType)
    → missing_checks l types ≡ []
    → (filter is_known (map (check_evidence_of l now) types) ≡ map (check_evidence_of l now) types)
      × (filter (λ e. not (is_usage e)) (map (check_evidence_of l now) types)
          ≡ map (check_evidence_of l now) types)
unfolding missing_checks
missing_checks-known l now [] m = (refl, refl)
missing_checks-known l now (t ∷ types) m =
    ground (arith, missing_checks-known l now types, check_evidence_of-known l now t)

filter_last :
    {A : Type 0} (p : A → Bool) (xs : List A) (u : A)
    → p u ≡ false
    → filter p (xs ++ u ∷ []) ≡ filter p xs
filter_last p [] u h = ground arith
filter_last p (x ∷ xs) u h = ground (arith, filter_last p xs u h)

-- Only known evidence, closed by the evidence on usage, which does not count.
coverage_all :
    (e₁ e₂ u : RiskEvidence) (xs : List RiskEvidence)
    → is_usage e₁ ≡ false
    → is_usage e₂ ≡ false
    → is_usage u ≡ true
    → is_known e₁ ≡ true
    → is_known e₂ ≡ true
    → filter is_known xs ≡ xs
    → filter (λ e. not (is_usage e)) xs ≡ xs
    → evidence_coverage (e₁ ∷ e₂ ∷ (xs ++ u ∷ []))
      ≡ to_fixed4 (suc (suc (length xs))) (suc (suc (length xs)))
unfolding evidence_coverage
coverage_all e₁ e₂ u xs a b c d e f g =
    let l : filter (λ e. not (is_usage e)) (xs ++ u ∷ []) ≡ xs =
      rw (filter_last (λ e. not (is_usage e)) xs u (ground arith)) g in
    let m : max 1 (suc (suc (length xs))) ≡ suc (suc (length xs)) = omega arith in
    simp (a, b, d, e, l, f) (rw m refl)

length-required :
    (p : ToolProtocol) (l : List VerificationCheckRecord) (now : ℕ)
    → let n = length (map (check_evidence_of l now) (required_checks p)) in (n ≡ 5) ⊎ (n ≡ 2)
unfolding required_checks
length-required p l now = ground arith

evidence_coverage-full :
    (tool : MemoryTool) (l : List VerificationCheckRecord) (now : ℕ)
    → tool.provider.verified ≡ true
    → missing_checks l (required_checks tool.protocol) ≡ []
    → evidence_coverage (evidence_of tool l now) ≡ 10000
unfolding evidence_of
evidence_coverage-full tool l now v m =
    let k = missing_checks-known l now (required_checks tool.protocol) m in
    let h =
      coverage_all (provider_evidence tool) (lifecycle_evidence tool) (usage_evidence tool)
        (map (check_evidence_of l now) (required_checks tool.protocol)) refl refl refl
        (ground arith) (ground arith) k.0 k.1 in
    elim (length-required tool.protocol l now) [
      | inl e ↦ let g = rw e at h in g
      | inr e ↦ let g = rw e at h in g
    ]

nil_of_empty {ℓ} : {A : Type ℓ} (l : List A) → not (is_empty l) ≡ false → l ≡ []
nil_of_empty [] h = refl
nil_of_empty (a ∷ l) h = cc

confidence_of-full : (n : ℕ) → 8500 ≤ confidence_of 10000 true n
unfolding confidence_of
confidence_of-full n = ground arith

-- A receipt that allows has complete evidence, and a confidence of at least 0.85.
pub record_of-allow :
    (input : EvaluateToolRiskRequest) (tool : MemoryTool) (checks : List VerificationCheckRecord)
    (refreshed : Option TrustProfile) (now : ℕ)
    → let r = record_of input (facts_of input tool checks refreshed now) in
      r.decision ≡ allow → (r.evidence_coverage ≡ 10000) × (8500 ≤ r.confidence)
unfolding record_of facts_of
record_of-allow input tool checks refreshed now h =
    let clear = (assess-allow_iff (facts_of input tool checks refreshed now)).0 h in
    let full = evidence_coverage-full tool (latest_checks checks) now clear.verified (
      nil_of_empty (missing_checks (latest_checks checks) (required_checks tool.protocol))
        clear.complete) in
    (full, rw (full, clear.verified) (confidence_of-full tool.usage.invocations_7d))

-- ===== src/Risk/Allow.antt =====
-- When the preflight allows, and when it blocks.
use directory.Common.{
  ℕ, ◌≤◌, ◌≡◌, ◌↔◌, ◌⊎◌, true, false, not, Option, List, [], arith, any, is_empty, ◌==◌, In, any-In,
  In-filter, any-of-In, filter-In, some, none, Never, ◌+◌, inl, inr,
}
use directory.Risk.Evidence.{is_recent, risk_evidence_max_age_ms}
use directory.Types.{CheckStatus, ToolStatus, AuthRequirement, tls_security, check_type_eq}
use directory.Types.Records.{VerificationCheckRecord}
use directory.Risk.Terms.{
  Permission, public, restricted, supervised, allow, block, Assessment, reason_eq, permission_eq,
}
use directory.Risk.Decide.{
  start, target_risk, permission_risks, sensitivity_risk, provider_risks, failure_risk,
  recent_failures, evidence_risks, stale_checks_of, overall, trust_risk, usage_reason,
  unattended_risk, Facts, assess, is_unsupported, is_elevated, is_failure,
}
use directory.Risk.Permissions.{IsHighRisk, IsHighRisk-iff, is_public_iff, any_none, only_public_of}
use directory.Risk.Rules.{
  target_risk-allow, target_risk-block, permission_risks-allow, permission_risks-block,
  sensitivity_risk-allow, sensitivity_risk-block, provider_risks-allow, provider_risks-block,
  failure_risk-allow, failure_risk-block, evidence_risks-allow, evidence_risks-block,
  trust_risk-allow, trust_risk-block, usage_reason-decision, passed_reason-decision, is_broad,
  unattended_risk-allow, unattended_risk-block,
}

record PassesTests (f : Facts) : Type 0 where
  active : f.tool.status ≡ ToolStatus.active
  no_unsupported : any is_unsupported f.permissions ≡ false
  no_elevated : any is_elevated f.permissions ≡ false
  public_data : f.data_sensitivity ≡ public
  verified : f.tool.provider.verified ≡ true
  no_auth : f.tool.auth_requirement ≡ AuthRequirement.no_auth
  no_failure : recent_failures f.latest f.now ≡ []
  complete : f.missing ≡ false
  fresh : is_empty (stale_checks_of f.latest f.now) ≡ true
  trusted : 7000 ≤ overall f.trust
  assured : (f.execution_mode ≡ supervised) ⊎ (is_broad f.permissions ≡ false)

pub record IsClear (f : Facts) : Type 0 where
  pub active : f.tool.status ≡ ToolStatus.active
  pub only_public : (p : Permission) → In p f.permissions → p ≡ Permission.public_network
  pub public_data : f.data_sensitivity ≡ public
  pub verified : f.tool.provider.verified ≡ true
  pub no_auth : f.tool.auth_requirement ≡ AuthRequirement.no_auth
  pub no_failure : recent_failures f.latest f.now ≡ []
  pub complete : f.missing ≡ false
  pub fresh : is_empty (stale_checks_of f.latest f.now) ≡ true
  pub trusted : 7000 ≤ overall f.trust
  pub assured : (f.execution_mode ≡ supervised) ⊎ (is_broad f.permissions ≡ false)

-- The last 24 hours of evidence, written as an order.
abbrev pub IsRecent : ℕ → Option ℕ → Type 0
IsRecent now none = Never
IsRecent now (some at) = now ≤ at + risk_evidence_max_age_ms

abbrev pub IsTlsFailure : ℕ → VerificationCheckRecord → Type 0
IsTlsFailure now c =
    (c.check_type ≡ tls_security)
    × ((c.status ≡ CheckStatus.fail) ⊎ (c.status ≡ CheckStatus.error))
    × IsRecent now c.checked_at

is_recent_iff : (now : ℕ) (at : Option ℕ) → (is_recent now at ≡ true) ↔ IsRecent now at
is_recent_iff now none = (λ e. let k : false ≡ true = e in cc, λ h. elim h [ ])
is_recent_iff now (some at) = ground arith

is_failure_iff :
    (s : CheckStatus) → (is_failure s ≡ true) ↔ ((s ≡ CheckStatus.fail) ⊎ (s ≡ CheckStatus.error))
is_failure_iff s = ground arith

recent_tls_iff :
    (l : List VerificationCheckRecord) (now : ℕ)
    → (any (λ (c : VerificationCheckRecord). c.check_type == tls_security) (recent_failures l now)
        ≡ true)
      ↔ ((c : VerificationCheckRecord) × In c l × IsTlsFailure now c)
unfolding recent_failures
recent_tls_iff l now = (
  λ h.
      let (c, i, t) = any-In _ (recent_failures l now) h in
      let (j, q) = In-filter _ c l i in
      (c, j, ground (arith, is_recent_iff now c.checked_at, is_failure_iff c.status)),
  λ h.
      let (c, i, t) = h in
      any-of-In _ c (recent_failures l now)
        (filter-In _ c l i
          (ground (arith, is_recent_iff now c.checked_at, is_failure_iff c.status)))
        (ground arith),
)

IsClear-iff : (f : Facts) → PassesTests f ↔ IsClear f
IsClear-iff f = (
  λ t. record {
    active = t.active;
    only_public = only_public_of f.permissions t.no_unsupported t.no_elevated;
    public_data = t.public_data;
    verified = t.verified;
    no_auth = t.no_auth;
    no_failure = t.no_failure;
    complete = t.complete;
    fresh = t.fresh;
    trusted = t.trusted;
    assured = t.assured;
  },
  λ c. record {
    active = c.active;
    no_unsupported =
        any_none is_unsupported f.permissions (λ p i. ((is_public_iff p).1 (c.only_public p i)).0);
    no_elevated =
        any_none is_elevated f.permissions (λ p i. ((is_public_iff p).1 (c.only_public p i)).1);
    public_data = c.public_data;
    verified = c.verified;
    no_auth = c.no_auth;
    no_failure = c.no_failure;
    complete = c.complete;
    fresh = c.fresh;
    trusted = c.trusted;
    assured = c.assured;
  },
)

third_of : {A B C C' D : Type 0} → (C → C') → A ⊎ B ⊎ C ⊎ D → A ⊎ B ⊎ C' ⊎ D
third_of f (inl a) = inl a
third_of f (inr (inl b)) = inr (inl b)
third_of f (inr (inr (inl c))) = inr (inr (inl (f c)))
third_of f (inr (inr (inr d))) = inr (inr (inr d))

last_of : {A B C D : Type 0} {E F : Type 0} → (E → F) → A ⊎ B ⊎ C ⊎ D ⊎ E → A ⊎ B ⊎ C ⊎ D ⊎ F
last_of f (inl a) = inl a
last_of f (inr (inl b)) = inr (inl b)
last_of f (inr (inr (inl c))) = inr (inr (inl c))
last_of f (inr (inr (inr (inl d)))) = inr (inr (inr (inl d)))
last_of f (inr (inr (inr (inr e)))) = inr (inr (inr (inr (f e))))

-- The stages of `assess`, for the lemmas above.
module _ (f : Facts) where
  abbrev a₁ : Assessment
  a₁ = target_risk f.tool.status start

  abbrev a₂ : Assessment
  a₂ = permission_risks f.permissions a₁

  abbrev a₃ : Assessment
  a₃ = sensitivity_risk f.data_sensitivity a₂

  abbrev a₄ : Assessment
  a₄ = provider_risks f.tool.provider.verified f.tool.auth_requirement a₃

  abbrev a₅ : Assessment
  a₅ = failure_risk (recent_failures f.latest f.now) a₄

  abbrev a₆ : Assessment
  a₆ = evidence_risks f.missing (not (is_empty (stale_checks_of f.latest f.now))) a₅

  abbrev a₇ : Assessment
  a₇ = trust_risk f.trust a₆

  abbrev a₈ : Assessment
  a₈ = usage_reason f.tool.usage.invocations_7d a₇

  abbrev a₉ : Assessment
  a₉ = unattended_risk f.execution_mode f.permissions f.data_sensitivity a₈

  assess-allow_tests : ((assess f).decision ≡ allow) ↔ PassesTests f
  unfolding assess
  assess-allow_tests = ground (
    arith,
    target_risk-allow f.tool.status start,
    permission_risks-allow f.permissions a₁,
    sensitivity_risk-allow f.data_sensitivity a₂,
    provider_risks-allow f.tool.provider.verified f.tool.auth_requirement a₃,
    failure_risk-allow (recent_failures f.latest f.now) a₄,
    evidence_risks-allow f.missing (not (is_empty (stale_checks_of f.latest f.now))) a₅,
    trust_risk-allow f.trust a₆,
    usage_reason-decision f.tool.usage.invocations_7d a₇,
    unattended_risk-allow f.execution_mode f.permissions f.data_sensitivity a₈,
    passed_reason-decision a₉,
  )

  -- The decision is "allow" exactly when every condition of a clear case holds: an active target of
  -- a verified provider without authentication, public data, no permission but the public network,
  -- no recent failure and nothing stale among the latest checks of each type, no missing check, a
  -- trust score of at least 0.7, and for an unattended action no broad permission.
  pub assess-allow_iff : ((assess f).decision ≡ allow) ↔ IsClear f
  assess-allow_iff = (
    λ h. (IsClear-iff f).0 (assess-allow_tests.0 h),
    λ h. assess-allow_tests.1 ((IsClear-iff f).1 h),
  )

  assess-block_tests : ((assess f).decision ≡ block) ↔ (
      (f.tool.status ≡ ToolStatus.suspended)
      ⊎ (f.tool.status ≡ ToolStatus.pending)
      ⊎ (any is_unsupported f.permissions ≡ true)
      ⊎ (f.data_sensitivity ≡ restricted)
      ⊎ (any
            (λ (c : VerificationCheckRecord). c.check_type == tls_security)
            (recent_failures f.latest f.now)
          ≡ true))
  unfolding assess
  assess-block_tests = ground (
    arith,
    target_risk-block f.tool.status start,
    permission_risks-block f.permissions a₁,
    sensitivity_risk-block f.data_sensitivity a₂,
    provider_risks-block f.tool.provider.verified f.tool.auth_requirement a₃,
    failure_risk-block (recent_failures f.latest f.now) a₄,
    evidence_risks-block f.missing (not (is_empty (stale_checks_of f.latest f.now))) a₅,
    trust_risk-block f.trust a₆,
    usage_reason-decision f.tool.usage.invocations_7d a₇,
    unattended_risk-block f.execution_mode f.permissions f.data_sensitivity a₈,
    passed_reason-decision a₉,
  )

  -- The decision is "block" exactly when the target is suspended or pending, a high-risk permission
  -- is asked for (writing local files, credentials, running code, payments or destructive actions),
  -- the data is restricted, or the latest TLS check failed, within the last 24 hours.
  pub assess-block_iff : ((assess f).decision ≡ block) ↔ (
      (f.tool.status ≡ ToolStatus.suspended)
      ⊎ (f.tool.status ≡ ToolStatus.pending)
      ⊎ ((p : Permission) × In p f.permissions × IsHighRisk p)
      ⊎ (f.data_sensitivity ≡ restricted)
      ⊎ ((c : VerificationCheckRecord) × In c f.latest × IsTlsFailure f.now c))
  assess-block_iff = (
    λ h.
        third_of (IsHighRisk-iff f.permissions).0
          (last_of (recent_tls_iff f.latest f.now).0 (assess-block_tests.0 h)),
    λ h.
        assess-block_tests.1
          (last_of (recent_tls_iff f.latest f.now).1 (third_of (IsHighRisk-iff f.permissions).1 h)),
  )

-- ===== src/Risk/Terms.antt =====
-- The vocabulary of src/domain/risk-evaluation.ts, and `addRisk`.
use directory.Common.{
  ℕ, String, ◌≡◌, ◌↔◌, Bool, true, ◌||◌, Option, List, [], ◌∷◌, ◌++◌, arith, if◌then◌else◌,
  StrictEq, ◌==◌, nat_beq, set_add, refl, sym, ap, ◌∙◌, nat_beq_iff,
}
use directory.Types.{CheckType}

pub data RiskAction : Type 0 where
  inspect install invoke : RiskAction

pub data DataSensitivity : Type 0 where
  public internal confidential restricted : DataSensitivity

pub data ExecutionMode : Type 0 where
  supervised unattended : ExecutionMode

pub data Permission : Type 0 where
  public_network local_files_read local_files_write credentials personal_data code_execution
        payments destructive_actions :
      Permission

pub data RiskDecision : Type 0 where
  allow review block : RiskDecision

pub data Severity : Type 0 where
  low medium high critical : Severity

pub data EvidenceStatus : Type 0 where
  pass warn fail unknown : EvidenceStatus

pub data EvidenceKind : Type 0 where
  provider_ownership catalog_lifecycle observed_usage : EvidenceKind
  check : CheckType → EvidenceKind

pub data ReasonCode : Type 0 where
  target_suspended target_not_active high_risk_permission_out_of_scope
        elevated_permission_requires_review restricted_data_out_of_scope
        non_public_data_requires_review provider_unverified authentication_required
        recent_security_failure recent_verification_failure evidence_incomplete evidence_stale
        trust_signal_below_allow_threshold limited_observed_usage
        unattended_higher_assurance_required low_risk_preflight_passed :
      ReasonCode

pub data Unknown : Type 0 where
  missing_check : CheckType → Unknown
  stale_checks limited_history : Unknown

abbrev permission_tag : Permission → ℕ
permission_tag public_network = 0
permission_tag local_files_read = 1
permission_tag local_files_write = 2
permission_tag credentials = 3
permission_tag personal_data = 4
permission_tag code_execution = 5
permission_tag payments = 6
permission_tag destructive_actions = 7

abbrev sensitivity_tag : DataSensitivity → ℕ
sensitivity_tag public = 0
sensitivity_tag internal = 1
sensitivity_tag confidential = 2
sensitivity_tag restricted = 3

abbrev decision_tag : RiskDecision → ℕ
decision_tag allow = 0
decision_tag review = 1
decision_tag block = 2

abbrev reason_tag : ReasonCode → ℕ
reason_tag target_suspended = 0
reason_tag target_not_active = 1
reason_tag high_risk_permission_out_of_scope = 2
reason_tag elevated_permission_requires_review = 3
reason_tag restricted_data_out_of_scope = 4
reason_tag non_public_data_requires_review = 5
reason_tag provider_unverified = 6
reason_tag authentication_required = 7
reason_tag recent_security_failure = 8
reason_tag recent_verification_failure = 9
reason_tag evidence_incomplete = 10
reason_tag evidence_stale = 11
reason_tag trust_signal_below_allow_threshold = 12
reason_tag limited_observed_usage = 13
reason_tag unattended_higher_assurance_required = 14
reason_tag low_risk_preflight_passed = 15

abbrev permission_beq : Permission → Permission → Bool
permission_beq p q = nat_beq (permission_tag p) (permission_tag q)

abbrev sensitivity_beq : DataSensitivity → DataSensitivity → Bool
sensitivity_beq p q = nat_beq (sensitivity_tag p) (sensitivity_tag q)

abbrev decision_beq : RiskDecision → RiskDecision → Bool
decision_beq p q = nat_beq (decision_tag p) (decision_tag q)

abbrev reason_beq : ReasonCode → ReasonCode → Bool
reason_beq p q = nat_beq (reason_tag p) (reason_tag q)

pub permission_beq_iff : (p q : Permission) → (permission_beq p q ≡ true) ↔ (p ≡ q)
permission_beq_iff p q = ground arith

pub sensitivity_beq_iff : (p q : DataSensitivity) → (sensitivity_beq p q ≡ true) ↔ (p ≡ q)
sensitivity_beq_iff p q = ground arith

pub decision_beq_iff : (p q : RiskDecision) → (decision_beq p q ≡ true) ↔ (p ≡ q)
decision_beq_iff p q = ground arith

-- The tag has an inverse, which is quicker than all pairs of codes.
abbrev reason_at : ℕ → ReasonCode
reason_at n =
    if nat_beq n 0
    then target_suspended
    else if nat_beq n 1
    then target_not_active
    else if nat_beq n 2
    then high_risk_permission_out_of_scope
    else if nat_beq n 3
    then elevated_permission_requires_review
    else if nat_beq n 4
    then restricted_data_out_of_scope
    else if nat_beq n 5
    then non_public_data_requires_review
    else if nat_beq n 6
    then provider_unverified
    else if nat_beq n 7
    then authentication_required
    else if nat_beq n 8
    then recent_security_failure
    else if nat_beq n 9
    then recent_verification_failure
    else if nat_beq n 10
    then evidence_incomplete
    else if nat_beq n 11
    then evidence_stale
    else if nat_beq n 12
    then trust_signal_below_allow_threshold
    else if nat_beq n 13
    then limited_observed_usage
    else if nat_beq n 14
    then unattended_higher_assurance_required
    else low_risk_preflight_passed

reason_at-reason_tag : (r : ReasonCode) → reason_at (reason_tag r) ≡ r
reason_at-reason_tag target_suspended = refl
reason_at-reason_tag _ = refl

pub reason_beq_iff : (p q : ReasonCode) → (reason_beq p q ≡ true) ↔ (p ≡ q)
reason_beq_iff p q = (
  λ h. sym (reason_at-reason_tag p) ∙ ap reason_at ((nat_beq_iff _ _).0 h) ∙ reason_at-reason_tag q,
  λ e. (nat_beq_iff _ _).1 (ap reason_tag e),
)

instance abbrev pub permission_eq : StrictEq Permission
permission_eq = record { same = permission_beq; same_iff = permission_beq_iff }

instance abbrev pub sensitivity_eq : StrictEq DataSensitivity
sensitivity_eq = record { same = sensitivity_beq; same_iff = sensitivity_beq_iff }

instance abbrev pub decision_eq : StrictEq RiskDecision
decision_eq = record { same = decision_beq; same_iff = decision_beq_iff }

instance abbrev pub reason_eq : StrictEq ReasonCode
reason_eq = record { same = reason_beq; same_iff = reason_beq_iff }

pub record RiskFactor : Type 0 where
  pub code : ReasonCode
  pub severity : Severity

pub record RiskEvidence : Type 0 where
  pub kind : EvidenceKind
  pub status : EvidenceStatus
  pub observed_at : Option ℕ

pub record EvaluateToolRiskRequest : Type 0 where
  pub target : String
  pub action : RiskAction
  pub data_sensitivity : DataSensitivity
  pub execution_mode : ExecutionMode
  pub permissions : List Permission

-- The local variables `reasonCodes`, `riskFactors` and `decision`.
pub record Assessment : Type 0 where
  pub reason_codes : List ReasonCode
  pub risk_factors : List RiskFactor
  pub decision : RiskDecision

unfoldable pub add_risk : ReasonCode → Severity → RiskDecision → Assessment → Assessment
add_risk code severity required a = record {
  reason_codes = set_add code a.reason_codes;
  risk_factors = a.risk_factors ++ (record { code = code; severity = severity }) ∷ [];
  decision = if required == block || a.decision == allow then required else a.decision;
}

-- `if (test) addRisk(…)`
unfoldable pub add_risk_if : Bool → ReasonCode → Severity → RiskDecision → Assessment → Assessment
unfolding add_risk
add_risk_if test code severity required a = if test then add_risk code severity required a else a

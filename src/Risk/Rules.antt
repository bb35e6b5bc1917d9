-- ===== src/Risk/Rules.antt =====
-- What each rule of the preflight does to the decision.
use directory.Common.{
  ℕ, ◌≤◌, ◌≡◌, ◌↔◌, ◌⊎◌, Bool, true, false, not, Option, List, [], ◌∷◌, arith, any, is_empty-filter,
  ◌==◌,
}
use directory.Types.{ToolStatus, AuthRequirement, tls_security, check_type_eq}
use directory.Types.Records.{VerificationCheckRecord, TrustProfile}
use directory.Risk.Terms.{
  Permission, DataSensitivity, public, restricted, ExecutionMode, supervised, allow, block,
  Assessment, reason_eq, public_network, permission_eq,
}
use directory.Risk.Decide.{
  target_risk, permission_risks, sensitivity_risk, provider_risks, failure_risk, evidence_risks,
  overall, trust_risk, usage_reason, unattended_risk, passed_reason, is_unsupported, is_elevated,
}

abbrev pub Allows : Assessment → Type 0
Allows a = a.decision ≡ allow

abbrev pub Blocks : Assessment → Type 0
Blocks a = a.decision ≡ block

pub target_risk-allow :
    (s : ToolStatus) (a : Assessment)
    → Allows (target_risk s a) ↔ (Allows a × (s ≡ ToolStatus.active))
unfolding target_risk
target_risk-allow s a = ground arith

pub target_risk-block :
    (s : ToolStatus) (a : Assessment)
    → Blocks (target_risk s a) ↔ (Blocks a ⊎ (s ≡ ToolStatus.suspended) ⊎ (s ≡ ToolStatus.pending))
unfolding target_risk
target_risk-block s a = ground arith

pub permission_risks-allow :
    (p : List Permission) (a : Assessment)
    → Allows (permission_risks p a)
      ↔ (Allows a × (any is_unsupported p ≡ false) × (any is_elevated p ≡ false))
unfolding permission_risks
permission_risks-allow p a =
    ground (arith, is_empty-filter is_unsupported p, is_empty-filter is_elevated p)

pub permission_risks-block :
    (p : List Permission) (a : Assessment)
    → Blocks (permission_risks p a) ↔ (Blocks a ⊎ (any is_unsupported p ≡ true))
unfolding permission_risks
permission_risks-block p a =
    ground (arith, is_empty-filter is_unsupported p, is_empty-filter is_elevated p)

pub sensitivity_risk-allow :
    (d : DataSensitivity) (a : Assessment)
    → Allows (sensitivity_risk d a) ↔ (Allows a × (d ≡ public))
unfolding sensitivity_risk
sensitivity_risk-allow d a = ground arith

pub sensitivity_risk-block :
    (d : DataSensitivity) (a : Assessment)
    → Blocks (sensitivity_risk d a) ↔ (Blocks a ⊎ (d ≡ restricted))
unfolding sensitivity_risk
sensitivity_risk-block d a = ground arith

pub provider_risks-allow :
    (v : Bool) (req : AuthRequirement) (a : Assessment)
    → Allows (provider_risks v req a) ↔ (Allows a × (v ≡ true) × (req ≡ AuthRequirement.no_auth))
unfolding provider_risks
provider_risks-allow v req a = ground arith

pub provider_risks-block :
    (v : Bool) (req : AuthRequirement) (a : Assessment) → Blocks (provider_risks v req a) ↔ Blocks a
unfolding provider_risks
provider_risks-block v req a = ground arith

abbrev has_tls : List VerificationCheckRecord → Bool
has_tls l = any (λ (c : VerificationCheckRecord). c.check_type == tls_security) l

pub failure_risk-allow :
    (l : List VerificationCheckRecord) (a : Assessment)
    → Allows (failure_risk l a) ↔ (Allows a × (l ≡ []))
unfolding failure_risk
failure_risk-allow [] a = ground arith
failure_risk-allow (c ∷ l) a = ground arith

pub failure_risk-block :
    (l : List VerificationCheckRecord) (a : Assessment)
    → Blocks (failure_risk l a) ↔ (Blocks a ⊎ (has_tls l ≡ true))
unfolding failure_risk
failure_risk-block [] a = ground arith
failure_risk-block (c ∷ l) a = ground arith

pub evidence_risks-allow :
    (m s : Bool) (a : Assessment)
    → Allows (evidence_risks m s a) ↔ (Allows a × (m ≡ false) × (s ≡ false))
unfolding evidence_risks
evidence_risks-allow m s a = ground arith

pub evidence_risks-block : (m s : Bool) (a : Assessment) → Blocks (evidence_risks m s a) ↔ Blocks a
unfolding evidence_risks
evidence_risks-block m s a = ground arith

pub trust_risk-allow :
    (t : Option TrustProfile) (a : Assessment)
    → Allows (trust_risk t a) ↔ (Allows a × (7000 ≤ overall t))
unfolding trust_risk
trust_risk-allow t a = ground arith

pub trust_risk-block :
    (t : Option TrustProfile) (a : Assessment) → Blocks (trust_risk t a) ↔ Blocks a
unfolding trust_risk
trust_risk-block t a = ground arith

pub usage_reason-decision : (n : ℕ) (a : Assessment) → (usage_reason n a).decision ≡ a.decision
unfolding usage_reason
usage_reason-decision n a = ground arith

pub passed_reason-decision : (a : Assessment) → (passed_reason a).decision ≡ a.decision
unfolding passed_reason
passed_reason-decision a = ground arith

-- More than the public network is asked for.
abbrev pub is_broad : List Permission → Bool
is_broad p = any (λ q. not (q == public_network)) p

pub unattended_risk-allow :
    (m : ExecutionMode) (p : List Permission) (d : DataSensitivity) (a : Assessment)
    → Allows (unattended_risk m p d a)
      ↔ (Allows a × ((m ≡ supervised) ⊎ (is_broad p ≡ false) × (d ≡ public)))
unfolding unattended_risk
unattended_risk-allow m p d a = ground arith

pub unattended_risk-block :
    (m : ExecutionMode) (p : List Permission) (d : DataSensitivity) (a : Assessment)
    → Blocks (unattended_risk m p d a) ↔ Blocks a
unfolding unattended_risk
unattended_risk-block m p d a = ground arith

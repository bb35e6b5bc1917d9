-- ===== src/Risk/Evaluate.antt =====
-- `evaluateToolRisk`, `getRiskEvaluationReceipt` and `reportRiskEvaluationOutcome` of
-- src/domain/risk-evaluation.ts, over the store and the receipts. Hashing and randomness are
-- arguments: `id` is `randomUUID()`, `token_hash` the hash of the token that is handed out.
use directory.Common.{
  ℕ, ◌+◌, String, Bool, true, false, not, ◌&&◌, ◌||◌, Option, none, some, List, [], ◌∷◌, ◌++◌, leb,
  if◌then◌else◌, ◌==◌, nat_eq, is_empty, unique, Text, codes,
}
use mathlib.Core.Option
use directory.Types.Records.{MemoryTool, VerificationCheckRecord, TrustProfile}
use directory.Store.{Store, get_tool_by_id, get_tool_by_slug}
use directory.Store.Evidence.{list_verification_checks}
use directory.Trust.{refresh_trust_for_tool}
use directory.Receipts.{Reported, record_evaluation, get_evaluation, record_outcome}
use directory.Risk.Terms.{
  Unknown, stale_checks, limited_history, EvaluateToolRiskRequest, permission_eq,
}
use directory.Risk.Evidence.{
  latest_checks, required_checks, missing_checks, evidence_of, evidence_coverage, confidence_of,
}
use directory.Risk.Records.{
  risk_receipt_ttl_ms, RiskEvaluationRecord, RiskReceipt, EvaluationOutcomeRequest,
  is_valid_outcome, next_action_of,
}
use directory.Risk.Decide.{Facts, assess, stale_checks_of}

abbrev is_hex : ℕ → Bool
is_hex c = (leb b'0' c && leb c b'9') || (leb b'a' c && leb c b'f') || (leb b'A' c && leb c b'F')

abbrev is_dash : ℕ → Bool
is_dash c = c == b'-'

abbrev is_version : ℕ → Bool
is_version c = leb b'1' c && leb c b'5'

abbrev is_variant : ℕ → Bool
is_variant c = c == b'8' || c == b'9' || c == b'a' || c == b'b' || c == b'A' || c == b'B'

abbrev fits : List (ℕ → Bool) → Text → Bool
fits [] [] = true
fits [] (c ∷ s) = false
fits (p ∷ ps) [] = false
fits (p ∷ ps) (c ∷ s) = p c && fits ps s

abbrev hex4 : List (ℕ → Bool)
hex4 = is_hex ∷ is_hex ∷ is_hex ∷ is_hex ∷ []

unfoldable pub is_uuid : Text → Bool
is_uuid s =
    fits
      (hex4
        ++ hex4
        ++ is_dash
          ∷ (hex4
              ++ is_dash
                ∷ is_version
                ∷ is_hex
                ∷ is_hex
                ∷ is_hex
                ∷ is_dash
                ∷ is_variant
                ∷ is_hex
                ∷ is_hex
                ∷ is_hex
                ∷ is_dash
                ∷ (hex4 ++ hex4 ++ hex4)))
      s

unfoldable pub resolve_any_catalog_tool : ℕ → Store → String → Option MemoryTool
unfolding is_uuid
resolve_any_catalog_tool now s target =
    if is_uuid (codes target)
    then get_tool_by_id now s target
    else get_tool_by_slug now s (codes target)

-- The unknowns come from the missing checks, the stale ones and a short history, in this order, and
-- no two of them are equal, so that the source's `Set` drops none.
unfoldable pub unknowns_of : MemoryTool → List VerificationCheckRecord → ℕ → List Unknown
unknowns_of tool latest now =
    missing_checks latest (required_checks tool.protocol)
    ++ (if is_empty (stale_checks_of latest now) then [] else stale_checks ∷ [])
    ++ (if leb 3 tool.usage.invocations_7d then [] else limited_history ∷ [])

unfoldable pub facts_of :
    EvaluateToolRiskRequest
    → MemoryTool
    → List VerificationCheckRecord
    → Option TrustProfile
    → ℕ
    → Facts
facts_of input tool checks refreshed now = record {
  tool = tool;
  permissions = unique input.permissions;
  data_sensitivity = input.data_sensitivity;
  execution_mode = input.execution_mode;
  latest = latest_checks checks;
  missing = not (is_empty (missing_checks (latest_checks checks) (required_checks tool.protocol)));
  trust = elim refreshed [ none ↦ tool.trust | some p ↦ some p ];
  now = now;
}

unfoldable pub record_of : EvaluateToolRiskRequest → Facts → RiskEvaluationRecord
record_of input f =
    let a = assess f in
    let evidence = evidence_of f.tool f.latest f.now in
    record {
      target_tool_id = f.tool.id;
      target_slug = f.tool.slug;
      target_status = f.tool.status;
      action = input.action;
      data_sensitivity = f.data_sensitivity;
      execution_mode = f.execution_mode;
      permissions = f.permissions;
      decision = a.decision;
      confidence =
          confidence_of (evidence_coverage evidence) f.tool.provider.verified
            f.tool.usage.invocations_7d;
      evidence_coverage = evidence_coverage evidence;
      reason_codes = a.reason_codes;
      risk_factors = a.risk_factors;
      evidence = evidence;
      unknowns = unknowns_of f.tool f.latest f.now;
      next_action = next_action_of a.decision;
      created_at = f.now;
      expires_at = f.now + risk_receipt_ttl_ms;
    }

pub record Service : Type 0 where
  pub store : Store
  pub evaluations : List RiskReceipt

module _ (log10 : ℕ → ℕ) where
  -- All that follows the lookup of the target.
  unfoldable pub evaluate_target :
      ℕ → String → String → EvaluateToolRiskRequest → Service → MemoryTool → Service × RiskReceipt
  unfolding facts_of record_of
  evaluate_target now id token_hash input v tool =
      let (s', refreshed) = refresh_trust_for_tool log10 now v.store tool.id in
      let checks = list_verification_checks v.store tool.id 50 in
      let receipt : RiskReceipt = record {
        id = id;
        outcome_token_hash = token_hash;
        body = record_of input (facts_of input tool checks refreshed now);
        outcome = none;
        outcome_reported_at = none;
      } in
      (record { store = s'; evaluations = record_evaluation receipt v.evaluations }, receipt)

  -- `none` is `UnknownRiskTargetError`.
  unfoldable pub evaluate_tool_risk :
      ℕ → String → String → EvaluateToolRiskRequest → Service → Option (Service × RiskReceipt)
  unfolding resolve_any_catalog_tool evaluate_target
  evaluate_tool_risk now id token_hash input v =
      Option.map (evaluate_target now id token_hash input v)
        (resolve_any_catalog_tool now v.store input.target)

unfoldable pub get_risk_evaluation_receipt : Service → String → Option RiskReceipt
get_risk_evaluation_receipt v id = get_evaluation id v.evaluations

-- `none` is the error of `parse`.
unfoldable pub report_risk_evaluation_outcome :
    (Text → String) → ℕ → String → EvaluationOutcomeRequest → Service → Service × Option Reported
unfolding is_valid_outcome
report_risk_evaluation_outcome hash now id request v =
    if is_valid_outcome request
    then (let (l, found) =
          record_outcome id (hash request.outcome_token) request.outcome now v.evaluations in
        (record v { evaluations = l }, some found))
    else (v, none)

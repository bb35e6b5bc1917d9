-- ===== src/Risk/Service.antt =====
-- A preflight and its report, through the receipts that the service keeps.
use directory.Common.{ℕ, ◌≡◌, refl, subst, ap, String, true, none, some, Text}
use mathlib.Core.Option
use directory.Types.Records.{MemoryTool}
use directory.Receipts.{recorded, already_reported, record_evaluation, get_evaluation}
use directory.Receipts.Protocol.{record_evaluation-get, record_outcome_once}
use directory.Risk.Terms.{EvaluateToolRiskRequest}
use directory.Risk.Records.{RiskReceipt, EvaluationOutcomeRequest, is_valid_outcome}
use directory.Risk.Evaluate.{
  Service, evaluate_target, evaluate_tool_risk, get_risk_evaluation_receipt,
  report_risk_evaluation_outcome, resolve_any_catalog_tool,
}

evaluate_target-fields :
    (log10 : ℕ → ℕ) (now : ℕ) (id token_hash : String) (input : EvaluateToolRiskRequest)
    (v : Service) (t : MemoryTool)
    → let q = evaluate_target log10 now id token_hash input v t in
      (q.0.evaluations ≡ record_evaluation q.1 v.evaluations)
      × (q.1.id ≡ id)
      × (q.1.outcome_token_hash ≡ token_hash)
      × (q.1.outcome ≡ none)
unfolding evaluate_target
evaluate_target-fields log10 now id token_hash input v t = (refl, refl, refl, refl)

module _ (log10 : ℕ → ℕ) (now : ℕ) (id token_hash : String) (input : EvaluateToolRiskRequest)
    (v v' : Service) (r : RiskReceipt)
    (done : evaluate_tool_risk log10 now id token_hash input v ≡ some (v', r)) where
  evaluated :
      (v'.evaluations ≡ record_evaluation r v.evaluations)
      × (r.id ≡ id)
      × (r.outcome_token_hash ≡ token_hash)
      × (r.outcome ≡ none)
  unfolding evaluate_tool_risk
  evaluated =
      let (t, found, e) =
        (Option.map-eq-some_iff (evaluate_target log10 now id token_hash input v)
            (resolve_any_catalog_tool now v.store input.target)).0
          done in
      let (e₀, e₁, e₂, e₃) = evaluate_target-fields log10 now id token_hash input v t in
      let p : evaluate_target log10 now id token_hash input v t ≡ (v', r) = e in
      subst
        (λ (q : Service × RiskReceipt).
          (q.0.evaluations ≡ record_evaluation q.1 v.evaluations)
          × (q.1.id ≡ id)
          × (q.1.outcome_token_hash ≡ token_hash)
          × (q.1.outcome ≡ none))
        p (e₀, e₁, e₂, e₃)

  -- The receipt of a preflight can be read back under its id.
  pub evaluate_tool_risk-get : get_risk_evaluation_receipt v' id ≡ some r
  unfolding get_risk_evaluation_receipt
  evaluate_tool_risk-get =
      let (e, same, h, o) = evaluated in rw (e, ← same) (record_evaluation-get r v.evaluations)

  -- The token that was handed out with a receipt serves for one report: a valid request whose token
  -- has the stored hash is recorded, and the same request again is refused as already reported.
  pub evaluate_tool_risk-report :
      (hash : Text → String) (at at' : ℕ) (request : EvaluationOutcomeRequest)
      → is_valid_outcome request ≡ true
      → hash request.outcome_token ≡ token_hash
      → let first = report_risk_evaluation_outcome hash at id request v' in
        (first.1 ≡ some recorded)
        × ((report_risk_evaluation_outcome hash at' id request first.0).1 ≡ some already_reported)
  unfolding report_risk_evaluation_outcome
  evaluate_tool_risk-report hash at at' request valid token =
      let (e, same, h, o) = evaluated in
      let found : get_evaluation id v'.evaluations ≡ some r =
        rw (e, ← same) (record_evaluation-get r v.evaluations) in
      let (p, q) =
        record_outcome_once id (hash request.outcome_token) request.outcome request.outcome at at'
          v'.evaluations r found (rw (h, token) refl) (rw o refl) in
      rw valid (ap some p, ap some q)

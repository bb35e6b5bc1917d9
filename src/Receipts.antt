-- ===== src/Receipts.antt =====
-- The receipts of evaluations in src/domain/memory-store.ts: `recordRiskEvaluation`,
-- `getRiskEvaluation`, `recordRiskEvaluationOutcome`, and the same three methods for prediction
-- markets, which have the same text. `B` is the evaluation, `O` the outcome that is reported.
-- `structuredClone` copies, so a value that was read or stored is not shared.
pub mod Protocol
use directory.Common.{
  ℕ, String, Bool, not, ◌||◌, Option, none, some, List, [], ◌∷◌, if◌then◌else◌, ◌==◌, string_eq,
  is_some,
}
use directory.Store.{get, update}

pub record Receipt {ℓ κ} (B : Type ℓ) (O : Type κ) : Type (ℓ ⊔ κ) where
  pub id : String
  pub outcome_token_hash : String
  pub body : B
  pub outcome : Option O
  pub outcome_reported_at : Option ℕ

pub data Reported : Type 0 where
  recorded not_found already_reported : Reported

module _ {ℓ κ} {B : Type ℓ} {O : Type κ} where
  -- `map.set(id, …)` keeps the place of a key that is there.
  unfoldable pub record_evaluation : Receipt B O → List (Receipt B O) → List (Receipt B O)
  record_evaluation e [] = e ∷ []
  record_evaluation e (r ∷ l) = if r.id == e.id then e ∷ l else r ∷ record_evaluation e l

  unfoldable pub get_evaluation : String → List (Receipt B O) → Option (Receipt B O)
  unfolding get
  get_evaluation id l = get (λ (r : Receipt B O). r.id) id l

  unfoldable pub verdict : Option (Receipt B O) → String → Reported
  verdict none hash = not_found
  verdict (some r) hash =
      if not (r.outcome_token_hash == hash)
      then not_found
      else if is_some r.outcome
      then already_reported
      else recorded

  -- Only a recorded report writes.
  unfoldable pub write_outcome : Reported → String → O → ℕ → List (Receipt B O) → List (Receipt B O)
  unfolding update
  write_outcome recorded id outcome at l =
      update (λ (r : Receipt B O). r.id) id
        (λ q. record q { outcome = some outcome; outcome_reported_at = some at }) l
  write_outcome _ id outcome at l = l

  unfoldable pub record_outcome :
      String → String → O → ℕ → List (Receipt B O) → List (Receipt B O) × Reported
  unfolding write_outcome verdict
  record_outcome id hash outcome at l =
      let found = verdict (get_evaluation id l) hash in (write_outcome found id outcome at l, found)

-- ===== src/Store/Evidence.antt =====
-- Checks, endpoints and trust profiles of src/domain/memory-store.ts.
use directory.Common.{ℕ, String, Option, some, List, ◌∷◌, ◌==◌, string_eq, filter, take}
use directory.Types.{EndpointTransport}
use directory.Types.Records.{MemoryTool, VerificationCheckRecord, TrustProfile}
use directory.Store.{Store, tool_of_id, update_tool}
use mathlib.Core.Option

pub record Endpoint : Type 0 where
  pub id : String
  pub url : String
  pub transport : EndpointTransport

abbrev pub endpoint_of : MemoryTool → Endpoint
endpoint_of t = record { id = t.endpoint_id; url = t.endpoint_url; transport = t.transport }

unfoldable pub get_endpoint_for_tool : Store → String → Option Endpoint
get_endpoint_for_tool s tool_id = Option.map endpoint_of (tool_of_id tool_id s)

-- The newest check comes first.
unfoldable pub insert_verification_check : Store → VerificationCheckRecord → Store
insert_verification_check s check = record s { checks = check ∷ s.checks }

unfoldable pub list_verification_checks : Store → String → ℕ → List VerificationCheckRecord
list_verification_checks s tool_id limit =
    take limit (filter (λ (c : VerificationCheckRecord). c.tool_id == tool_id) s.checks)

unfoldable pub upsert_trust_profile : ℕ → Store → String → TrustProfile → Store
upsert_trust_profile now s tool_id profile =
    update_tool tool_id (λ t. record t { trust = some profile; updated_at = now }) s

-- ===== src/Store/Register/Refused.antt =====
-- What `ensureTool` of src/domain/memory-store.ts leaves behind when it refuses an update.
use directory.Common.{ℕ, ◌≡◌, String, none, some, text_eq, string_eq}
use directory.Types.{ToolStatus}
use directory.Types.Records.{
  MemoryTool, RegisterToolRequest, EnsureToolOptions, VerificationContract,
}
use directory.Store.{Store}

-- The tool `u` is `t` with what the request says, except for its transport and its provider.
pub record IsRefreshed (now : ℕ) (input : RegisterToolRequest) (options : EnsureToolOptions)
    (t u : MemoryTool) : Type 0 where
  pub description : u.description ≡ input.description
  pub capabilities : u.capabilities ≡ input.capabilities
  pub version : u.version ≡ input.version
  pub endpoint : u.endpoint ≡ input.endpoint
  pub endpoint_url : u.endpoint_url ≡ input.endpoint
  pub auth_requirement : u.auth_requirement ≡ input.authentication
  pub protocol : u.protocol ≡ input.protocol
  pub updated_at : u.updated_at ≡ now
  pub new_category : (c : String) → input.category ≡ some c → u.category ≡ some c
  pub old_category : input.category ≡ none → u.category ≡ t.category
  pub contract : (c : VerificationContract) → input.verification ≡ some c → u.verification ≡ some c
  pub no_contract : input.verification ≡ none → u.verification ≡ input.metadata_verification
  pub new_status : (st : ToolStatus) → options.status ≡ some st → u.status ≡ st
  pub old_status : options.status ≡ none → u.status ≡ t.status
  pub id : u.id ≡ t.id
  pub slug : u.slug ≡ t.slug
  pub name : u.name ≡ t.name
  pub transport : u.transport ≡ t.transport
  pub provider : u.provider ≡ t.provider
  pub trust : u.trust ≡ t.trust
  pub created_at : u.created_at ≡ t.created_at
  pub verify_lease_until : u.verify_lease_until ≡ t.verify_lease_until
  pub next_verify_at : u.next_verify_at ≡ t.next_verify_at
  pub verify_fail_count : u.verify_fail_count ≡ t.verify_fail_count
  pub verify_success_streak : u.verify_success_streak ≡ t.verify_success_streak

-- ===== src/Store/Register.antt =====
-- `registerTool`, `ensureTool` and `createTool` of src/domain/memory-store.ts.
-- The three calls of `randomUUID` are the argument `Ids`, the clock is `now`.
pub mod Laws
pub mod Refused
use directory.Common.{
  ℕ, String, Bool, true, false, Option, none, some, ◌∷◌, [], ◌++◌, if◌then◌else◌, is_some, or_else,
  Text,
}
use mathlib.Core.Option
use directory.Slug.{slugify}
use directory.Types.{ToolProtocol, ToolStatus, EndpointTransport, mcp_http, mcp_stdio, http}
use directory.Types.Records.{
  MemoryTool, ProviderRecord, ToolProvider, ProviderMetadata, RegisterToolRequest,
  EnsureToolOptions, OwnershipMethod, Usage, VerificationContract,
}
use directory.Store.{
  Store, StoreError, already_registered, stdio_not_accepted, Outcome, ok, throws, tool_of_slug,
  update_tool, provider_of_slug, update_provider, with_usage,
}

pub record Ids : Type 0 where
  pub tool : String
  pub endpoint : String
  pub provider : String

unfoldable pub transport_of : RegisterToolRequest → EndpointTransport
transport_of input = or_else input.transport (elim input.protocol [
  | ToolProtocol.mcp ↦ mcp_http
  | ToolProtocol.a2a ↦ EndpointTransport.a2a
  | _ ↦ http
])

-- `toolMetadata`, at the key that is read again: the contract of the request, else whatever its free
-- metadata holds under that key.
unfoldable pub tool_verification : RegisterToolRequest → Option VerificationContract
tool_verification input = elim input.verification [
  | none ↦ input.metadata_verification
  | some c ↦ some c
]

abbrev pub is_stdio : EndpointTransport → Bool
is_stdio mcp_stdio = true
is_stdio _ = false

abbrev pub provider_slug_of : RegisterToolRequest → Text
provider_slug_of input = or_else input.provider_slug (slugify input.provider_name)

abbrev pub no_metadata : ProviderMetadata
no_metadata = record {
  ownership_method = none;
  ownership_verified_at = none;
  ownership_challenge = none;
  api_key_hash = none;
}

-- `{ ...metadata, ownership_method: "first_party" }`
abbrev pub as_first_party : ProviderMetadata → ProviderMetadata
as_first_party m = record m { ownership_method = some OwnershipMethod.first_party }

-- The two places that set `provider.verified` from the options.
unfoldable pub mark_provider : Option Bool → ProviderRecord → ProviderRecord
mark_provider none p = p
mark_provider (some v) p = record p {
  verified = v;
  metadata = if v then as_first_party p.metadata else p.metadata;
}

new_provider : Ids → RegisterToolRequest → EnsureToolOptions → ProviderRecord
new_provider ids input options = record {
  id = ids.provider;
  slug = provider_slug_of input;
  name = input.provider_name;
  identity_type = input.identity_type;
  identity_value = input.identity_value;
  verified = or_else options.provider_verified false;
  metadata =
      if or_else options.provider_verified false then as_first_party no_metadata else no_metadata;
}

-- The provider of the new tool, found and marked or inserted.
unfoldable pub claim_provider :
    Ids → RegisterToolRequest → EnsureToolOptions → Store → Store × ProviderRecord
unfolding mark_provider new_provider
claim_provider ids input options s = elim (provider_of_slug (provider_slug_of input) s) [
  | none ↦
      let p = new_provider ids input options in (record s { providers = s.providers ++ p ∷ [] }, p)
  | some p ↦ (
    update_provider (provider_slug_of input) (mark_provider options.provider_verified) s,
    mark_provider options.provider_verified p,
  )
]

unfoldable pub new_tool :
    Ids → ℕ → RegisterToolRequest → EnsureToolOptions → ProviderRecord → MemoryTool
unfolding transport_of tool_verification
new_tool ids now input options provider = record {
  id = ids.tool;
  slug = slugify input.name;
  name = input.name;
  description = input.description;
  category = input.category;
  capabilities = input.capabilities;
  protocol = input.protocol;
  status = or_else options.status ToolStatus.pending;
  auth_requirement = input.authentication;
  version = input.version;
  endpoint = input.endpoint;
  verification = tool_verification input;
  provider = record {
    id = provider.id;
    slug = provider.slug;
    name = provider.name;
    verified = provider.verified;
  };
  trust = none;
  usage = record { invocations_7d = 0; success_rate_7d = none };
  created_at = now;
  updated_at = now;
  endpoint_id = ids.endpoint;
  endpoint_url = input.endpoint;
  transport = transport_of input;
  last_verified_at = none;
  next_verify_at = none;
  verify_lease_until = none;
  verify_fail_count = 0;
  verify_success_streak = 0;
}

-- The transport is tested before anything is written.
unfoldable pub create_tool :
    Ids → ℕ → RegisterToolRequest → EnsureToolOptions → Store → Store × Outcome MemoryTool
unfolding transport_of claim_provider new_tool
create_tool ids now input options s =
    if is_stdio (transport_of input)
    then (s, throws stdio_not_accepted)
    else let (s', provider) = claim_provider ids input options s in
      let tool = new_tool ids now input options provider in
      (record s' { tools = s'.tools ++ tool ∷ [] }, ok tool)

unfoldable pub register_tool : Ids → ℕ → RegisterToolRequest → Store → Store × Outcome MemoryTool
unfolding create_tool
register_tool ids now input s =
    if is_some (tool_of_slug (slugify input.name) s)
    then (s, throws already_registered)
    else create_tool ids now input
        (record { status = some ToolStatus.pending; provider_verified = none }) s

-- The writes of `ensureTool` that stand before its test of the transport.
unfoldable pub refresh_tool : ℕ → RegisterToolRequest → EnsureToolOptions → MemoryTool → MemoryTool
unfolding tool_verification
refresh_tool now input options t = record t {
  description = input.description;
  capabilities = input.capabilities;
  category = elim input.category [ none ↦ t.category | some c ↦ some c ];
  version = input.version;
  endpoint = input.endpoint;
  endpoint_url = input.endpoint;
  auth_requirement = input.authentication;
  protocol = input.protocol;
  verification = tool_verification input;
  status = or_else options.status t.status;
  updated_at = now;
}

-- The provider of the request is marked where it is known; its mark goes to this tool alone.
unfoldable pub mark_existing : RegisterToolRequest → EnsureToolOptions → String → Store → Store
unfolding mark_provider
mark_existing input options id s = elim (provider_of_slug (provider_slug_of input) s) [
  | none ↦ s
  | some p ↦ elim options.provider_verified [
    | none ↦ s
    | some v ↦
        update_tool id (λ t. record t { provider = record t.provider { verified = v } })
          (update_provider (provider_slug_of input) (mark_provider (some v)) s)
  ]
]

abbrev as_found : Outcome MemoryTool → Outcome (Option MemoryTool)
as_found (ok t) = ok (some t)
as_found (throws e) = throws e

unfoldable pub ensure_tool :
    Ids → ℕ → RegisterToolRequest → EnsureToolOptions → Store → Store × Outcome (Option MemoryTool)
unfolding create_tool refresh_tool mark_existing
ensure_tool ids now input options s = elim (tool_of_slug (slugify input.name) s) [
  | none ↦ let (s', r) = create_tool ids now input options s in (s', as_found r)
  | some t ↦
      let s₁ = update_tool t.id (refresh_tool now input options) s in
      if is_stdio (transport_of input)
      then (s₁, throws stdio_not_accepted)
      else let s₂ = update_tool t.id (λ u. record u { transport = transport_of input }) s₁ in
        let s₃ = mark_existing input options t.id s₂ in
        (s₃, ok (Option.map (with_usage now s₃) (tool_of_slug (slugify input.name) s₃)))
]

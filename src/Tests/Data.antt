-- ===== src/Tests/Data.antt =====
-- A catalog with one MCP tool of a verified provider, and what the network answers for it.
use directory.Common.{ℕ, String, true, Option, none, some, List, [], ◌∷◌, codes}
use directory.Types.{ToolProtocol, AuthRequirement, ToolStatus, CheckType, CheckStatus, mcp_http}
use directory.Types.Records.{
  MemoryTool, ProviderRecord, RegisterToolRequest, IdentityType, OwnershipMethod,
  VerificationCheckRecord, TrustProfile, ProbeMethod,
}
use directory.Store.{Store}
use directory.Store.Register.{Ids}
use directory.Verification.{Answers, Resolution, listed, resolved, responded}

abbrev pub ids : Ids
ids = record { tool = "t1"; endpoint = "e1"; provider = "p1" }

abbrev pub request : RegisterToolRequest
request = record {
  name = codes "Docs";
  description = "searches the docs";
  capabilities = "search" ∷ [];
  protocol = ToolProtocol.mcp;
  endpoint = "https://docs.example/mcp";
  category = none;
  version = "0.1.0";
  authentication = AuthRequirement.no_auth;
  transport = none;
  verification = none;
  metadata_verification = none;
  provider_name = codes "Example";
  provider_slug = none;
  identity_type = IdentityType.domain;
  identity_value = codes "https://example.org/x";
}

abbrev pub tool : MemoryTool
tool = record {
  id = "t1";
  slug = codes "docs";
  name = codes "Docs";
  description = "searches the docs";
  category = none;
  capabilities = "search" ∷ [];
  protocol = ToolProtocol.mcp;
  status = ToolStatus.pending;
  auth_requirement = AuthRequirement.no_auth;
  version = "0.1.0";
  endpoint = "https://docs.example/mcp";
  verification = none;
  provider = record { id = "p1"; slug = codes "example"; name = codes "Example"; verified = true };
  trust = none;
  usage = record { invocations_7d = 0; success_rate_7d = none };
  created_at = 100;
  updated_at = 100;
  endpoint_id = "e1";
  endpoint_url = "https://docs.example/mcp";
  transport = mcp_http;
  last_verified_at = none;
  next_verify_at = none;
  verify_lease_until = none;
  verify_fail_count = 0;
  verify_success_streak = 0;
}

abbrev pub provider : ProviderRecord
provider = record {
  id = "p1";
  slug = codes "example";
  name = codes "Example";
  identity_type = IdentityType.domain;
  identity_value = codes "https://example.org/x";
  verified = true;
  metadata = record {
    ownership_method = some OwnershipMethod.dns_txt;
    ownership_verified_at = none;
    ownership_challenge = none;
    api_key_hash = none;
  };
}

abbrev pub catalog : Store
catalog = record { providers = provider ∷ []; tools = tool ∷ []; checks = []; invocations = [] }

-- The server lists three tools, for every URL.
abbrev pub net : String → Option ProbeMethod → Answers
net url method = record {
  resolution = resolved true;
  session = listed 120 180 3;
  probe = responded 200 90;
}

-- The URL resolves to an address that is not public.
abbrev pub bad_net : String → Option ProbeMethod → Answers
bad_net url method = record {
  resolution = Resolution.rejected (codes "private address");
  session = listed 120 180 3;
  probe = responded 200 90;
}

abbrev pub fresh : ℕ → String
fresh n = "c"

abbrev pub no_log : ℕ → ℕ
no_log n = 0

abbrev pub check_of_type : CheckType → ℕ → VerificationCheckRecord
check_of_type type at = record {
  id = "c";
  tool_id = "t1";
  endpoint_id = some "e1";
  check_type = type;
  status = CheckStatus.pass;
  latency_ms = some 120;
  checked_at = some at;
}

abbrev pub all_checks : List VerificationCheckRecord
all_checks =
    check_of_type CheckType.endpoint_availability 900
    ∷ check_of_type CheckType.mcp_handshake 900
    ∷ check_of_type CheckType.tools_list 900
    ∷ check_of_type CheckType.schema_consistency 900
    ∷ check_of_type CheckType.tls_security 900
    ∷ []

abbrev pub good_trust : TrustProfile
good_trust = record {
  ownership_score = 9500;
  availability_score = 10000;
  compatibility_score = 10000;
  security_score = 10000;
  usage_score = 2000;
  overall_score = 9125;
}

-- ===== src/Types/Records.antt =====
-- The records of src/domain/types.ts, src/domain/store.ts and src/domain/memory-store.ts.
use directory.Common.{ℕ, String, Bool, Option, List, Text}
use directory.Types.{
  ToolProtocol, AuthRequirement, EndpointTransport, ToolStatus, CheckType, CheckStatus,
}

pub record TrustProfile : Type 0 where
  pub ownership_score : ℕ
  pub availability_score : ℕ
  pub compatibility_score : ℕ
  pub security_score : ℕ
  pub usage_score : ℕ
  pub overall_score : ℕ

pub data ProbeMethod : Type 0 where
  get head post : ProbeMethod

-- `expected_method` is always there in a contract that the schema has parsed, which gives "GET".
pub record VerificationContract : Type 0 where
  pub health_url : Option String
  pub verification_url : Option String
  pub expected_method : Option ProbeMethod

-- `checked_at` is `none` where the string is no date, so that `getTime()` is NaN.
pub record VerificationCheckRecord : Type 0 where
  pub id : String
  pub tool_id : String
  pub endpoint_id : Option String
  pub check_type : CheckType
  pub status : CheckStatus
  pub latency_ms : Option ℕ
  pub checked_at : Option ℕ

pub record InvocationEvent : Type 0 where
  pub tool_id : Option String
  pub success : Bool
  pub created_at : ℕ

pub data IdentityType : Type 0 where
  domain github did email other : IdentityType

-- What a challenge asks to publish, and where: a TXT record of a domain, by its name and value, or a
-- text in the bio of a GitHub login.
pub data ChallengeMethod : Type 0 where
  dns_txt : (domain record_name record_value : Text) → ChallengeMethod
  github_bio : (login : Text) → ChallengeMethod

pub record OwnershipChallenge : Type 0 where
  pub method : ChallengeMethod
  pub token : Text
  pub created_at : ℕ
  pub expires_at : ℕ
  pub completed_at : Option ℕ

pub data OwnershipMethod : Type 0 where
  first_party dns_txt github_bio generic : OwnershipMethod

pub record ProviderMetadata : Type 0 where
  pub ownership_method : Option OwnershipMethod
  pub ownership_verified_at : Option ℕ
  pub ownership_challenge : Option OwnershipChallenge
  pub api_key_hash : Option String

pub record ProviderRecord : Type 0 where
  pub id : String
  pub slug : Text
  pub name : Text
  pub identity_type : IdentityType
  pub identity_value : Text
  pub verified : Bool
  pub metadata : ProviderMetadata

-- The copy of its provider that a tool carries.
pub record ToolProvider : Type 0 where
  pub id : String
  pub slug : Text
  pub name : Text
  pub verified : Bool

-- `success_rate_7d` in ten-thousandths.
pub record Usage : Type 0 where
  pub invocations_7d : ℕ
  pub success_rate_7d : Option ℕ

pub record MemoryTool : Type 0 where
  pub id : String
  pub slug : Text
  pub name : Text
  pub description : String
  pub category : Option String
  pub capabilities : List String
  pub protocol : ToolProtocol
  pub status : ToolStatus
  pub auth_requirement : AuthRequirement
  pub version : String
  pub endpoint : String
  pub verification : Option VerificationContract
  pub provider : ToolProvider
  pub trust : Option TrustProfile
  pub usage : Usage
  pub created_at : ℕ
  pub updated_at : ℕ
  pub endpoint_id : String
  pub endpoint_url : String
  pub transport : EndpointTransport
  pub last_verified_at : Option ℕ
  pub next_verify_at : Option ℕ
  pub verify_lease_until : Option ℕ
  pub verify_fail_count : ℕ
  pub verify_success_streak : ℕ

-- The fields of a registration that the store reads; `metadata_verification` is what stands under
-- the key `verification` of its free `metadata`, which no schema checks.
pub record RegisterToolRequest : Type 0 where
  pub name : Text
  pub description : String
  pub capabilities : List String
  pub protocol : ToolProtocol
  pub endpoint : String
  pub category : Option String
  pub version : String
  pub authentication : AuthRequirement
  pub transport : Option EndpointTransport
  pub verification : Option VerificationContract
  pub metadata_verification : Option VerificationContract
  pub provider_name : Text
  pub provider_slug : Option Text
  pub identity_type : IdentityType
  pub identity_value : Text

pub record EnsureToolOptions : Type 0 where
  pub status : Option ToolStatus
  pub provider_verified : Option Bool

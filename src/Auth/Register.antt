-- ===== src/Auth/Register.antt =====
-- The handler of POST /v1/tools in src/domain/http/v1-routes.ts, on a body that its schema accepts.
-- `issued` is the hash of the key that `generateApiKey` makes.
use directory.Common.{ℕ, String, Bool, true, false, Option, none, some, Text, text_eq}
use directory.Types.Records.{ProviderRecord, ProviderMetadata, RegisterToolRequest, MemoryTool}
use directory.Slug.{slugify}
use directory.Store.{
  Store, Outcome, ok, throws, StoreError, already_registered, stdio_not_accepted,
  get_provider_by_slug,
}
use directory.Store.Register.{Ids, register_tool, provider_slug_of, no_metadata}
use directory.Store.Providers.{set_provider_metadata}
use directory.Auth.{
  RegistryAuth, provider, Access, granted, unauthorized, forbidden, AppConfig,
  resolve_registry_auth, require_write_auth, assert_provider_access, assert_can_register_tool_slug,
  assert_can_register_provider_slug,
}

-- The status of the reply; `created` says whether a new key was issued.
pub data Reply : Type 0 where
  created : (with_key : Bool) → Reply
  denied : Access → Reply
  conflict bad_request : Reply

abbrev pub is_created : Reply → Bool
is_created (created k) = true
is_created _ = false

abbrev pub reply_of : StoreError → Reply
reply_of already_registered = conflict
reply_of stdio_not_accepted = bad_request

abbrev metadata_of : Option ProviderRecord → ProviderMetadata
metadata_of none = no_metadata
metadata_of (some p) = p.metadata

-- The new provider's key is stored with what the registration left of its metadata.
unfoldable pub keep_key : Bool → Text → String → Store → Store
keep_key false slug issued s = s
keep_key true slug issued s =
    (set_provider_metadata s slug
      (record (metadata_of (get_provider_by_slug s slug)) { api_key_hash = some issued })).0

unfoldable pub saved : Bool → Text → String → Store × Outcome MemoryTool → Store × Reply
unfolding keep_key
saved with_key slug issued (s, ok t) = (keep_key with_key slug issued s, created with_key)
saved with_key slug issued (s, throws e) = (s, reply_of e)

unfoldable pub save_tool : Ids → ℕ → RegisterToolRequest → Bool → String → Store → Store × Reply
unfolding register_tool saved
save_tool ids now body with_key issued s =
    saved with_key (provider_slug_of body) issued (register_tool ids now body s)

-- May the caller register under this provider? A provider that is not stored may be made by anybody
-- but the holder of another provider's key.
unfoldable pub provider_access : RegistryAuth → Text → Option ProviderRecord → Access
unfolding assert_provider_access assert_can_register_provider_slug
provider_access auth slug (some existing) = assert_provider_access auth slug
provider_access (provider p) slug none = forbidden
provider_access auth slug none = assert_can_register_provider_slug slug

abbrev pub is_new : Option ProviderRecord → Bool
is_new none = true
is_new (some p) = false

unfoldable pub post_as :
    RegistryAuth → Ids → ℕ → RegisterToolRequest → String → Store → Store × Reply
unfolding save_tool provider_access assert_can_register_tool_slug
post_as auth ids now body issued s =
    let slug = provider_slug_of body in
    let existing = get_provider_by_slug s slug in
    elim (assert_can_register_tool_slug (slugify body.name)) [
      | granted ↦ elim (provider_access auth slug existing) [
        | granted ↦ save_tool ids now body (is_new existing) issued s
        | unauthorized ↦ (s, denied unauthorized)
        | forbidden ↦ (s, denied forbidden)
      ]
      | unauthorized ↦ (s, denied unauthorized)
      | forbidden ↦ (s, denied forbidden)
    ]

-- What `requireWriteAuth` returns is dropped: the checks that follow read `auth`.
unfoldable pub post_tool :
    (Text → String)
    → AppConfig
    → Option Text
    → Ids
    → ℕ
    → RegisterToolRequest
    → String
    → Store
    → Store × Reply
unfolding post_as resolve_registry_auth require_write_auth
post_tool hash config header ids now body issued s =
    let auth = resolve_registry_auth hash header s config in
    elim (require_write_auth auth config) [
      | none ↦ (s, denied unauthorized)
      | some a ↦ post_as auth ids now body issued s
    ]

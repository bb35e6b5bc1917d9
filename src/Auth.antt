-- ===== src/Auth.antt =====
-- src/domain/auth.ts: who may write to the registry. The hash of an API key is an argument.
pub mod Register
pub mod Routes
pub mod RouteLaws
pub mod Laws
use directory.Common.{
  ℕ, ◌+◌, zero, suc, String, Bool, true, false, not, ◌&&◌, ◌||◌, Option, none, some, List, [], ◌∷◌,
  leb, if◌then◌else◌, ◌==◌, nat_eq, text_eq, Text, codes, any, map, includes, is_empty, starts_with,
}
use directory.Types.Records.{ProviderRecord}
use directory.Slug.{to_lower_case}
use directory.Store.{Store}
use directory.Store.Providers.{get_provider_by_api_key_hash}
use directory.Search.{is_space, trim, trim_start}
use directory.Ownership.Identity.{is_line_end, drop}

abbrev pub reserved_tool_slugs : List Text
reserved_tool_slugs =
    codes "verify_web"
    ∷ codes "understand_webpage"
    ∷ codes "404_mcp"
    ∷ codes "search_tools"
    ∷ codes "get_tool"
    ∷ codes "compare_tools"
    ∷ codes "get_trust_score"
    ∷ codes "recommend_tools"
    ∷ codes "list_capabilities"
    ∷ codes "get_capability_graph"
    ∷ []

abbrev pub reserved_provider_slugs : List Text
reserved_provider_slugs = codes "404-directory" ∷ codes "404" ∷ []

-- The kind "none" is `anonymous`. `open_access` is what `requireWriteAuth` makes of it when writes
-- need no authentication.
pub data RegistryAuth : Type 0 where
  admin anonymous open_access : RegistryAuth
  provider : ProviderRecord → RegistryAuth

-- `AuthError` is `unauthorized`, `ForbiddenError` is `forbidden`.
pub data Access : Type 0 where
  granted unauthorized forbidden : Access

pub record AppConfig : Type 0 where
  pub registry_require_auth : Bool
  pub registry_admin_token : Option Text

abbrev fold_ascii_case : Text → Text
fold_ascii_case s = map (λ c. if leb b'A' c && leb c b'Z' then c + 32 else c) s

-- What follows the scheme: blanks, then the token on one line.
unfoldable pub token_after_scheme : Text → Option Text
unfolding trim trim_start
token_after_scheme [] = none
token_after_scheme (c ∷ s) =
    let token = trim (trim_start s) in
    if is_space c && not (any is_line_end (trim_start s)) && not (is_empty token)
    then some token
    else none

-- `/^Bearer\s+(.+)$/i`
unfoldable pub extract_bearer_token : Option Text → Option Text
unfolding token_after_scheme trim drop
extract_bearer_token none = none
extract_bearer_token (some header) =
    if starts_with (fold_ascii_case (trim header)) (codes "bearer")
    then token_after_scheme (drop 6 (trim header))
    else none

abbrev pub is_admin_token : Option Text → Text → Bool
is_admin_token none token = false
is_admin_token (some admin_token) token = not (is_empty admin_token) && token == admin_token

abbrev pub as_provider : Option ProviderRecord → RegistryAuth
as_provider none = anonymous
as_provider (some p) = provider p

module _ (hash_api_key : Text → String) where
  unfoldable pub auth_of_token : Store → AppConfig → Option Text → RegistryAuth
  unfolding get_provider_by_api_key_hash
  auth_of_token s config none = anonymous
  auth_of_token s config (some token) =
      if is_admin_token config.registry_admin_token token
      then admin
      else as_provider (get_provider_by_api_key_hash s (hash_api_key token))

  unfoldable pub resolve_registry_auth : Option Text → Store → AppConfig → RegistryAuth
  unfolding extract_bearer_token auth_of_token
  resolve_registry_auth header s config = auth_of_token s config (extract_bearer_token header)

-- `none` is the `AuthError`.
unfoldable pub require_write_auth : RegistryAuth → AppConfig → Option RegistryAuth
require_write_auth anonymous config =
    if config.registry_require_auth then none else some open_access
require_write_auth auth config = some auth

unfoldable pub assert_provider_access : RegistryAuth → Text → Access
assert_provider_access admin slug = granted
assert_provider_access open_access slug = granted
assert_provider_access anonymous slug = unauthorized
assert_provider_access (provider p) slug = if p.slug == slug then granted else forbidden

unfoldable pub assert_admin_access : RegistryAuth → Access
assert_admin_access admin = granted
assert_admin_access anonymous = unauthorized
assert_admin_access _ = forbidden

unfoldable pub assert_can_register_tool_slug : Text → Access
unfolding to_lower_case
assert_can_register_tool_slug slug =
    if includes reserved_tool_slugs (to_lower_case slug) then forbidden else granted

unfoldable pub assert_can_register_provider_slug : Text → Access
unfolding to_lower_case
assert_can_register_provider_slug slug =
    if includes reserved_provider_slugs (to_lower_case slug) then forbidden else granted

-- ===== src/Tests/Auth.antt =====
-- Registration over HTTP with and without credentials.
use directory.Common.{◌≡◌, ◌⊎◌, refl, true, false, none, some, Option, Text, codes, String, [], ◌∷◌}
use directory.Types.Records.{ProviderRecord}
use directory.Store.{empty, get_provider_by_slug, get, update}
use directory.Slug.{slugify}
use directory.Store.Register.{register_tool, provider_slug_of}
use directory.Auth.{
  AppConfig, unauthorized, extract_bearer_token, assert_can_register_tool_slug,
  assert_provider_access, assert_can_register_provider_slug, resolve_registry_auth, auth_of_token,
  require_write_auth, token_after_scheme,
}
use directory.Auth.Register.{
  created, denied, conflict, is_created, post_tool, post_as, save_tool, saved, keep_key,
  provider_access,
}
use directory.Auth.Laws.{HasCredential, post_tool_lem, post_tool-open}
use directory.Search.{trim, trim_start, trim_end}
use directory.Store.Providers.{get_provider_by_api_key_hash, set_provider_metadata}
use directory.Ownership.Identity.{drop}
use directory.Tests.Data.{ids, request, catalog}

abbrev pub hash : Text → String
hash token = "h"

abbrev pub closed : AppConfig
closed = record { registry_require_auth = true; registry_admin_token = some (codes "root-token") }

abbrev opened : AppConfig
opened = record closed { registry_require_auth = false }

abbrev pub root : Option Text
root = some (codes " bearer  root-token ")

-- What the handler computes through.
posting : Unit {0}
unfolding post_tool post_as save_tool saved keep_key provider_access extract_bearer_token
    assert_can_register_tool_slug assert_can_register_provider_slug assert_provider_access
    resolve_registry_auth auth_of_token require_write_auth trim trim_start trim_end
    get_provider_by_api_key_hash set_provider_metadata register_tool slugify get_provider_by_slug
    get update drop token_after_scheme
posting = tt

test_extract_bearer_token :
    (extract_bearer_token root ≡ some (codes "root-token"))
    × (extract_bearer_token (some (codes "Bearer")) ≡ none)
    × (extract_bearer_token (some (codes "Basic abc")) ≡ none)
unfolding posting
test_extract_bearer_token = (refl, refl, refl)

test_post_tool :
    ((post_tool hash closed root ids 100 request "k" empty).1 ≡ created true)
    × ((post_tool hash closed root ids 100 request "k" catalog).1 ≡ conflict)
    × (post_tool hash closed none ids 100 request "k" empty ≡ (empty, denied unauthorized))
    × ((post_tool hash opened none ids 100 request "k" empty).1 ≡ created true)
unfolding posting
test_post_tool = (refl, refl, refl, refl)

post_tool_lem_example :
    let r = post_tool hash closed root ids 100 request "k" empty in
    ((is_created r.1 ≡ false) × (r.0 ≡ empty))
    ⊎ ((is_created r.1 ≡ true) × HasCredential hash closed root empty (provider_slug_of request))
post_tool_lem_example = post_tool_lem hash closed empty root ids 100 request "k" refl

abbrev owner : ProviderRecord
owner = record {
  id = "p1";
  slug = codes "example";
  name = codes "Example";
  identity_type = request.identity_type;
  identity_value = request.identity_value;
  verified = true;
  metadata = record {
    ownership_method = none;
    ownership_verified_at = none;
    ownership_challenge = none;
    api_key_hash = some "h";
  };
}

post_tool-open_example :
    post_tool hash opened none ids 100 request "k" (record empty { providers = owner ∷ [] })
    ≡ (record empty { providers = owner ∷ [] }, denied unauthorized)
unfolding posting
post_tool-open_example =
    post_tool-open hash opened (record empty { providers = owner ∷ [] }) none ids 100 request "k"
      owner refl refl refl refl

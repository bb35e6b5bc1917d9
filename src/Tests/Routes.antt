-- ===== src/Tests/Routes.antt =====
-- The routes of a provider's ownership and of one tool, with and without credentials.
use directory.Common.{◌≡◌, ◌⊎◌, refl, true, none, some, codes}
use directory.Types.Records.{ProviderRecord, MemoryTool}
use directory.Store.{get_provider_by_slug, get, get_tool_by_slug, with_usage, update}
use directory.Store.Providers.{set_provider_metadata}
use directory.Ownership.{create_ownership_challenge}
use directory.Slug.{slugify}
use directory.Lifecycle.{is_discoverable_status}
use directory.Ownership.Verify.{Proves}
use directory.Auth.Laws.{HasCredential}
use directory.Auth.Routes.{sends, denies, not_found, post_ownership_verify, get_tool}
use directory.Auth.{unauthorized}
use directory.Auth.RouteLaws.{says_verified, post_ownership_verify-verified, get_tool-visible}
use directory.Tests.Data.{catalog, tool, no_log}
use directory.Tests.Search.{fold_ascii, is_alnum}
use directory.Tests.Auth.{hash, closed, root}
use directory.Tests.Ownership.{issued, dns}

test_routes :
    (says_verified
        (post_ownership_verify hash closed root fold_ascii is_alnum no_log dns 2000 issued
          (codes "Example")).1
      ≡ true)
    × (post_ownership_verify hash closed none fold_ascii is_alnum no_log dns 2000 issued
          (codes "Example")
        ≡ (issued, denies unauthorized))
    × (get_tool hash closed none 1000 catalog "docs" ≡ not_found)
unfolding post_ownership_verify get_tool get get_provider_by_slug slugify is_discoverable_status
    get_tool_by_slug create_ownership_challenge set_provider_metadata update
test_routes = (refl, refl, refl)

post_ownership_verify-verified_example :
    HasCredential hash closed root issued (codes "Example")
    × ((p : ProviderRecord) × (get_provider_by_slug issued (codes "Example") ≡ some p)
        × Proves dns 2000 p)
post_ownership_verify-verified_example =
    post_ownership_verify-verified hash closed root issued fold_ascii is_alnum no_log dns 2000
      (codes "Example") (test_routes.0)

abbrev shown : MemoryTool
shown = tool

seen : get_tool hash closed root 1000 catalog "docs" ≡ sends 200 (shown, true)
unfolding get_tool get slugify get_tool_by_slug is_discoverable_status with_usage
seen = refl

get_tool-visible_example :
    (is_discoverable_status shown.status ≡ true)
    ⊎ HasCredential hash closed root catalog shown.provider.slug
get_tool-visible_example = get_tool-visible hash closed root catalog 1000 "docs" 200 shown true seen

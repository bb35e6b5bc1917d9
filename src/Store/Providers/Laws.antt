-- ===== src/Store/Providers/Laws.antt =====
-- What a lookup finds after a write to a provider.
use directory.Common.{Bool, ◌≡◌, refl, sym, subst, some, Text, text_eq}
use directory.Types.Records.{ProviderRecord, ProviderMetadata}
use directory.Slug.{slugify}
use directory.Slug.Laws.{slugify_idempotent}
use directory.Store.{Store, get_provider_by_slug, get}
use directory.Store.Maps.{get-In, get-update_by}
use directory.Store.Providers.{set_provider_metadata, set_provider_verified, mark_verified}

abbrev slug_of : ProviderRecord → Text
slug_of p = p.slug

-- A lookup finds a provider by its own slug too.
slugify-slug :
    (s : Store) (slug : Text) (p : ProviderRecord)
    → get_provider_by_slug s slug ≡ some p
    → slugify p.slug ≡ slugify slug
unfolding get_provider_by_slug
slugify-slug s slug p h =
    let (i, e) = get-In slug_of (slugify slug) p s.providers h in rw e (slugify_idempotent slug)

pub get_provider_by_slug_of_slug :
    (s : Store) (slug : Text) (p : ProviderRecord)
    → get_provider_by_slug s slug ≡ some p
    → get_provider_by_slug s p.slug ≡ some p
unfolding get_provider_by_slug
get_provider_by_slug_of_slug s slug p h =
    subst (λ k. get slug_of k s.providers ≡ some p) (sym (slugify-slug s slug p h)) h

pub set_provider_verified-get :
    (s : Store) (slug : Text) (p : ProviderRecord) (v : Bool)
    (patch : ProviderMetadata → ProviderMetadata)
    → get_provider_by_slug s slug ≡ some p
    → get_provider_by_slug (set_provider_verified s p.slug v patch).0 slug
      ≡ some (mark_verified v patch p)
unfolding get_provider_by_slug set_provider_verified
set_provider_verified-get s slug p v patch h =
    rw (get_provider_by_slug_of_slug s slug p h, set_provider_verified)
      (get-update_by slug_of slug_of (slugify slug) p (mark_verified v patch) s.providers
        (λ q. refl) h)

pub set_provider_metadata-get :
    (s : Store) (slug : Text) (p : ProviderRecord) (m : ProviderMetadata)
    → get_provider_by_slug s slug ≡ some p
    → get_provider_by_slug (set_provider_metadata s p.slug m).0 slug
      ≡ some (record p { metadata = m })
unfolding get_provider_by_slug set_provider_metadata
set_provider_metadata-get s slug p m h =
    rw (get_provider_by_slug_of_slug s slug p h, set_provider_metadata)
      (get-update_by slug_of slug_of (slugify slug) p (λ q. record q { metadata = m }) s.providers
        (λ q. refl) h)

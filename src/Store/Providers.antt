-- ===== src/Store/Providers.antt =====
-- The provider methods of src/domain/memory-store.ts, and `setToolStatus`.
pub mod Laws
use directory.Common.{
  ℕ, String, Bool, false, Option, none, some, List, if◌then◌else◌, ◌==◌, string_eq, text_eq, Text,
  find, map,
}
use directory.Slug.{slugify}
use directory.Types.{ToolStatus}
use directory.Types.Records.{MemoryTool, ProviderRecord, ProviderMetadata}
use directory.Store.{Store, provider_of_slug, update_provider, update_tool}

abbrev is_key : String → Option String → Bool
is_key hash none = false
is_key hash (some h) = h == hash

unfoldable pub get_provider_by_api_key_hash : Store → String → Option ProviderRecord
get_provider_by_api_key_hash s hash =
    find (λ (p : ProviderRecord). is_key hash p.metadata.api_key_hash) s.providers

-- Every tool of the provider takes the new mark.
unfoldable pub mark_tools : Text → Bool → List MemoryTool → List MemoryTool
mark_tools slug v tools =
    map
      (λ (t : MemoryTool).
        if t.provider.slug == slug
        then record t { provider = record t.provider { verified = v } }
        else t)
      tools

abbrev pub mark_verified :
    Bool → (ProviderMetadata → ProviderMetadata) → ProviderRecord → ProviderRecord
mark_verified v patch p = record p { verified = v; metadata = patch p.metadata }

-- The patch is a function on the metadata; `{ ...metadata, ...patch }` overwrites fields.
unfoldable pub set_provider_verified :
    Store → Text → Bool → (ProviderMetadata → ProviderMetadata) → Store × Option ProviderRecord
unfolding mark_tools
set_provider_verified s slug v patch = elim (provider_of_slug (slugify slug) s) [
  | none ↦ (s, none)
  | some p ↦
      let s' = update_provider p.slug (mark_verified v patch) s in
      (record s' { tools = mark_tools p.slug v s'.tools }, some (mark_verified v patch p))
]

unfoldable pub set_provider_metadata :
    Store → Text → ProviderMetadata → Store × Option ProviderRecord
set_provider_metadata s slug metadata = elim (provider_of_slug (slugify slug) s) [
  | none ↦ (s, none)
  | some p ↦ (
    update_provider p.slug (λ q. record q { metadata = metadata }) s,
    some (record p { metadata = metadata }),
  )
]

unfoldable pub set_tool_status : ℕ → Store → String → ToolStatus → Store
set_tool_status now s tool_id status =
    update_tool tool_id (λ t. record t { status = status; updated_at = now }) s

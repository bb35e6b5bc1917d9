-- ===== src/Auth/Routes.antt =====
-- The routes of src/domain/http/v1-routes.ts for the ownership of a provider, and GET
-- /v1/tools/:idOrSlug. `hash` is the hash of an API key, `header` the header "authorization".
use directory.Common.{ℕ, String, Bool, true, false, Option, none, some, Text, if◌then◌else◌}
use directory.Types.Records.{MemoryTool, OwnershipChallenge}
use directory.Store.{Store}
use directory.Ownership.{
  Result, done, fails, unknown_provider, ChallengeOptions, VerifyResult, Lookups,
  create_ownership_challenge, verify_ownership_challenge,
}
use directory.Auth.{
  RegistryAuth, admin, Access, granted, unauthorized, AppConfig, resolve_registry_auth,
  require_write_auth, assert_provider_access,
}
use directory.Discovery.{get_catalog_tool}

-- The answer with its status, or the error.
pub data RouteReply (A : Type 0) : Type 0 where
  sends : (status : ℕ) → A → RouteReply A
  denies : Access → RouteReply A
  not_found bad_request : RouteReply A

abbrev pub is_admin : RegistryAuth → Bool
is_admin admin = true
is_admin _ = false

-- What the two ownership routes test before all else.
unfoldable pub write_access : RegistryAuth → AppConfig → Text → Access
unfolding require_write_auth assert_provider_access
write_access auth config slug = elim (require_write_auth auth config) [
  | none ↦ unauthorized
  | some a ↦ assert_provider_access auth slug
]

abbrev pub reply_of_result : {A : Type 0} → (A → ℕ) → Result A → RouteReply A
reply_of_result status (done a) = sends (status a) a
reply_of_result status (fails unknown_provider) = not_found
reply_of_result status (fails _) = bad_request

-- Runs the handler if access was granted.
unfoldable pub guarded : {A : Type 0} → Access → Store → Store × RouteReply A → Store × RouteReply A
guarded granted s handler = handler
guarded a s handler = (s, denies a)

abbrev pub with_reply : {A : Type 0} → (A → ℕ) → Store × Result A → Store × RouteReply A
with_reply status (s, r) = (s, reply_of_result status r)

abbrev pub shown_if : Access → MemoryTool → RouteReply (MemoryTool × Bool)
shown_if granted t = sends 200 (t, true)
shown_if _ t = not_found

-- A quarantined tool, for whoever may access its provider; anybody else is told that it is unknown.
abbrev pub quarantined : RegistryAuth → Option MemoryTool → RouteReply (MemoryTool × Bool)
quarantined auth none = not_found
quarantined auth (some t) = shown_if (assert_provider_access auth t.provider.slug) t

abbrev pub public_or :
    RouteReply (MemoryTool × Bool) → Option MemoryTool → RouteReply (MemoryTool × Bool)
public_or other none = other
public_or other (some t) = sends 200 (t, false)

abbrev pub verify_status : VerifyResult → ℕ
verify_status r = if r.verified then 200 else 400

module _ (hash : Text → String) (config : AppConfig) (header : Option Text) where
  -- `cooldown_ms` is OWNERSHIP_CHALLENGE_COOLDOWN_MS.
  unfoldable pub post_ownership_challenge :
      ℕ → ℕ → Text → Store → Text → Store × RouteReply OwnershipChallenge
  unfolding resolve_registry_auth write_access guarded create_ownership_challenge
  post_ownership_challenge cooldown_ms now token s slug =
      let auth = resolve_registry_auth hash header s config in
      let options : ChallengeOptions = record {
        cooldown_ms = cooldown_ms;
        force = is_admin auth;
      } in
      guarded (write_access auth config slug) s
        (with_reply (λ c. 200) (create_ownership_challenge now token s slug options))

  unfoldable pub post_ownership_verify :
      (Text → Text)
      → (ℕ → Bool)
      → (ℕ → ℕ)
      → Lookups
      → ℕ
      → Store
      → Text
      → Store × RouteReply VerifyResult
  unfolding resolve_registry_auth write_access guarded verify_ownership_challenge
  post_ownership_verify fold is_word_char log10 net now s slug =
      guarded (write_access (resolve_registry_auth hash header s config) config slug) s (
        with_reply verify_status
          (verify_ownership_challenge fold is_word_char log10 net now s slug))

  unfoldable pub get_tool : ℕ → Store → String → RouteReply (MemoryTool × Bool)
  unfolding get_catalog_tool resolve_registry_auth assert_provider_access
  get_tool now s id_or_slug =
      public_or
        (quarantined (resolve_registry_auth hash header s config)
          (get_catalog_tool now s true id_or_slug))
        (get_catalog_tool now s false id_or_slug)

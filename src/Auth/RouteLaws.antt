-- ===== src/Auth/RouteLaws.antt =====
-- Who can use the routes for the ownership of a provider, and who sees a tool in quarantine.
use directory.Common.{
  ℕ, String, ◌≡◌, ◌≢◌, ◌⊎◌, inl, inr, refl, sym, ◌∙◌, Bool, true, false, Option, none, some, Text,
  ◌==◌, text_eq, Bool-cases,
}
use directory.Types.Records.{MemoryTool, ProviderRecord}
use directory.Store.{Store, get_provider_by_slug}
use directory.Lifecycle.{is_discoverable_status}
use directory.Discovery.{get_catalog_tool, get_catalog_tool-public}
use directory.Ownership.{
  Result, done, fails, unknown_provider, VerifyResult, Lookups, verify_ownership_challenge,
}
use directory.Ownership.Verify.{is_verified, Proves, verify_ownership_challenge-verified_iff}
use directory.Auth.{
  RegistryAuth, admin, anonymous, open_access, provider, Access, granted, unauthorized, forbidden,
  AppConfig, resolve_registry_auth, require_write_auth, assert_provider_access,
}
use directory.Auth.Laws.{
  MayRegister, HasCredential, credential_of_MayRegister, resolve-ne-open, Access-cases,
}
use directory.Auth.Routes.{
  RouteReply, sends, denies, write_access, guarded, with_reply, post_ownership_challenge,
  post_ownership_verify, verify_status, shown_if, quarantined, public_or, get_tool,
}

access-MayRegister :
    (a : RegistryAuth) (slug : Text)
    → a ≢ open_access
    → assert_provider_access a slug ≡ granted
    → MayRegister a slug
unfolding assert_provider_access
access-MayRegister admin slug n h = inl refl
access-MayRegister anonymous slug n h = cc
access-MayRegister open_access slug n h = absurd (n refl)
access-MayRegister (provider p) slug n h = elim (Bool-cases (p.slug == slug)) [
  | inl e ↦ inr (p, refl, (text_eq.same_iff p.slug slug).0 e)
  | inr e ↦ let k : forbidden ≡ granted = rw e at h in cc
]

write_access-granted :
    (a : RegistryAuth) (config : AppConfig) (slug : Text)
    → write_access a config slug ≡ granted
    → assert_provider_access a slug ≡ granted
unfolding write_access require_write_auth
write_access-granted admin config slug h = h
write_access-granted open_access config slug h = h
write_access-granted (provider p) config slug h = h
write_access-granted anonymous config slug h = elim (Bool-cases config.registry_require_auth) [
  | inl e ↦ let k : unauthorized ≡ granted = rw e at h in cc
  | inr e ↦ rw e at h
]

-- The handler was not run: nothing is changed and an error is sent.
abbrev pub IsDenied : {A : Type 0} → Store → Store × RouteReply A → Type 0
IsDenied s r = (r.0 ≡ s) × ((r.1 ≡ denies unauthorized) ⊎ (r.1 ≡ denies forbidden))

guarded-cases :
    {A : Type 0} (a : Access) (s : Store) (handler : Store × RouteReply A)
    → IsDenied s (guarded a s handler) ⊎ ((a ≡ granted) × (guarded a s handler ≡ handler))
unfolding guarded
guarded-cases granted s handler = inr (refl, refl)
guarded-cases unauthorized s handler = inl (refl, inl refl)
guarded-cases forbidden s handler = inl (refl, inr refl)

-- Does the reply say that the provider is verified?
abbrev pub says_verified : RouteReply VerifyResult → Bool
says_verified (sends status r) = r.verified
says_verified _ = false

says_verified-result :
    (status : VerifyResult → ℕ) (r : Store × Result VerifyResult)
    → says_verified (with_reply status r).1 ≡ is_verified r.1
says_verified-result status (s, done r) = refl
says_verified-result status (s, fails unknown_provider) = refl
says_verified-result status (s, fails _) = refl

shown_if-granted :
    (a : Access) (u : MemoryTool) (status : ℕ) (t : MemoryTool) (q : Bool)
    → shown_if a u ≡ sends status (t, q)
    → (a ≡ granted) × (u ≡ t)
shown_if-granted granted u status t q h = (refl, cc)
shown_if-granted unauthorized u status t q h = cc
shown_if-granted forbidden u status t q h = cc

public_or-shown :
    (other : RouteReply (MemoryTool × Bool)) (o : Option MemoryTool) (status : ℕ) (t : MemoryTool)
    (q : Bool)
    → public_or other o ≡ sends status (t, q)
    → (o ≡ some t) ⊎ (other ≡ sends status (t, q))
public_or-shown other none status t q h = inr h
public_or-shown other (some u) status t q h = inl cc

module _ (hash : Text → String) (config : AppConfig) (header : Option Text) (s : Store) where
  granted-HasCredential :
      (slug : Text)
      → assert_provider_access (resolve_registry_auth hash header s config) slug ≡ granted
      → HasCredential hash config header s slug
  granted-HasCredential slug h = credential_of_MayRegister hash config s header slug (
      access-MayRegister (resolve_registry_auth hash header s config) slug
        (resolve-ne-open hash config s header) h)

  write-HasCredential :
      (slug : Text)
      → write_access (resolve_registry_auth hash header s config) config slug ≡ granted
      → HasCredential hash config header s slug
  write-HasCredential slug h =
      granted-HasCredential slug
        (write_access-granted (resolve_registry_auth hash header s config) config slug h)

  -- Whether writes need authentication or not, a request for a challenge or for its verification is
  -- denied and changes nothing, or it carries the administrator's token or the key of this provider.
  pub ownership_routes_lem :
      (cooldown_ms now : ℕ) (token slug : Text) (fold : Text → Text) (is_word_char : ℕ → Bool)
      (log10 : ℕ → ℕ) (net : Lookups)
      → (IsDenied s (post_ownership_challenge hash config header cooldown_ms now token s slug)
          × IsDenied s
              (post_ownership_verify hash config header fold is_word_char log10 net now s slug))
        ⊎ HasCredential hash config header s slug
  unfolding post_ownership_challenge post_ownership_verify guarded
  ownership_routes_lem cooldown_ms now token slug fold is_word_char log10 net =
      elim (Access-cases (write_access (resolve_registry_auth hash header s config) config slug)) [
        | inl g ↦ inr (write-HasCredential slug g)
        | inr (inl e) ↦ inl (rw (e, guarded) ((refl, inl refl), (refl, inl refl)))
        | inr (inr e) ↦ inl (rw (e, guarded) ((refl, inr refl), (refl, inr refl)))
      ]

  -- A request over HTTP is answered that the provider is verified only if it carries the
  -- administrator's token or the provider's key, and the text of the provider's current challenge is
  -- published.
  pub post_ownership_verify-verified :
      (fold : Text → Text) (is_word_char : ℕ → Bool) (log10 : ℕ → ℕ) (net : Lookups) (now : ℕ)
      (slug : Text)
      → says_verified
          (post_ownership_verify hash config header fold is_word_char log10 net now s slug).1
        ≡ true
      → HasCredential hash config header s slug
        × ((p : ProviderRecord) × (get_provider_by_slug s slug ≡ some p) × Proves net now p)
  unfolding post_ownership_verify
  post_ownership_verify-verified fold is_word_char log10 net now slug h =
      let r = verify_ownership_challenge fold is_word_char log10 net now s slug in
      let a = write_access (resolve_registry_auth hash header s config) config slug in
      elim (guarded-cases a s (with_reply verify_status r)) [
        | inl (e, inl d) ↦ let k : false ≡ true = rw d at h in cc
        | inl (e, inr d) ↦ let k : false ≡ true = rw d at h in cc
        | inr (g, e) ↦ (
          write-HasCredential slug g,
          (verify_ownership_challenge-verified_iff fold is_word_char log10 net now s slug).0
              (sym (says_verified-result verify_status r) ∙ rw e at h),
        )
      ]

  quarantined-HasCredential :
      (o : Option MemoryTool) (status : ℕ) (t : MemoryTool) (q : Bool)
      → quarantined (resolve_registry_auth hash header s config) o ≡ sends status (t, q)
      → HasCredential hash config header s t.provider.slug
  quarantined-HasCredential none status t q h = cc
  quarantined-HasCredential (some u) status t q h =
      let (g, same) =
        shown_if-granted
          (assert_provider_access (resolve_registry_auth hash header s config) u.provider.slug) u
          status t q h in
      rw (← same) (granted-HasCredential u.provider.slug g)

  -- GET /v1/tools/:idOrSlug shows a tool only if its status is discoverable, or the request carries
  -- the administrator's token or the key of the tool's provider.
  pub get_tool-visible :
      (now : ℕ) (id_or_slug : String) (status : ℕ) (t : MemoryTool) (q : Bool)
      → get_tool hash config header now s id_or_slug ≡ sends status (t, q)
      → (is_discoverable_status t.status ≡ true)
        ⊎ HasCredential hash config header s t.provider.slug
  unfolding get_tool
  get_tool-visible now id_or_slug status t q h =
      elim (public_or-shown _ (get_catalog_tool now s false id_or_slug) status t q h) [
        | inl e ↦ inl (get_catalog_tool-public now s id_or_slug t e)
        | inr e ↦
            inr (quarantined-HasCredential (get_catalog_tool now s true id_or_slug) status t q e)
      ]

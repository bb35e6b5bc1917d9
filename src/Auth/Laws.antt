-- ===== src/Auth/Laws.antt =====
-- Who can register a tool over HTTP.
use directory.Common.{
  ℕ, ◌≡◌, ◌≢◌, ◌⊎◌, inl, inr, refl, String, Bool, true, false, Option, none, some, Text, ◌==◌,
  text_eq, Option-cases, Bool-cases, subst, sym,
}
use directory.Types.Records.{ProviderRecord, RegisterToolRequest, MemoryTool}
use directory.Slug.{slugify}
use directory.Store.{Store, Outcome, ok, throws, get_provider_by_slug}
use directory.Store.Register.{Ids, register_tool, provider_slug_of}
use directory.Store.Register.Laws.{register_tool_lem}
use directory.Auth.{
  RegistryAuth, admin, anonymous, open_access, provider, Access, granted, unauthorized, forbidden,
  AppConfig, resolve_registry_auth, require_write_auth, assert_provider_access,
  assert_can_register_tool_slug,
}
use directory.Auth.{as_provider, auth_of_token, extract_bearer_token, is_admin_token}
use directory.Store.Providers.{get_provider_by_api_key_hash}
use directory.Auth.Register.{
  Reply, denied, is_created, saved, save_tool, provider_access, is_new, post_as, post_tool,
}

-- An administrator, or the holder of the key of the provider that the tool is registered under.
abbrev pub MayRegister : RegistryAuth → Text → Type 0
MayRegister auth slug =
    (auth ≡ admin) ⊎ ((p : ProviderRecord) × (auth ≡ provider p) × (p.slug ≡ slug))

abbrev Rejected : Store → Store × Reply → Type 0
Rejected s r = (is_created r.1 ≡ false) × (r.0 ≡ s)

saved-ok :
    (k : Bool) (slug : Text) (issued : String) (r : Store × Outcome MemoryTool) (t : MemoryTool)
    → r.1 ≡ ok t
    → is_created (saved k slug issued r).1 ≡ true
unfolding saved
saved-ok k slug issued (s, ok u) t h = refl
saved-ok k slug issued (s, throws e) t h = cc

save_tool_lem :
    (ids : Ids) (now : ℕ) (body : RegisterToolRequest) (k : Bool) (issued : String) (s : Store)
    → Rejected s (save_tool ids now body k issued s)
      ⊎ (is_created (save_tool ids now body k issued s).1 ≡ true)
unfolding save_tool saved
save_tool_lem ids now body k issued s = elim (register_tool_lem ids now body s) [
  | inl (t, e, q) ↦
      inl (subst (λ r. Rejected s (saved k (provider_slug_of body) issued r)) (sym q) (refl, refl))
  | inr (inl (e, b, q)) ↦
      inl (subst (λ r. Rejected s (saved k (provider_slug_of body) issued r)) (sym q) (refl, refl))
  | inr (inr (t, e, b, q, r₁, r₂, r₃, r₄)) ↦
      inr (saved-ok k (provider_slug_of body) issued (register_tool ids now body s) t q)
]

provider_access-granted :
    (auth : RegistryAuth) (slug : Text) (o : Option ProviderRecord)
    → auth ≢ anonymous
    → auth ≢ open_access
    → provider_access auth slug o ≡ granted
    → MayRegister auth slug
unfolding provider_access
provider_access-granted admin slug o a b h = inl refl
provider_access-granted anonymous slug o a b h = absurd (a refl)
provider_access-granted open_access slug o a b h = absurd (b refl)
provider_access-granted (provider p) slug none a b h = cc
provider_access-granted (provider p) slug (some q) a b h = elim (Bool-cases (p.slug == slug)) [
  | inl e ↦ inr (p, refl, (text_eq.same_iff p.slug slug).0 e)
  | inr e ↦ let k : forbidden ≡ granted = rw (e, assert_provider_access) at h in cc
]

pub Access-cases : (a : Access) → (a ≡ granted) ⊎ (a ≡ unauthorized) ⊎ (a ≡ forbidden)
Access-cases granted = inl refl
Access-cases unauthorized = inr (inl refl)
Access-cases forbidden = inr (inr refl)

module _ (auth : RegistryAuth) (ids : Ids) (now : ℕ) (body : RegisterToolRequest) (issued : String)
    (s : Store) where
  abbrev slug : Text
  slug = provider_slug_of body

  abbrev existing : Option ProviderRecord
  existing = get_provider_by_slug s slug

  post_as_lem :
      auth ≢ anonymous
      → auth ≢ open_access
      → Rejected s (post_as auth ids now body issued s)
        ⊎ ((is_created (post_as auth ids now body issued s).1 ≡ true) × MayRegister auth slug)
  unfolding post_as
  post_as_lem a b = elim (Access-cases (assert_can_register_tool_slug (slugify body.name))) [
    | inr (inl e) ↦ inl (rw (e, post_as) (refl, refl))
    | inr (inr e) ↦ inl (rw (e, post_as) (refl, refl))
    | inl e ↦ elim (Access-cases (provider_access auth slug existing)) [
      | inr (inl g) ↦ inl (rw (e, g, post_as) (refl, refl))
      | inr (inr g) ↦ inl (rw (e, g, post_as) (refl, refl))
      | inl g ↦ elim (save_tool_lem ids now body (is_new existing) issued s) [
        | inl r ↦ inl (rw (e, g, post_as) r)
        | inr c ↦ inr (rw (e, g, post_as) (c, provider_access-granted auth slug existing a b g))
      ]
    ]
  ]

-- The request carries a bearer token that is the administrator's, or whose hash is stored with the
-- provider of this slug.
abbrev pub HasCredential : (Text → String) → AppConfig → Option Text → Store → Text → Type 0
HasCredential hash config header s slug =
    (token : Text) × (extract_bearer_token header ≡ some token)
    × ((is_admin_token config.registry_admin_token token ≡ true)
        ⊎ ((p : ProviderRecord) × (get_provider_by_api_key_hash s (hash token) ≡ some p)
            × (p.slug ≡ slug)))

anonymous-MayRegister : (slug : Text) → MayRegister anonymous slug → ⊥
anonymous-MayRegister slug (inl q) = cc
anonymous-MayRegister slug (inr (p, q, r)) = cc

anonymous-cases : (a : RegistryAuth) → (a ≡ anonymous) ⊎ (a ≢ anonymous)
anonymous-cases anonymous = inl refl
anonymous-cases admin = inr (λ e. cc)
anonymous-cases open_access = inr (λ e. cc)
anonymous-cases (provider p) = inr (λ e. cc)

require_write_auth-known :
    (a : RegistryAuth) (config : AppConfig) → a ≢ anonymous → require_write_auth a config ≡ some a
unfolding require_write_auth
require_write_auth-known anonymous config n = absurd (n refl)
require_write_auth-known admin config n = refl
require_write_auth-known open_access config n = refl
require_write_auth-known (provider p) config n = refl

as_provider-ne-open : (o : Option ProviderRecord) → as_provider o ≢ open_access
as_provider-ne-open none h = cc
as_provider-ne-open (some p) h = cc

module _ (hash : Text → String) (config : AppConfig) (s : Store) where
  found-credential :
      (token slug : Text)
      → MayRegister (auth_of_token hash s config (some token)) slug
      → (is_admin_token config.registry_admin_token token ≡ true)
        ⊎ ((p : ProviderRecord) × (get_provider_by_api_key_hash s (hash token) ≡ some p)
            × (p.slug ≡ slug))
  unfolding auth_of_token
  found-credential token slug h =
      elim (Bool-cases (is_admin_token config.registry_admin_token token)) [
        | inl e ↦ inl e
        | inr e ↦ elim (Option-cases (get_provider_by_api_key_hash s (hash token))) [
          | inl g ↦
              let k : MayRegister anonymous slug = rw (e, g, auth_of_token) at h in
              elim (anonymous-MayRegister slug k) [ ]
          | inr (p, g) ↦
              elim (let k : MayRegister (provider p) slug = rw (e, g, auth_of_token) at h in k) [
                | inl q ↦ cc
                | inr (p', q, r) ↦
                    let w : p' ≡ p = cc in
                    inr (p, g, subst (λ (x : ProviderRecord). x.slug ≡ slug) w r)
              ]
        ]
      ]

  pub credential_of_MayRegister :
      (header : Option Text) (slug : Text)
      → MayRegister (resolve_registry_auth hash header s config) slug
      → HasCredential hash config header s slug
  unfolding resolve_registry_auth
  credential_of_MayRegister header slug h = elim (Option-cases (extract_bearer_token header)) [
    | inl e ↦
        let k : MayRegister anonymous slug = rw (e, resolve_registry_auth, auth_of_token) at h in
        elim (anonymous-MayRegister slug k) [ ]
    | inr (token, e) ↦ (token, e, found-credential token slug (rw (e, resolve_registry_auth) at h))
  ]

  pub resolve-ne-open :
      (header : Option Text) → resolve_registry_auth hash header s config ≢ open_access
  unfolding resolve_registry_auth auth_of_token
  resolve-ne-open header h = elim (Option-cases (extract_bearer_token header)) [
    | inl e ↦
        let k : anonymous ≡ open_access = rw (e, resolve_registry_auth, auth_of_token) at h in cc
    | inr (token, e) ↦ elim (Bool-cases (is_admin_token config.registry_admin_token token)) [
      | inl a ↦
          let k : admin ≡ open_access = rw (e, a, resolve_registry_auth, auth_of_token) at h in cc
      | inr a ↦
          as_provider-ne-open (get_provider_by_api_key_hash s (hash token))
            (rw (e, a, resolve_registry_auth, auth_of_token) at h)
    ]
  ]

  -- When writes need authentication, a POST of a tool is rejected and leaves the catalog as it was,
  -- or it is answered with the created tool, and then its request carries the administrator's token
  -- or the key of the provider that the tool is registered under.
  pub post_tool_lem :
      (header : Option Text) (ids : Ids) (now : ℕ) (body : RegisterToolRequest) (issued : String)
      → config.registry_require_auth ≡ true
      → let r = post_tool hash config header ids now body issued s in
        ((is_created r.1 ≡ false) × (r.0 ≡ s))
        ⊎ ((is_created r.1 ≡ true) × HasCredential hash config header s (provider_slug_of body))
  unfolding post_tool require_write_auth
  post_tool_lem header ids now body issued c =
      let auth = resolve_registry_auth hash header s config in
      elim (anonymous-cases auth) [
        | inl e ↦ inl (rw (e, c, post_tool) (refl, refl))
        | inr n ↦ elim (post_as_lem auth ids now body issued s n (resolve-ne-open header)) [
          | inl r ↦ inl (rw (require_write_auth-known auth config n, post_tool) r)
          | inr (k, m) ↦ inr (
            rw (require_write_auth-known auth config n, post_tool) k,
            credential_of_MayRegister header (provider_slug_of body) m,
          )
        ]
      ]

  resolve-anonymous :
      (header : Option Text)
      → extract_bearer_token header ≡ none
      → resolve_registry_auth hash header s config ≡ anonymous
  unfolding resolve_registry_auth auth_of_token
  resolve-anonymous header e = rw (e, resolve_registry_auth, auth_of_token) refl

  post_as-denied :
      (ids : Ids) (now : ℕ) (body : RegisterToolRequest) (issued : String) (p : ProviderRecord)
      → assert_can_register_tool_slug (slugify body.name) ≡ granted
      → get_provider_by_slug s (provider_slug_of body) ≡ some p
      → post_as anonymous ids now body issued s ≡ (s, denied unauthorized)
  unfolding post_as provider_access assert_provider_access
  post_as-denied ids now body issued p g h = rw (g, h, post_as) refl

  -- When writes need no authentication, a request without a token is still denied as unauthorized
  -- under a provider that is stored: the access that `requireWriteAuth` opens is dropped. The name
  -- of the tool is not reserved.
  pub post_tool-open :
      (header : Option Text) (ids : Ids) (now : ℕ) (body : RegisterToolRequest) (issued : String)
      (p : ProviderRecord)
      → config.registry_require_auth ≡ false
      → extract_bearer_token header ≡ none
      → assert_can_register_tool_slug (slugify body.name) ≡ granted
      → get_provider_by_slug s (provider_slug_of body) ≡ some p
      → post_tool hash config header ids now body issued s ≡ (s, denied unauthorized)
  unfolding post_tool require_write_auth
  post_tool-open header ids now body issued p c e g h =
      let a = resolve-anonymous header e in
      rw (a, c, post_tool) (rw a (post_as-denied ids now body issued p g h))

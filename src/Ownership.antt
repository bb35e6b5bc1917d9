-- ===== src/Ownership.antt =====
-- src/domain/ownership.ts: the challenges by which a provider proves that it owns its identity. The
-- token, the clock and what the resolver and GitHub answer are arguments.
pub mod Identity
pub mod Verify
pub mod Proven
pub mod Effects
use directory.Common.{
  ℕ, ◌+◌, ◌*◌, String, Bool, true, false, not, ◌&&◌, ◌||◌, Option, none, some, List, [], ◌∷◌, ◌++◌,
  map, ltb, leb, if◌then◌else◌, ◌==◌, text_eq, Text, codes, has_part, any, take, is_empty, is_some,
}
use directory.Types.{ToolStatus}
use directory.Types.Records.{
  MemoryTool, ProviderRecord, ProviderMetadata, IdentityType, OwnershipMethod, OwnershipChallenge,
  ChallengeMethod,
}
use directory.Store.{Store, get_provider_by_slug}
use directory.Store.Providers.{set_provider_metadata, set_provider_verified}
use directory.Trust.{refresh_trust_for_tool}
use directory.Search.{ToolSearchQuery, any_status}
use directory.Search.Rank.{search_tools}
use directory.Ownership.Identity.{domain_of, record_name_of, login_of, is_login}

abbrev pub ownership_txt_prefix : Text
ownership_txt_prefix = codes "404-directory-verify="

abbrev pub challenge_ttl_ms : ℕ
challenge_ttl_ms = 7 * 24 * 60 * 60 * 1000

pub data OwnershipError : Type 0 where
  unknown_provider recently_issued invalid_login unsupported_identity : OwnershipError
  no_challenge challenge_expired : OwnershipError

pub data Result {ℓ} (A : Type ℓ) : Type ℓ where
  done : A → Result A
  fails : OwnershipError → Result A

-- `{ cooldownMs ?? 3_600_000, force }`
pub record ChallengeOptions : Type 0 where
  pub cooldown_ms : ℕ
  pub force : Bool

-- Is there a challenge that is younger than the cooldown and has not expired?
unfoldable pub is_cooling : ℕ → ℕ → Option OwnershipChallenge → Bool
is_cooling now cooldown_ms none = false
is_cooling now cooldown_ms (some c) = ltb now (c.created_at + cooldown_ms) && ltb now c.expires_at

unfoldable pub method_for : IdentityType → Text → Text → Result ChallengeMethod
unfolding domain_of record_name_of login_of is_login
method_for IdentityType.domain value token = done (
    ChallengeMethod.dns_txt (domain_of value) (record_name_of (domain_of value))
      (ownership_txt_prefix ++ token))
method_for IdentityType.github value token =
    if is_login (login_of value)
    then done (ChallengeMethod.github_bio (login_of value))
    else fails invalid_login
method_for _ value token = fails unsupported_identity

abbrev pub new_challenge : ℕ → Text → ChallengeMethod → OwnershipChallenge
new_challenge now token method = record {
  method = method;
  token = token;
  created_at = now;
  expires_at = now + challenge_ttl_ms;
  completed_at = none;
}

unfoldable pub issue_challenge :
    ℕ → Text → Store → ProviderRecord → Store × Result OwnershipChallenge
unfolding method_for
issue_challenge now token s p = elim (method_for p.identity_type p.identity_value token) [
  | fails e ↦ (s, fails e)
  | done m ↦
      let c = new_challenge now token m in
      (
        (set_provider_metadata s p.slug (record p.metadata { ownership_challenge = some c })).0,
        done c,
      )
]

unfoldable pub create_ownership_challenge :
    ℕ → Text → Store → Text → ChallengeOptions → Store × Result OwnershipChallenge
unfolding issue_challenge is_cooling
create_ownership_challenge now token s slug options = elim (get_provider_by_slug s slug) [
  | none ↦ (s, fails unknown_provider)
  | some p ↦
      if not options.force && is_cooling now options.cooldown_ms p.metadata.ownership_challenge
      then (s, fails recently_issued)
      else issue_challenge now token s p
]

pub data OwnershipEvidence : Type 0 where
  dns_failed dns_matched : (record_name : Text) → OwnershipEvidence
  dns_unmatched : (record_name : Text) → (found : List Text) → OwnershipEvidence
  bio_failed bio_matched : (login : Text) → OwnershipEvidence
  bio_unmatched : (login : Text) → (bio_present : Bool) → OwnershipEvidence

pub record VerifyResult : Type 0 where
  pub verified : Bool
  pub provider_slug : Text
  pub evidence : OwnershipEvidence

-- What the two services answer; `none` is an exception. A bio may be null.
pub record Lookups : Type 0 where
  pub lookup_txt : Text → Option (List (List Text))
  pub fetch_github_bio : Text → Option (Option Text)

unfoldable pub join : List Text → Text
join [] = []
join (part ∷ parts) = part ++ join parts

unfoldable pub dns_evidence : Text → Text → Option (List (List Text)) → OwnershipEvidence
unfolding join
dns_evidence name expected none = dns_failed name
dns_evidence name expected (some records) =
    let flat = map join records in
    if any (λ value. value == expected || has_part value expected) flat
    then dns_matched name
    else dns_unmatched name (take 5 flat)

unfoldable pub bio_evidence : Text → Text → Option (Option Text) → OwnershipEvidence
bio_evidence login expected none = bio_failed login
bio_evidence login expected (some none) = bio_unmatched login false
bio_evidence login expected (some (some bio)) =
    if has_part bio expected then bio_matched login else bio_unmatched login (not (is_empty bio))

unfoldable pub challenge_evidence : Lookups → OwnershipChallenge → OwnershipEvidence
unfolding dns_evidence bio_evidence
challenge_evidence net c = elim c.method [
  | ChallengeMethod.dns_txt domain name value ↦ dns_evidence name value (net.lookup_txt name)
  | ChallengeMethod.github_bio login ↦
      bio_evidence login (ownership_txt_prefix ++ c.token) (net.fetch_github_bio login)
]

abbrev pub is_match : OwnershipEvidence → Bool
is_match (dns_matched name) = true
is_match (bio_matched login) = true
is_match _ = false

abbrev pub ownership_method_of : ChallengeMethod → OwnershipMethod
ownership_method_of (ChallengeMethod.dns_txt domain name value) = OwnershipMethod.dns_txt
ownership_method_of (ChallengeMethod.github_bio login) = OwnershipMethod.github_bio

-- `{ ...metadata, ...patch }`
abbrev pub completed : ℕ → OwnershipChallenge → ProviderMetadata → ProviderMetadata
completed now c m = record m {
  ownership_method = some (ownership_method_of c.method);
  ownership_verified_at = some now;
  ownership_challenge = some (record c { completed_at = some now });
}

-- `!challenge?.token`, then the test of the time.
unfoldable pub current_challenge : ℕ → Option OwnershipChallenge → Result OwnershipChallenge
current_challenge now none = fails no_challenge
current_challenge now (some c) =
    if is_empty c.token
    then fails no_challenge
    else if ltb c.expires_at now
    then fails challenge_expired
    else done c

abbrev pub query_of_name : Text → ToolSearchQuery
query_of_name name = record {
  q = some name;
  capability = none;
  protocol = none;
  category = none;
  status = any_status;
  trust_threshold = none;
  limit = 50;
}

module _ (fold : Text → Text) (is_word_char : ℕ → Bool) (log10 : ℕ → ℕ) where
  unfoldable pub refresh_each : ℕ → Text → List MemoryTool → Store → Store
  unfolding refresh_trust_for_tool
  refresh_each now slug [] s = s
  refresh_each now slug (t ∷ l) s =
      refresh_each now slug l
        (if t.provider.slug == slug then (refresh_trust_for_tool log10 now s t.id).0 else s)

  unfoldable pub refresh_provider_tools : ℕ → Store → Text → Text → Store
  unfolding refresh_each search_tools
  refresh_provider_tools now s slug name =
      refresh_each now slug (search_tools fold is_word_char now s (query_of_name name)) s

  unfoldable pub finish :
      Lookups → ℕ → Store → ProviderRecord → OwnershipChallenge → Store × VerifyResult
  unfolding challenge_evidence refresh_provider_tools
  finish net now s p c =
      let e = challenge_evidence net c in
      let result : VerifyResult = record {
        verified = is_match e;
        provider_slug = p.slug;
        evidence = e;
      } in
      if is_match e
      then (
        refresh_provider_tools now (set_provider_verified s p.slug true (completed now c)).0 p.slug
            p.name,
        result,
      )
      else (s, result)

  unfoldable pub verify_provider :
      Lookups → ℕ → Store → ProviderRecord → Store × Result VerifyResult
  unfolding finish current_challenge
  verify_provider net now s p = elim (current_challenge now p.metadata.ownership_challenge) [
    | fails e ↦ (s, fails e)
    | done c ↦ let (s', r) = finish net now s p c in (s', done r)
  ]

  unfoldable pub verify_ownership_challenge :
      Lookups → ℕ → Store → Text → Store × Result VerifyResult
  unfolding verify_provider
  verify_ownership_challenge net now s slug = elim (get_provider_by_slug s slug) [
    | none ↦ (s, fails unknown_provider)
    | some p ↦ verify_provider net now s p
  ]

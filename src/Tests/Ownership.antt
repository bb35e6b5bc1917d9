-- ===== src/Tests/Ownership.antt =====
-- An ownership challenge from its creation to its proof.
use directory.Common.{
  ◌≡◌, ◌↔◌, ◌⊎◌, refl, inl, inr, true, false, none, some, [], ◌∷◌, Text, codes, arith,
}
use directory.Types.Records.{ProviderRecord, OwnershipChallenge, ChallengeMethod}
use directory.Store.{Store, get_provider_by_slug, get, update}
use directory.Slug.{slugify}
use directory.Store.Providers.{set_provider_metadata}
use directory.Ownership.{
  Lookups, create_ownership_challenge, verify_ownership_challenge, ChallengeOptions, done,
  issue_challenge, is_cooling, method_for, new_challenge, join,
}
use directory.Ownership.Identity.{domain_of, record_name_of}
use directory.Ownership.Verify.{
  IsPublished, Proves, is_verified, verify_ownership_challenge-verified_iff,
}
use directory.Ownership.Proven.{IsProven, verify_ownership_challenge_lem}
use directory.Ownership.Effects.{create-verify}
use directory.Tests.Data.{catalog, no_log}
use directory.Tests.Search.{fold_ascii, is_alnum}

abbrev pub token : Text
token = codes "a1b2"

abbrev pub once : ChallengeOptions
once = record { cooldown_ms = 3600000; force = false }

abbrev challenge : OwnershipChallenge
challenge = new_challenge 1000 token (
    ChallengeMethod.dns_txt (codes "example.org") (codes "_404-directory.example.org")
      (codes "404-directory-verify=a1b2"))

abbrev pub issued : Store
issued = (create_ownership_challenge 1000 token catalog (codes "Example") once).0

-- The TXT record comes in two parts, after another one.
abbrev pub dns : Lookups
dns = record {
  lookup_txt =
      λ name. some ((codes "spf" ∷ []) ∷ (codes "404-directory-" ∷ codes "verify=a1b2" ∷ []) ∷ []);
  fetch_github_bio = λ login. none;
}

-- What the creation of a challenge computes through.
creating : Unit {0}
unfolding create_ownership_challenge get_provider_by_slug get update slugify set_provider_metadata
    issue_challenge is_cooling method_for domain_of record_name_of
creating = tt

test_create :
    (create_ownership_challenge 1000 token catalog (codes "Example") once).1 ≡ done challenge
unfolding creating
test_create = refl

published : IsPublished dns token challenge.method
unfolding join
published = (
  (codes "spf" ∷ []) ∷ (codes "404-directory-" ∷ codes "verify=a1b2" ∷ []) ∷ [],
  refl,
  codes "404-directory-" ∷ codes "verify=a1b2" ∷ [],
  inr (inl refl),
  ([], [], refl),
)

create-verify_example :
    is_verified
      (verify_ownership_challenge fold_ascii is_alnum no_log dns 2000 issued (codes "Example")).1
    ≡ true
unfolding creating published
create-verify_example =
    create-verify 1000 token catalog (codes "Example") once challenge fold_ascii is_alnum no_log dns
      2000 refl (λ e. cc) (omega arith) published

verify_ownership_challenge-verified_iff_example :
    (is_verified
        (verify_ownership_challenge fold_ascii is_alnum no_log dns 2000 issued (codes "Example")).1
      ≡ true)
    ↔ ((p : ProviderRecord) × (get_provider_by_slug issued (codes "Example") ≡ some p)
        × Proves dns 2000 p)
verify_ownership_challenge-verified_iff_example =
    verify_ownership_challenge-verified_iff fold_ascii is_alnum no_log dns 2000 issued
      (codes "Example")

verify_ownership_challenge_lem_example :
    let r =
      verify_ownership_challenge fold_ascii is_alnum no_log dns 2000 issued (codes "Example") in
    ((is_verified r.1 ≡ false) × (r.0 ≡ issued))
    ⊎ ((is_verified r.1 ≡ true)
        × (p : ProviderRecord) × (get_provider_by_slug issued (codes "Example") ≡ some p)
        × (c : OwnershipChallenge) × (p.metadata.ownership_challenge ≡ some c)
        × (q : ProviderRecord) × (get_provider_by_slug r.0 (codes "Example") ≡ some q)
        × IsProven 2000 c p q)
verify_ownership_challenge_lem_example =
    verify_ownership_challenge_lem fold_ascii is_alnum no_log dns 2000 issued (codes "Example")

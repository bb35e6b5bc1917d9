-- ===== src/Ownership/Proven.antt =====
-- What verifying a challenge leaves in the store, src/domain/ownership.ts.
use directory.Common.{
  String, ◌∙◌, ℕ, ◌≡◌, ◌⊎◌, refl, ap, inl, inr, Bool, true, false, some, List, [], ◌∷◌, ◌==◌,
  text_eq, Text, Option-cases, Bool-cases,
}
use directory.Types.Records.{
  MemoryTool, ProviderRecord, OwnershipChallenge, ChallengeMethod, OwnershipMethod,
}
use directory.Store.{get_tool_by_id, Store, get_provider_by_slug, get}
use directory.Store.Providers.{mark_verified, set_provider_verified}
use directory.Trust.{refresh_trust_for_tool}
use directory.Store.Evidence.{upsert_trust_profile}
use directory.Slug.{slugify}
use directory.Search.Rank.{search_tools}
use directory.Ownership.{
  Lookups, challenge_evidence, is_match, current_challenge, finish, refresh_each,
  refresh_provider_tools, verify_ownership_challenge, completed, verify_provider, query_of_name,
}
use directory.Store.Providers.Laws.{set_provider_verified-get}
use directory.Ownership.Verify.{
  Result-cases, is_verified, finish-verified, current_challenge-stored,
}

abbrev proven : ℕ → OwnershipChallenge → ProviderRecord → ProviderRecord
proven now c p = mark_verified true (completed now c) p

-- The provider `q` is `p`, verified at this time by the method of the challenge `c`, with this
-- challenge completed at this time; all else is as in `p`.
pub record IsProven (now : ℕ) (c : OwnershipChallenge) (p q : ProviderRecord) : Type 0 where
  pub id : q.id ≡ p.id
  pub slug : q.slug ≡ p.slug
  pub name : q.name ≡ p.name
  pub identity_type : q.identity_type ≡ p.identity_type
  pub identity_value : q.identity_value ≡ p.identity_value
  pub verified : q.verified ≡ true
  pub by_dns :
      (domain name value : Text)
      → c.method ≡ ChallengeMethod.dns_txt domain name value
      → q.metadata.ownership_method ≡ some OwnershipMethod.dns_txt
  pub by_bio :
      (login : Text)
      → c.method ≡ ChallengeMethod.github_bio login
      → q.metadata.ownership_method ≡ some OwnershipMethod.github_bio
  pub verified_at : q.metadata.ownership_verified_at ≡ some now
  pub challenge :
      q.metadata.ownership_challenge
      ≡ some (record {
        method = c.method;
        token = c.token;
        created_at = c.created_at;
        expires_at = c.expires_at;
        completed_at = some now;
      })
  pub api_key_hash : q.metadata.api_key_hash ≡ p.metadata.api_key_hash

proven-IsProven :
    (now : ℕ) (c : OwnershipChallenge) (p : ProviderRecord) → IsProven now c p (proven now c p)
proven-IsProven now c p = record {
  id = refl;
  slug = refl;
  name = refl;
  identity_type = refl;
  identity_value = refl;
  verified = refl;
  by_dns = λ domain name value e. rw e refl;
  by_bio = λ login e. rw e refl;
  verified_at = refl;
  challenge = refl;
  api_key_hash = refl;
}

module _ (fold : Text → Text) (is_word_char : ℕ → Bool) (log10 : ℕ → ℕ) where
  refresh_trust-providers :
      (now : ℕ) (s : Store) (id : String)
      → (refresh_trust_for_tool log10 now s id).0.providers ≡ s.providers
  unfolding refresh_trust_for_tool upsert_trust_profile
  refresh_trust-providers now s id = elim (Option-cases (get_tool_by_id now s id)) [
    | inl e ↦ rw (e, refresh_trust_for_tool) refl
    | inr (t, e) ↦ rw (e, refresh_trust_for_tool) refl
  ]

  refresh_each-providers :
      (now : ℕ) (slug : Text) (l : List MemoryTool) (s : Store)
      → (refresh_each fold is_word_char log10 now slug l s).providers ≡ s.providers
  unfolding refresh_each
  refresh_each-providers now slug [] s = refl
  refresh_each-providers now slug (t ∷ l) s = elim (Bool-cases (t.provider.slug == slug)) [
    | inl e ↦
        rw (e, refresh_each)
          (refresh_each-providers now slug l (refresh_trust_for_tool log10 now s t.id).0
            ∙ refresh_trust-providers now s t.id)
    | inr e ↦ rw (e, refresh_each) (refresh_each-providers now slug l s)
  ]

  refresh_provider_tools-get :
      (now : ℕ) (s : Store) (slug name key : Text)
      → get_provider_by_slug (refresh_provider_tools fold is_word_char log10 now s slug name) key
        ≡ get_provider_by_slug s key
  unfolding refresh_provider_tools get_provider_by_slug
  refresh_provider_tools-get now s slug name key =
      ap (get (λ (q : ProviderRecord). q.slug) (slugify key)) (
        refresh_each-providers now slug (search_tools fold is_word_char now s (query_of_name name))
          s)

  finish-get :
      (net : Lookups) (now : ℕ) (s : Store) (slug : Text) (p : ProviderRecord)
      (c : OwnershipChallenge)
      → get_provider_by_slug s slug ≡ some p
      → is_match (challenge_evidence net c) ≡ true
      → get_provider_by_slug (finish fold is_word_char log10 net now s p c).0 slug
        ≡ some (proven now c p)
  unfolding finish
  finish-get net now s slug p c h m =
      let s' = (set_provider_verified s p.slug true (completed now c)).0 in
      rw (m, finish)
        (refresh_provider_tools-get now s' p.slug p.name slug
          ∙ set_provider_verified-get s slug p true (completed now c) h)

  finish-unmatched :
      (net : Lookups) (now : ℕ) (s : Store) (p : ProviderRecord) (c : OwnershipChallenge)
      → is_match (challenge_evidence net c) ≡ false
      → (finish fold is_word_char log10 net now s p c).0 ≡ s
  unfolding finish
  finish-unmatched net now s p c m = rw (m, finish) refl

  provider_lem :
      (net : Lookups) (now : ℕ) (s : Store) (slug : Text) (q : ProviderRecord)
      → get_provider_by_slug s slug ≡ some q
      → let r = verify_provider fold is_word_char log10 net now s q in
        ((is_verified r.1 ≡ false) × (r.0 ≡ s))
        ⊎ ((is_verified r.1 ≡ true)
            × (p : ProviderRecord) × (some q ≡ some p)
            × (c : OwnershipChallenge) × (p.metadata.ownership_challenge ≡ some c)
            × (get_provider_by_slug r.0 slug ≡ some (proven now c p)))
  unfolding verify_provider
  provider_lem net now s slug q h =
      let o = q.metadata.ownership_challenge in
      elim (Result-cases (current_challenge now o)) [
        | inr (x, e) ↦ rw (e, verify_provider) (inl (refl, refl))
        | inl (c, e) ↦ elim (Bool-cases (is_match (challenge_evidence net c))) [
          | inl m ↦
              rw (e, verify_provider)
                (inr (
                  finish-verified fold is_word_char log10 net now s q c ∙ m,
                  q,
                  refl,
                  c,
                  current_challenge-stored now o c e,
                  finish-get net now s slug q c h m,
                ))
          | inr m ↦
              rw (e, verify_provider)
                (inl (
                  finish-verified fold is_word_char log10 net now s q c ∙ m,
                  finish-unmatched net now s q c m,
                ))
        ]
      ]

  -- What a call of `verifyOwnershipChallenge` does: it fails or finds no proof, and the store is as
  -- before, or it answers that the provider is verified. Then the stored provider is marked as
  -- verified, with the method of its challenge (DNS or GitHub) and the time, its challenge is marked
  -- as completed at this time, and its names, its identity and its key are as before.
  pub verify_ownership_challenge_lem :
      (net : Lookups) (now : ℕ) (s : Store) (slug : Text)
      → let r = verify_ownership_challenge fold is_word_char log10 net now s slug in
        ((is_verified r.1 ≡ false) × (r.0 ≡ s))
        ⊎ ((is_verified r.1 ≡ true)
            × (p : ProviderRecord) × (get_provider_by_slug s slug ≡ some p)
            × (c : OwnershipChallenge) × (p.metadata.ownership_challenge ≡ some c)
            × (q : ProviderRecord) × (get_provider_by_slug r.0 slug ≡ some q)
            × IsProven now c p q)
  unfolding verify_ownership_challenge
  verify_ownership_challenge_lem net now s slug =
      elim (Option-cases (get_provider_by_slug s slug)) [
        | inl e ↦ rw (e, verify_ownership_challenge) (inl (refl, refl))
        | inr (p, e) ↦
            rw (e, verify_ownership_challenge)
              (elim (provider_lem net now s slug p e) [
                | inl h ↦ inl h
                | inr (v, p', same, c, o, g) ↦
                    inr (v, p', same, c, o, proven now c p', g, proven-IsProven now c p')
              ])
      ]

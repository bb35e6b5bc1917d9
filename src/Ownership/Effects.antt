-- ===== src/Ownership/Effects.antt =====
-- A challenge that is created and then verified, or created again, src/domain/ownership.ts.
use directory.Common.{
  subst, ℕ, ◌+◌, ◌≤◌, ◌<◌, ◌≡◌, ◌≢◌, refl, sym, inl, inr, Bool, true, false, not, ◌&&◌, some, [],
  text_eq, Text, Option-cases, Bool-cases, arith,
}
use directory.Types.Records.{ProviderRecord, OwnershipChallenge, ChallengeMethod}
use directory.Store.{Store, get_provider_by_slug}
use directory.Store.Providers.{set_provider_metadata}
use directory.Ownership.{
  Lookups, verify_ownership_challenge, done, fails, challenge_ttl_ms, create_ownership_challenge,
  issue_challenge, is_cooling, ChallengeOptions, new_challenge, recently_issued, method_for,
  unknown_provider,
}
use directory.Store.Providers.Laws.{set_provider_metadata-get}
use directory.Ownership.Verify.{
  Result-cases, is_verified, IsPublished, verify_ownership_challenge-verified_iff,
}

abbrev pub holding : OwnershipChallenge → ProviderRecord → ProviderRecord
holding c p = record p { metadata = record p.metadata { ownership_challenge = some c } }

refused :
    (now : ℕ) (token : Text) (s : Store) (slug : Text) (options : ChallengeOptions)
    (p : ProviderRecord) (c : OwnershipChallenge)
    → get_provider_by_slug s slug ≡ some p
    → p.metadata.ownership_challenge ≡ some c
    → options.force ≡ false
    → now < c.created_at + options.cooldown_ms
    → now < c.expires_at
    → create_ownership_challenge now token s slug options ≡ (s, fails recently_issued)
unfolding create_ownership_challenge is_cooling
refused now token s slug options p c g h f l k =
    let b : (not options.force && is_cooling now options.cooldown_ms p.metadata.ownership_challenge)
        ≡ true =
      rw (f, h) (ground arith) in
    rw (g, b, create_ownership_challenge) refl

module _ (now : ℕ) (token : Text) (s : Store) (slug : Text) where
  issue-get :
      (p : ProviderRecord) (c : OwnershipChallenge)
      → get_provider_by_slug s slug ≡ some p
      → (issue_challenge now token s p).1 ≡ done c
      → (get_provider_by_slug (issue_challenge now token s p).0 slug ≡ some (holding c p))
        × (m : ChallengeMethod) × (c ≡ new_challenge now token m)
  unfolding issue_challenge
  issue-get p c h k = elim (Result-cases (method_for p.identity_type p.identity_value token)) [
    | inr (x, e) ↦ let q : fails x ≡ done c = rw (e, issue_challenge) at k in cc
    | inl (m, e) ↦
        let q : done (new_challenge now token m) ≡ done c = rw (e, issue_challenge) at k in
        let w : new_challenge now token m ≡ c = cc in
        (
          rw (e, issue_challenge)
              (subst
                (λ d.
                  get_provider_by_slug
                    (set_provider_metadata s p.slug (record p.metadata {
                      ownership_challenge = some (new_challenge now token m);
                    })).0
                    slug
                  ≡ some (holding d p))
                w (set_provider_metadata-get s slug p _ h)),
          m,
          sym w,
        )
  ]

  create-get :
      (options : ChallengeOptions) (c : OwnershipChallenge)
      → let r = create_ownership_challenge now token s slug options in
        r.1 ≡ done c
        → (p : ProviderRecord) × (get_provider_by_slug r.0 slug ≡ some (holding c p))
          × (m : ChallengeMethod) × (c ≡ new_challenge now token m)
  unfolding create_ownership_challenge
  create-get options c h = elim (Option-cases (get_provider_by_slug s slug)) [
    | inl e ↦
        let q : fails unknown_provider ≡ done c = rw (e, create_ownership_challenge) at h in cc
    | inr (p, e) ↦
        elim (Bool-cases (
          not options.force && is_cooling now options.cooldown_ms p.metadata.ownership_challenge)) [
            | inl b ↦
                let q : fails recently_issued ≡ done c =
                  rw (e, b, create_ownership_challenge) at h in
                cc
            | inr b ↦
                let (g, m, w) = issue-get p c e (rw (e, b, create_ownership_challenge) at h) in
                (p, rw (e, b, create_ownership_challenge) g, m, w)
          ]
  ]

  -- After a challenge was created, publishing what it asks for within the week is enough: a call of
  -- `verifyOwnershipChallenge` on the store that the creation left answers that the provider is
  -- verified. The token is not empty.
  pub create-verify :
      (options : ChallengeOptions) (c : OwnershipChallenge) (fold : Text → Text)
      (is_word_char : ℕ → Bool) (log10 : ℕ → ℕ) (net : Lookups) (later : ℕ)
      → (create_ownership_challenge now token s slug options).1 ≡ done c
      → token ≢ []
      → later ≤ now + challenge_ttl_ms
      → IsPublished net c.token c.method
      → is_verified
          (verify_ownership_challenge fold is_word_char log10 net later
            (create_ownership_challenge now token s slug options).0
            slug).1
        ≡ true
  create-verify options c fold is_word_char log10 net later h n l published =
      let (p, g, m, w) = create-get options c h in
      (verify_ownership_challenge-verified_iff fold is_word_char log10 net later
          (create_ownership_challenge now token s slug options).0 slug).1
        (holding c p, g, (c, refl, rw w n, rw w l, published))

  -- While a created challenge is younger than the cooldown and has not expired, a second creation
  -- without force is refused and changes nothing.
  pub create-cooldown :
      (options : ChallengeOptions) (c : OwnershipChallenge) (later : ℕ) (token' : Text)
      (options' : ChallengeOptions)
      → (create_ownership_challenge now token s slug options).1 ≡ done c
      → options'.force ≡ false
      → later < now + options'.cooldown_ms
      → later < now + challenge_ttl_ms
      → let s' = (create_ownership_challenge now token s slug options).0 in
        create_ownership_challenge later token' s' slug options' ≡ (s', fails recently_issued)
  create-cooldown options c later token' options' h f l k =
      let (p, g, m, w) = create-get options c h in
      refused later token' _ slug options' (holding c p) c g refl f (rw w (omega (arith, l)))
        (rw w (omega (arith, k)))

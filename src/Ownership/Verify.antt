-- ===== src/Ownership/Verify.antt =====
-- When a provider counts as verified.
use directory.Common.{
  is_empty_iff, In-map, map-In, append-nil, subst, ◌∙◌, Part, has_part_iff, ℕ, ◌≤◌, ◌≡◌, ◌≢◌, ◌↔◌,
  ◌⊎◌, refl, sym, inl, inr, Bool, true, false, ◌||◌, Option, none, some, List, [], ◌++◌, map, ltb,
  ◌==◌, text_eq, Text, has_part, any, any-In, any-of-In, In, is_empty, Option-cases, Bool-cases,
  arith,
}
use directory.Types.Records.{ProviderRecord, OwnershipChallenge, ChallengeMethod}
use directory.Store.{Store, get_provider_by_slug}
use directory.Ownership.{
  Lookups, ownership_txt_prefix, join, dns_evidence, bio_evidence, challenge_evidence, is_match,
  current_challenge, finish, verify_ownership_challenge, VerifyResult, Result, done, fails,
  OwnershipError, verify_provider, no_challenge, challenge_expired,
}

-- What the challenge asks for is published: a TXT record at its name, or the bio of its login,
-- contains the text.
abbrev pub IsPublished : Lookups → Text → ChallengeMethod → Type 0
IsPublished net token (ChallengeMethod.dns_txt domain name value) =
    (records : List (List Text)) × (net.lookup_txt name ≡ some records)
    × (r : List Text) × In r records
    × Part value (join r)
IsPublished net token (ChallengeMethod.github_bio login) =
    (bio : Text) × (net.fetch_github_bio login ≡ some (some bio))
    × Part (ownership_txt_prefix ++ token) bio

includes_iff :
    (value expected : Text)
    → ((value == expected || has_part value expected) ≡ true) ↔ Part expected value
includes_iff value expected = (
  λ h. elim (Bool-cases (value == expected)) [
    | inl e ↦ ([], [], (text_eq.same_iff value expected).0 e ∙ sym (append-nil expected))
    | inr e ↦ (has_part_iff value expected).0 (ground arith)
  ],
  λ h. let k = (has_part_iff value expected).1 h in ground arith,
)

dns_iff :
    (name value : Text) (a : Option (List (List Text)))
    → (is_match (dns_evidence name value a) ≡ true) ↔ (
        (records : List (List Text)) × (a ≡ some records)
        × (r : List Text) × In r records
        × Part value (join r))
unfolding dns_evidence
dns_iff name value none = (λ h. let k : false ≡ true = h in cc, λ (records, e, r, i, p). cc)
dns_iff name value (some records) =
    let p : Text → Bool = λ v. v == value || has_part v value in
    elim (Bool-cases (any p (map join records))) [
      | inl e ↦ rw e (
        λ h.
            let (v, i, k) = any-In p (map join records) e in
            let (r, j, q) = In-map join v records i in
            let (x, y, part) = (includes_iff v value).0 k in
            (records, refl, r, j, (x, y, sym q ∙ part)),
        λ h. refl,
      )
      | inr e ↦ rw e (
        λ h. let k : false ≡ true = h in cc,
        λ (l, same, r, i, part).
            let found =
              any-of-In p (join r) (map join records)
                (map-In join r records (let w : l ≡ records = cc in subst (In r) w i))
                ((includes_iff (join r) value).1 part) in
            cc,
      )
    ]

bio_iff :
    (login expected : Text) (a : Option (Option Text))
    → (is_match (bio_evidence login expected a) ≡ true)
      ↔ ((bio : Text) × (a ≡ some (some bio)) × Part expected bio)
unfolding bio_evidence
bio_iff login expected none = (λ h. let k : false ≡ true = h in cc, λ (bio, e, p). cc)
bio_iff login expected (some none) = (λ h. let k : false ≡ true = h in cc, λ (bio, e, p). cc)
bio_iff login expected (some (some bio)) = elim (Bool-cases (has_part bio expected)) [
  | inl e ↦
      rw e
        (λ h. let (x, y, q) = (has_part_iff bio expected).0 e in (bio, refl, (x, y, q)), λ h. refl)
  | inr e ↦ rw e (
    λ h. let k : false ≡ true = h in cc,
    λ (b, same, part).
        let w : b ≡ bio = cc in
        let k = (has_part_iff bio expected).1 (subst (Part expected) w part) in cc,
  )
]

challenge_evidence_iff :
    (net : Lookups) (c : OwnershipChallenge)
    → (is_match (challenge_evidence net c) ≡ true) ↔ IsPublished net c.token c.method
unfolding challenge_evidence
challenge_evidence_iff net c =
    elim c.method
      as (λ m.
        (is_match (challenge_evidence net (record c { method = m })) ≡ true)
        ↔ IsPublished net c.token m) [
          | ChallengeMethod.dns_txt domain name value ↦ dns_iff name value (net.lookup_txt name)
          | ChallengeMethod.github_bio login ↦
              bio_iff login (ownership_txt_prefix ++ c.token) (net.fetch_github_bio login)
        ]

abbrev IsCurrent : ℕ → OwnershipChallenge → Type 0
IsCurrent now c = (c.token ≢ []) × (now ≤ c.expires_at)

-- The tests of a stored challenge pass exactly when it is current.
stored_iff :
    (now : ℕ) (c : OwnershipChallenge) → (current_challenge now (some c) ≡ done c) ↔ IsCurrent now c
unfolding current_challenge
stored_iff now c = elim (Bool-cases (is_empty c.token)) [
  | inl e ↦ rw e (λ h. cc, λ (n, l). absurd (n ((is_empty_iff c.token).0 e)))
  | inr e ↦ elim (Bool-cases (ltb c.expires_at now)) [
    | inl late ↦
        rw (e, late) (λ h. cc, λ (n, l). let k : ltb c.expires_at now ≡ false = ground arith in cc)
    | inr early ↦
        rw (e, early)
          (λ h. (λ q. let k = (is_empty_iff c.token).1 q in cc, ground arith), λ h. refl)
  ]
]

pub current_challenge-stored :
    (now : ℕ) (o : Option OwnershipChallenge) (c : OwnershipChallenge)
    → current_challenge now o ≡ done c
    → o ≡ some c
unfolding current_challenge
current_challenge-stored now none c h = cc
current_challenge-stored now (some d) c h = elim (Bool-cases (is_empty d.token)) [
  | inl e ↦ let k : fails no_challenge ≡ done c = rw e at h in cc
  | inr e ↦ elim (Bool-cases (ltb d.expires_at now)) [
    | inl late ↦ let k : fails challenge_expired ≡ done c = rw (e, late) at h in cc
    | inr early ↦ let k : done d ≡ done c = rw (e, early) at h in cc
  ]
]

abbrev pub is_verified : Result VerifyResult → Bool
is_verified (done r) = r.verified
is_verified (fails e) = false

pub Result-cases :
    {A : Type 0} (r : Result A) → ((a : A) × (r ≡ done a)) ⊎ ((e : OwnershipError) × (r ≡ fails e))
Result-cases (done a) = inl (a, refl)
Result-cases (fails e) = inr (e, refl)

-- The provider has a challenge that is current, and what it asks for is published.
abbrev pub Proves : Lookups → ℕ → ProviderRecord → Type 0
Proves net now p =
    (c : OwnershipChallenge) × (p.metadata.ownership_challenge ≡ some c)
    × (c.token ≢ [])
    × (now ≤ c.expires_at)
    × IsPublished net c.token c.method

module _ (fold : Text → Text) (is_word_char : ℕ → Bool) (log10 : ℕ → ℕ) where
  pub finish-verified :
      (net : Lookups) (now : ℕ) (s : Store) (p : ProviderRecord) (c : OwnershipChallenge)
      → (finish fold is_word_char log10 net now s p c).1.verified
        ≡ is_match (challenge_evidence net c)
  unfolding finish
  finish-verified net now s p c = elim (Bool-cases (is_match (challenge_evidence net c))) [
    | inl e ↦ rw (e, finish) refl
    | inr e ↦ rw (e, finish) refl
  ]

  verify_provider-verified :
      (net : Lookups) (now : ℕ) (s : Store) (p : ProviderRecord)
      → is_verified (verify_provider fold is_word_char log10 net now s p).1 ≡ true
      → Proves net now p
  unfolding verify_provider
  verify_provider-verified net now s p h =
      let o = p.metadata.ownership_challenge in
      elim (Result-cases (current_challenge now o)) [
        | inl (c, e) ↦
            let m : is_match (challenge_evidence net c) ≡ true =
              sym (finish-verified net now s p c) ∙ (rw (e, verify_provider) at h) in
            let stored = current_challenge-stored now o c e in
            let (n, l) = (stored_iff now c).0 (rw stored at e) in
            (c, stored, n, l, (challenge_evidence_iff net c).0 m)
        | inr (x, e) ↦ let k : false ≡ true = rw (e, verify_provider) at h in cc
      ]

  pub verify_provider_of_Proves :
      (net : Lookups) (now : ℕ) (s : Store) (p : ProviderRecord)
      → Proves net now p
      → is_verified (verify_provider fold is_word_char log10 net now s p).1 ≡ true
  unfolding verify_provider
  verify_provider_of_Proves net now s p (c, stored, n, l, published) =
      let q : current_challenge now p.metadata.ownership_challenge ≡ done c =
        rw stored ((stored_iff now c).1 (n, l)) in
      rw (q, verify_provider)
        (finish-verified net now s p c ∙ (challenge_evidence_iff net c).1 published)

  -- A call of `verifyOwnershipChallenge` answers that the provider is verified exactly when the
  -- provider is stored, its challenge has a token and has not expired, and the resolver or GitHub
  -- shows the text that the challenge asks for.
  pub verify_ownership_challenge-verified_iff :
      (net : Lookups) (now : ℕ) (s : Store) (slug : Text)
      → (is_verified (verify_ownership_challenge fold is_word_char log10 net now s slug).1 ≡ true)
        ↔ ((p : ProviderRecord) × (get_provider_by_slug s slug ≡ some p) × Proves net now p)
  unfolding verify_ownership_challenge
  verify_ownership_challenge-verified_iff net now s slug =
      elim (Option-cases (get_provider_by_slug s slug)) [
        | inl e ↦
            rw (e, verify_ownership_challenge)
              (λ h. let k : false ≡ true = h in cc, λ (p, q, r). cc)
        | inr (p, e) ↦
            rw (e, verify_ownership_challenge)
              (
                λ h. (p, refl, verify_provider-verified net now s p h),
                λ (q, same, r).
                    let w : q ≡ p = cc in
                    verify_provider_of_Proves net now s p (subst (Proves net now) w r),
              )
      ]

-- ===== src/Cohorts/Kinds.antt =====
-- What the cohort of an evaluation says of its attribution, src/domain/evaluation-metric-scopes.ts.
use directory.Common.{
  ◌≡◌, refl, ap, ◌∙◌, [], arith, text_eq, ◌⊎◌, ◌↔◌, ◌≢◌, Bool, ◌&&◌, true, false, Option, some,
  none, Text, codes, text_beq_iff, is_empty, is_empty_iff, Bool-cases, inl, inr,
}
use directory.Search.{trim}
use directory.Cohorts.{
  EvaluationAttribution, EvaluationCohort, internal, anonymous_external, identified_external,
  unattributed, is_kind, has_key, evaluation_cohort,
}

-- Of the service itself, or of a caller outside: one without an identity, or one that gives a key.
abbrev pub IsInternal : EvaluationAttribution → Type 0
IsInternal a = (a.is_external ≡ some false) ⊎ (a.agent_identity_kind ≡ some (codes "internal"))

abbrev pub IsAnonymous : EvaluationAttribution → Type 0
IsAnonymous a = (a.is_external ≡ some true) × (a.agent_identity_kind ≡ some (codes "anonymous"))

abbrev pub IsIdentified : EvaluationAttribution → Type 0
IsIdentified a =
    (a.is_external ≡ some true)
    × (a.agent_identity_kind ≡ some (codes "explicit"))
    × (k : Text) × (a.agent_key ≡ some k)
    × (trim k ≢ [])

abbrev pub Fits : EvaluationAttribution → EvaluationCohort → Type 0
Fits a internal = IsInternal a
Fits a anonymous_external = IsAnonymous a
Fits a identified_external = IsIdentified a
Fits a unattributed = ¬ (IsInternal a ⊎ IsAnonymous a ⊎ IsIdentified a)

is_kind_iff : (o : Option Text) (k : Text) → (is_kind o k ≡ true) ↔ (o ≡ some k)
is_kind_iff none k = ground arith
is_kind_iff (some s) k = ground (arith, text_beq_iff s k)

has_key_iff : (o : Option Text) → (has_key o ≡ true) ↔ ((k : Text) × (o ≡ some k) × (trim k ≢ []))
unfolding has_key
has_key_iff none = (λ h. cc, λ (k, e, n). cc)
has_key_iff (some s) = (
  λ h. (s, refl, λ e. let k = (is_empty_iff (trim s)).1 e in ground arith),
  λ (k, e, n). elim (Bool-cases (is_empty (trim s))) [
    | inl b ↦ let same : k ≡ s = cc in absurd (n (ap trim same ∙ (is_empty_iff (trim s)).0 b))
    | inr b ↦ rw b refl
  ],
)

module _ (kind key : Option Text) where
  abbrev outside : Option Bool → EvaluationAttribution
  outside e = record { is_external = e; agent_identity_kind = kind; agent_key = key }

  marked-Fits :
      is_kind kind (codes "internal") ≡ false
      → Fits (outside (some true)) (evaluation_cohort (outside (some true)))
  unfolding evaluation_cohort
  marked-Fits h =
      let other : kind ≢ some (codes "internal") =
        λ e. let k = (is_kind_iff kind (codes "internal")).1 e in cc in
      elim (Bool-cases (is_kind kind (codes "anonymous"))) [
        | inl b ↦ rw (h, b) (refl, (is_kind_iff kind (codes "anonymous")).0 b)
        | inr b ↦ elim (Bool-cases (is_kind kind (codes "explicit") && has_key key)) [
          | inl c ↦
              let (k, e, n) = (has_key_iff key).0 (ground arith) in
              rw (h, b, c) (refl, (is_kind_iff kind (codes "explicit")).0 (ground arith), k, e, n)
          | inr c ↦
              rw (h, b, c)
                (λ q. elim q [
                  | inl (inl e) ↦ let k : true ≡ false = cc in cc
                  | inl (inr e) ↦ other e
                  | inr (inl (_, e)) ↦ let k = (is_kind_iff kind (codes "anonymous")).1 e in cc
                  | inr (inr (_, e, k, f, n)) ↦
                      let x = (is_kind_iff kind (codes "explicit")).1 e in
                      let y = (has_key_iff key).1 (k, f, n) in ground arith
                ])
        ]
      ]

  pub evaluation_cohort-Fits : (e : Option Bool) → Fits (outside e) (evaluation_cohort (outside e))
  unfolding evaluation_cohort
  evaluation_cohort-Fits (some false) = inl refl
  evaluation_cohort-Fits none = elim (Bool-cases (is_kind kind (codes "internal"))) [
    | inl b ↦ rw b (inr ((is_kind_iff kind (codes "internal")).0 b))
    | inr b ↦ rw b (λ q. elim q [
      | inl (inl e) ↦ cc
      | inl (inr e) ↦ let k = (is_kind_iff kind (codes "internal")).1 e in cc
      | inr (inl (e, _)) ↦ cc
      | inr (inr (e, _, _, _, _)) ↦ cc
    ])
  ]
  evaluation_cohort-Fits (some true) = elim (Bool-cases (is_kind kind (codes "internal"))) [
    | inl b ↦ rw b (inr ((is_kind_iff kind (codes "internal")).0 b))
    | inr b ↦ marked-Fits b
  ]

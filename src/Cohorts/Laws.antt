-- ===== src/Cohorts/Laws.antt =====
-- The counts of the cohorts.
use directory.Common.{
  ℕ, ◌+◌, ◌≡◌, refl, sym, ap, ◌∙◌, List, [], ◌∷◌, ◌++◌, filter, length, arith, text_eq, append-nil,
  All,
}
use directory.Cohorts.{
  EvaluationAttribution, EvaluationCohort, internal, anonymous_external, identified_external,
  unattributed, evaluation_cohort, in_cohort, Groups, push, group_all, EvaluationMetricScopes,
  build_evaluation_attribution,
}
use directory.Cohorts.Kinds.{Fits, evaluation_cohort-Fits}

length-append : {A : Type 0} (xs ys : List A) → length (xs ++ ys) ≡ length xs + length ys
length-append [] ys = omega arith
length-append (x ∷ xs) ys = omega (arith, length-append xs ys)

append_one :
    {A : Type 0} (xs : List A) (x : A) (ys : List A) → (xs ++ x ∷ []) ++ ys ≡ xs ++ (x ∷ ys)
append_one [] x ys = refl
append_one (y ∷ xs) x ys = ap (λ l. y ∷ l) (append_one xs x ys)

module _ {R : Type 0} (attribution : R → EvaluationAttribution) where
  abbrev pub of_cohort : EvaluationCohort → List R → List R
  of_cohort c rs = filter (λ r. in_cohort c (attribution r)) rs

  Parts : Groups R → List R → Groups R → Type 0
  Parts g rs h =
      (h.internals ≡ g.internals ++ of_cohort internal rs)
      × (h.anonymous ≡ g.anonymous ++ of_cohort anonymous_external rs)
      × (h.identified ≡ g.identified ++ of_cohort identified_external rs)
      × (h.others ≡ g.others ++ of_cohort unattributed rs)

  group_all-Parts : (g : Groups R) (rs : List R) → Parts g rs (group_all attribution g rs)
  unfolding group_all Parts
  group_all-Parts g [] =
      (sym (append-nil _), sym (append-nil _), sym (append-nil _), sym (append-nil _))
  group_all-Parts g (r ∷ rs) =
      step (λ h. group_all-Parts h rs) (evaluation_cohort (attribution r)) refl
    where
      step :
          ((h : Groups R) → Parts h rs (group_all attribution h rs))
          → (c : EvaluationCohort) → evaluation_cohort (attribution r) ≡ c
          → Parts g (r ∷ rs) (group_all attribution (push attribution c r g) rs)
      step deep internal e =
          let (a1, a2, a3, a4) = deep (push attribution internal r g) in
          rw e (a1 ∙ append_one g.internals r _, a2, a3, a4)
      step deep anonymous_external e =
          let (a1, a2, a3, a4) = deep (push attribution anonymous_external r g) in
          rw e (a1, a2 ∙ append_one g.anonymous r _, a3, a4)
      step deep identified_external e =
          let (a1, a2, a3, a4) = deep (push attribution identified_external r g) in
          rw e (a1, a2, a3 ∙ append_one g.identified r _, a4)
      step deep unattributed e =
          let (a1, a2, a3, a4) = deep (push attribution unattributed r g) in
          rw e (a1, a2, a3, a4 ∙ append_one g.others r _)

  cohorts-length :
      (rs : List R)
      → length rs
        ≡ length (of_cohort internal rs)
          + length (of_cohort anonymous_external rs)
          + length (of_cohort identified_external rs)
          + length (of_cohort unattributed rs)
  cohorts-length [] = omega arith
  cohorts-length (r ∷ rs) = step (cohorts-length rs) (evaluation_cohort (attribution r)) refl
    where
      step :
          length rs
            ≡ length (of_cohort internal rs)
              + length (of_cohort anonymous_external rs)
              + length (of_cohort identified_external rs)
              + length (of_cohort unattributed rs)
          → (c : EvaluationCohort) → evaluation_cohort (attribution r) ≡ c
          → length (r ∷ rs)
            ≡ length (of_cohort internal (r ∷ rs))
              + length (of_cohort anonymous_external (r ∷ rs))
              + length (of_cohort identified_external (r ∷ rs))
              + length (of_cohort unattributed (r ∷ rs))
      step deep internal e = rw e (omega (arith, deep))
      step deep anonymous_external e = rw e (omega (arith, deep))
      step deep identified_external e = rw e (omega (arith, deep))
      step deep unattributed e = rw e (omega (arith, deep))

  abbrev pub counts : List R → EvaluationMetricScopes ℕ
  counts rs = build_evaluation_attribution attribution length rs

  All-Fits : (rs : List R) → All (λ r. Fits (attribution r) (evaluation_cohort (attribution r))) rs
  All-Fits [] = tt
  All-Fits (r ∷ rs) =
      let a = attribution r in
      (evaluation_cohort-Fits a.agent_identity_kind a.agent_key a.is_external, All-Fits rs)

  -- The counts of the scopes add up as the notice of the report says: the total is that of the four
  -- cohorts, and the external ones are the anonymous and the identified ones; a cohort counts the
  -- records whose cohort it is. Internal are the records that are marked as not external or of the
  -- kind "internal", anonymous and identified the records that are marked as external of the kind
  -- "anonymous", or of the kind "explicit" with a key that is not blank, and unattributed all others.
  pub build_evaluation_attribution-counts :
      (rs : List R)
      → ((counts rs).total
          ≡ (counts rs).internals
            + (counts rs).anonymous
            + (counts rs).identified
            + (counts rs).others)
        × ((counts rs).external ≡ (counts rs).anonymous + (counts rs).identified)
        × ((counts rs).internals ≡ length (of_cohort internal rs))
        × ((counts rs).anonymous ≡ length (of_cohort anonymous_external rs))
        × ((counts rs).identified ≡ length (of_cohort identified_external rs))
        × ((counts rs).others ≡ length (of_cohort unattributed rs))
        × All (λ r. Fits (attribution r) (evaluation_cohort (attribution r))) rs
  unfolding build_evaluation_attribution Parts
  build_evaluation_attribution-counts rs =
      let (a, b, c, d) =
        group_all-Parts (record { internals = []; anonymous = []; identified = []; others = [] })
          rs in
      let n = cohorts-length rs in
      (
        rw (a, b, c, d) n,
        length-append _ _,
        ap length a,
        ap length b,
        ap length c,
        ap length d,
        All-Fits rs,
      )

-- ===== src/Tests/Cohorts.antt =====
-- The cohorts of three evaluations.
use directory.Common.{All, ◌+◌, ◌≡◌, refl, true, none, some, List, [], ◌∷◌, codes, length}
use directory.Cohorts.{
  EvaluationAttribution, internal, anonymous_external, identified_external, unattributed,
  evaluation_cohort, count_identified_external_agents,
}
use directory.Cohorts.Kinds.{Fits}
use directory.Cohorts.Laws.{of_cohort, counts, build_evaluation_attribution-counts}

abbrev agent : EvaluationAttribution
agent = record {
  is_external = some true;
  agent_identity_kind = some (codes "explicit");
  agent_key = some (codes "a1_f00");
}

-- A marker as internal wins.
abbrev own : EvaluationAttribution
own = record agent { agent_identity_kind = some (codes "internal") }

abbrev legacy : EvaluationAttribution
legacy = record { is_external = none; agent_identity_kind = none; agent_key = none }

abbrev records : List EvaluationAttribution
records = agent ∷ own ∷ agent ∷ legacy ∷ []

test_cohorts :
    (evaluation_cohort agent ≡ identified_external)
    × (evaluation_cohort own ≡ internal)
    × (evaluation_cohort legacy ≡ unattributed)
    × (count_identified_external_agents records ≡ 1)
unfolding evaluation_cohort count_identified_external_agents
test_cohorts = (refl, refl, refl, refl)

build_evaluation_attribution-counts_example :
    let c = counts (λ r. r) records in
    (c.total ≡ c.internals + c.anonymous + c.identified + c.others)
    × (c.external ≡ c.anonymous + c.identified)
    × (c.internals ≡ length (of_cohort (λ r. r) internal records))
    × (c.anonymous ≡ length (of_cohort (λ r. r) anonymous_external records))
    × (c.identified ≡ length (of_cohort (λ r. r) identified_external records))
    × (c.others ≡ length (of_cohort (λ r. r) unattributed records))
    × All (λ r. Fits r (evaluation_cohort r)) records
build_evaluation_attribution-counts_example = build_evaluation_attribution-counts (λ r. r) records

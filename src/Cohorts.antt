-- ===== src/Cohorts.antt =====
-- src/domain/evaluation-metric-scopes.ts: the cohorts by which the evaluations are counted. `null` and
-- a missing field are both `none`.
pub mod Kinds
pub mod Laws
use directory.Common.{
  ℕ, Bool, true, false, not, ◌&&◌, ◌||◌, Option, none, some, List, [], ◌∷◌, ◌++◌, map, filter,
  unique, length, if◌then◌else◌, ◌==◌, text_eq, nat_beq, Text, codes, is_empty, or_else,
}
use directory.Search.{trim}

pub record EvaluationAttribution : Type 0 where
  pub is_external : Option Bool
  pub agent_identity_kind : Option Text
  pub agent_key : Option Text

pub data EvaluationCohort : Type 0 where
  internal anonymous_external identified_external unattributed : EvaluationCohort

abbrev pub cohort_tag : EvaluationCohort → ℕ
cohort_tag internal = 0
cohort_tag anonymous_external = 1
cohort_tag identified_external = 2
cohort_tag unattributed = 3

abbrev pub is_kind : Option Text → Text → Bool
is_kind none k = false
is_kind (some s) k = s == k

abbrev pub is_marked : Option Bool → Bool
is_marked (some b) = b
is_marked none = false

abbrev pub is_unmarked : Option Bool → Bool
is_unmarked (some b) = not b
is_unmarked none = false

unfoldable pub has_key : Option Text → Bool
unfolding trim
has_key none = false
has_key (some s) = not (is_empty (trim s))

unfoldable pub evaluation_cohort : EvaluationAttribution → EvaluationCohort
unfolding has_key
evaluation_cohort r =
    if is_unmarked r.is_external || is_kind r.agent_identity_kind (codes "internal")
    then internal
    else if not (is_marked r.is_external)
    then unattributed
    else if is_kind r.agent_identity_kind (codes "anonymous")
    then anonymous_external
    else if is_kind r.agent_identity_kind (codes "explicit") && has_key r.agent_key
    then identified_external
    else unattributed

abbrev pub in_cohort : EvaluationCohort → EvaluationAttribution → Bool
in_cohort c r = nat_beq (cohort_tag (evaluation_cohort r)) (cohort_tag c)

unfoldable pub count_identified_external_agents : List EvaluationAttribution → ℕ
unfolding evaluation_cohort
count_identified_external_agents records = length (
    unique (
      map (λ (r : EvaluationAttribution). or_else r.agent_key [])
        (filter (in_cohort identified_external) records)))

pub record Groups (R : Type 0) : Type 0 where
  pub internals : List R
  pub anonymous : List R
  pub identified : List R
  pub others : List R

pub record EvaluationMetricScopes (S : Type 0) : Type 0 where
  pub total : S
  pub external : S
  pub internals : S
  pub anonymous : S
  pub identified : S
  pub others : S

module _ {R : Type 0} (attribution : R → EvaluationAttribution) where
  -- `groups[cohort].push(record)`
  abbrev pub push : EvaluationCohort → R → Groups R → Groups R
  push internal r g = record g { internals = g.internals ++ r ∷ [] }
  push anonymous_external r g = record g { anonymous = g.anonymous ++ r ∷ [] }
  push identified_external r g = record g { identified = g.identified ++ r ∷ [] }
  push unattributed r g = record g { others = g.others ++ r ∷ [] }

  unfoldable pub group_all : Groups R → List R → Groups R
  unfolding evaluation_cohort
  group_all g [] = g
  group_all g (r ∷ rs) = group_all (push (evaluation_cohort (attribution r)) r g) rs

  unfoldable pub build_evaluation_attribution :
      {S : Type 0} → (List R → S) → List R → EvaluationMetricScopes S
  unfolding group_all
  build_evaluation_attribution summarize records =
      let g =
        group_all (record { internals = []; anonymous = []; identified = []; others = [] })
          records in
      record {
        total = summarize records;
        external = summarize (g.anonymous ++ g.identified);
        internals = summarize g.internals;
        anonymous = summarize g.anonymous;
        identified = summarize g.identified;
        others = summarize g.others;
      }

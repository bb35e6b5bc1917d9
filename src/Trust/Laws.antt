-- ===== src/Trust/Laws.antt =====
-- Bounds of the trust profile, and what moves it.
use directory.Common.{ℕ, ◌*◌, ◌/◌, ◌≤◌, Bool, true, false, Option, List, [], ◌∷◌, arith, length}
use directory.Types.{CheckType}
use directory.Types.Records.{VerificationCheckRecord, OwnershipMethod}
use directory.Store.{UsageStats}
use directory.Trust.{
  one, latest_of, points, pass_ratio, sum_points, ownership_score, usage_score,
  compute_trust_profile,
}

points-le : (o : Option VerificationCheckRecord) → points o ≤ 2
unfolding points
points-le o = ground arith

sum_points-le :
    (checks : List VerificationCheckRecord) (types : List CheckType)
    → sum_points checks types ≤ 2 * length types
unfolding sum_points
sum_points-le checks [] = omega arith
sum_points-le checks (type ∷ types) =
    omega (arith, points-le (latest_of type checks), sum_points-le checks types)

three :
    (checks : List VerificationCheckRecord) (a b c : CheckType)
    → pass_ratio checks (a ∷ b ∷ c ∷ []) ≤ one
unfolding pass_ratio
three checks a b c = omega (
  arith,
  points-le (latest_of a checks),
  points-le (latest_of b checks),
  points-le (latest_of c checks),
)

single : (checks : List VerificationCheckRecord) (a : CheckType) → pass_ratio checks (a ∷ []) ≤ one
unfolding pass_ratio
single checks a = omega (arith, points-le (latest_of a checks))

ownership-le :
    (v : Bool) (m : Option OwnershipMethod)
    → (35 * one / 100 ≤ ownership_score v m) × (ownership_score v m ≤ one)
unfolding ownership_score
ownership-le v m = ground arith

ownership_score-verified :
    (m n : Option OwnershipMethod) → ownership_score false n ≤ ownership_score true m
unfolding ownership_score
ownership_score-verified m n = ground arith

module _ (log10 : ℕ → ℕ) where
  usage-le : (u : UsageStats) → (20 * one / 100 ≤ usage_score log10 u) × (usage_score log10 u ≤ one)
  unfolding usage_score
  usage-le u = ground arith

  module _ (v : Bool) (m : Option OwnershipMethod) (checks : List VerificationCheckRecord)
      (u : UsageStats) where
    -- Whatever the checks, the usage and the logarithm, the overall score lies between 0.0725
    -- and 1.
    pub compute_trust_profile_bounds :
        (725 ≤ (compute_trust_profile log10 v m checks u).overall_score)
        × ((compute_trust_profile log10 v m checks u).overall_score ≤ 10000)
    unfolding compute_trust_profile
    compute_trust_profile_bounds =
        let a =
          three checks CheckType.endpoint_availability CheckType.latency CheckType.error_rate in
        let c =
          three checks CheckType.mcp_handshake CheckType.tools_list CheckType.schema_consistency in
        let t = single checks CheckType.tls_security in omega (arith, ownership-le v m, usage-le u)

    -- Verifying the provider's ownership, by whatever method, never lowers the overall score.
    pub compute_trust_profile_verified :
        (n : Option OwnershipMethod)
        → (compute_trust_profile log10 false n checks u).overall_score
          ≤ (compute_trust_profile log10 true m checks u).overall_score
    unfolding compute_trust_profile
    compute_trust_profile_verified n = let h = ownership_score-verified m n in omega arith

    -- With no check of any type recorded the overall score is at most 0.25.
    pub compute_trust_profile_unchecked :
        (compute_trust_profile log10 v m [] u).overall_score ≤ 2500
    unfolding compute_trust_profile pass_ratio sum_points points latest_of
    compute_trust_profile_unchecked = omega (arith, ownership-le v m, usage-le u)

-- ===== src/Trust.antt =====
-- src/domain/trust.ts: the trust profile of a tool.
-- The source computes in doubles. Here a score is a whole number of units, `one` to the score 1;
-- six divides `one`, so every score but that of usage is exact, and `to_score` rounds as
-- `toFixed(4)`. `Math.log10` is irrational and enters as the parameter `log10`, in units.
pub mod Laws
use directory.Common.{
  ℕ, ◌+◌, ◌*◌, ◌/◌, min, Bool, true, false, String, Option, none, some, List, [], ◌∷◌,
  if◌then◌else◌, ◌==◌, nat_eq, find, length,
}
use directory.Types.{CheckType, CheckStatus, check_type_eq, check_status_eq}
use directory.Types.Records.{
  VerificationCheckRecord, TrustProfile, OwnershipMethod, ProviderRecord, MemoryTool,
}
use directory.Store.{
  Store, UsageStats, usage_stats, tool_of_id, with_usage, week_ms, get_tool_by_id,
  get_provider_by_slug,
}
use directory.Store.Evidence.{list_verification_checks, upsert_trust_profile}

abbrev pub one : ℕ
one = 6000000

-- `latestByType.get(type)`: the first check of the type, the list being newest first.
unfoldable pub latest_of : CheckType → List VerificationCheckRecord → Option VerificationCheckRecord
latest_of type checks = find (λ (c : VerificationCheckRecord). c.check_type == type) checks

abbrev status_points : CheckStatus → ℕ
status_points CheckStatus.pass = 2
status_points CheckStatus.warn = 1
status_points _ = 0

-- Half points: 2 for a pass, 1 for a warning.
unfoldable pub points : Option VerificationCheckRecord → ℕ
points none = 0
points (some check) = status_points check.status

sum_points : List VerificationCheckRecord → List CheckType → ℕ
sum_points checks [] = 0
sum_points checks (type ∷ types) = points (latest_of type checks) + sum_points checks types

unfoldable pub pass_ratio : List VerificationCheckRecord → List CheckType → ℕ
unfolding sum_points points
pass_ratio checks [] = 0
pass_ratio checks (type ∷ types) =
    sum_points checks (type ∷ types) * one / (2 * length (type ∷ types))

abbrev method_score : Option OwnershipMethod → ℕ
method_score (some OwnershipMethod.first_party) = one
method_score (some OwnershipMethod.dns_txt) = 95 * one / 100
method_score (some OwnershipMethod.github_bio) = 90 * one / 100
method_score _ = 80 * one / 100

unfoldable pub ownership_score : Bool → Option OwnershipMethod → ℕ
ownership_score verified method = if verified then method_score method else 35 * one / 100

-- In units to ten-thousandths.
abbrev pub to_score : ℕ → ℕ
to_score units = (units * 20000 + one) / (2 * one)

module _ (log10 : ℕ → ℕ) where
  unfoldable pub usage_score : UsageStats → ℕ
  usage_score usage =
      if usage.invocations == 0
      then 20 * one / 100
      else min one (
          30 * one / 100
          + log10 (usage.invocations + 1) / 4
          + usage.successes * (40 * one / 100) / usage.invocations)

  unfoldable pub compute_trust_profile :
      Bool → Option OwnershipMethod → List VerificationCheckRecord → UsageStats → TrustProfile
  compute_trust_profile verified method checks usage =
      let ownership = ownership_score verified method in
      let availability =
        pass_ratio checks
          (CheckType.endpoint_availability ∷ CheckType.latency ∷ CheckType.error_rate ∷ []) in
      let compatibility =
        pass_ratio checks
          (CheckType.mcp_handshake ∷ CheckType.tools_list ∷ CheckType.schema_consistency ∷ []) in
      let security = pass_ratio checks (CheckType.tls_security ∷ []) in
      let used = usage_score usage in
      record {
        ownership_score = to_score ownership;
        availability_score = to_score availability;
        compatibility_score = to_score compatibility;
        security_score = to_score security;
        usage_score = to_score used;
        overall_score = to_score (
            (ownership * 15 + availability * 30 + compatibility * 25 + security * 20 + used * 10)
            / 100);
      }

  abbrev method_of : Option ProviderRecord → Bool → Option OwnershipMethod
  method_of provider verified = elim provider [
    | none ↦ if verified then some OwnershipMethod.generic else none
    | some p ↦ elim p.metadata.ownership_method [
      | none ↦ if verified then some OwnershipMethod.generic else none
      | some m ↦ some m
    ]
  ]

  unfoldable pub refresh_trust_for_tool : ℕ → Store → String → Store × Option TrustProfile
  unfolding compute_trust_profile
  refresh_trust_for_tool now s tool_id = elim (get_tool_by_id now s tool_id) [
    | none ↦ (s, none)
    | some tool ↦
        let profile =
          compute_trust_profile tool.provider.verified
            (method_of (get_provider_by_slug s tool.provider.slug) tool.provider.verified)
            (list_verification_checks s tool_id 50) (usage_stats now s tool_id week_ms) in
        (upsert_trust_profile now s tool_id profile, some profile)
  ]

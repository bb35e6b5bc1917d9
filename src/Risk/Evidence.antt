-- ===== src/Risk/Evidence.antt =====
-- The evidence of src/domain/risk-evaluation.ts: the latest checks, and how complete they are.
use directory.Common.{
  ℕ, ◌+◌, ◌*◌, max, min, ◌/◌, Bool, true, false, not, ◌||◌, Option, none, some, List, [], ◌∷◌, ◌++◌,
  ltb, leb, if◌then◌else◌, ◌==◌, nat_eq, find, filter, map, length, is_some, or_else,
}
use directory.Types.{
  ToolStatus, ToolProtocol, CheckType, CheckStatus, check_type_eq, check_status_eq,
  endpoint_availability, mcp_handshake, tools_list, schema_consistency, tls_security,
}
use directory.Types.Records.{MemoryTool, VerificationCheckRecord}
use directory.Store.{to_fixed4}
use directory.Risk.Terms.{
  RiskEvidence, Unknown, missing_check, provider_ownership, catalog_lifecycle, observed_usage, pass,
  warn, fail, unknown, check,
}

abbrev pub risk_evidence_max_age_ms : ℕ
risk_evidence_max_age_ms = 24 * 60 * 60 * 1000

-- `new Date(a).getTime() > new Date(b).getTime()`, false where either is NaN
abbrev pub later : Option ℕ → Option ℕ → Bool
later (some a) (some b) = ltb b a
later (some a) none = false
later none b = false

-- One round of the loop on the map, whose values stay in the order of insertion.
unfoldable pub record_latest :
    VerificationCheckRecord → List VerificationCheckRecord → List VerificationCheckRecord
record_latest c [] = c ∷ []
record_latest c (e ∷ l) =
    if e.check_type == c.check_type
    then (if later c.checked_at e.checked_at then c else e) ∷ l
    else e ∷ record_latest c l

unfoldable pub latest_from :
    List VerificationCheckRecord → List VerificationCheckRecord → List VerificationCheckRecord
unfolding record_latest
latest_from l [] = l
latest_from l (c ∷ checks) = latest_from (record_latest c l) checks

unfoldable pub latest_checks : List VerificationCheckRecord → List VerificationCheckRecord
unfolding latest_from
latest_checks checks = latest_from [] checks

-- `latest.get(type)`
abbrev pub latest_get : CheckType → List VerificationCheckRecord → Option VerificationCheckRecord
latest_get type l = find (λ (c : VerificationCheckRecord). c.check_type == type) l

-- `now - checked_at > MAX_AGE`, false for NaN
abbrev pub is_older : ℕ → Option ℕ → Bool
is_older now none = false
is_older now (some at) = ltb (at + risk_evidence_max_age_ms) now

-- `now - checked_at <= MAX_AGE`, false for NaN
abbrev pub is_recent : ℕ → Option ℕ → Bool
is_recent now none = false
is_recent now (some at) = leb now (at + risk_evidence_max_age_ms)

unfoldable pub check_evidence : VerificationCheckRecord → ℕ → RiskEvidence
check_evidence c now =
    let stale = not (is_some c.checked_at) || is_older now c.checked_at in
    record {
      kind = check c.check_type;
      status =
          if stale
          then warn
          else if c.status == CheckStatus.pass
          then pass
          else if c.status == CheckStatus.warn
          then warn
          else fail;
      observed_at = c.checked_at;
    }

unfoldable pub required_checks : ToolProtocol → List CheckType
required_checks ToolProtocol.mcp =
    endpoint_availability ∷ mcp_handshake ∷ tools_list ∷ schema_consistency ∷ tls_security ∷ []
required_checks _ = endpoint_availability ∷ tls_security ∷ []

abbrev pub provider_evidence : MemoryTool → RiskEvidence
provider_evidence tool = record {
  kind = provider_ownership;
  status = if tool.provider.verified then pass else unknown;
  observed_at = none;
}

abbrev pub lifecycle_evidence : MemoryTool → RiskEvidence
lifecycle_evidence tool = record {
  kind = catalog_lifecycle;
  status = elim tool.status [ ToolStatus.active ↦ pass | ToolStatus.suspended ↦ fail | _ ↦ warn ];
  observed_at = some tool.updated_at;
}

unfoldable pub check_evidence_of : List VerificationCheckRecord → ℕ → CheckType → RiskEvidence
unfolding check_evidence
check_evidence_of latest now type = elim (latest_get type latest) [
  | some c ↦ check_evidence c now
  | none ↦ record { kind = check type; status = unknown; observed_at = none }
]

-- The unknowns that the loop over the required checks adds.
unfoldable pub missing_checks : List VerificationCheckRecord → List CheckType → List Unknown
missing_checks latest [] = []
missing_checks latest (type ∷ types) =
    let rest = missing_checks latest types in
    if is_some (latest_get type latest) then rest else missing_check type ∷ rest

abbrev pub usage_evidence : MemoryTool → RiskEvidence
usage_evidence tool = record {
  kind = observed_usage;
  status =
      if tool.usage.invocations_7d == 0
      then unknown
      else if leb 9000 (or_else tool.usage.success_rate_7d 0)
      then pass
      else warn;
  observed_at = none;
}

unfoldable pub evidence_of : MemoryTool → List VerificationCheckRecord → ℕ → List RiskEvidence
unfolding check_evidence_of required_checks
evidence_of tool latest now =
    provider_evidence tool
    ∷ lifecycle_evidence tool
    ∷ (map (check_evidence_of latest now) (required_checks tool.protocol)
        ++ usage_evidence tool ∷ [])

abbrev pub is_usage : RiskEvidence → Bool
is_usage e = elim e.kind [ observed_usage ↦ true | _ ↦ false ]

abbrev pub is_known : RiskEvidence → Bool
is_known e = elim e.status [ unknown ↦ false | _ ↦ true ]

unfoldable pub evidence_coverage : List RiskEvidence → ℕ
evidence_coverage evidence =
    let evaluated = filter (λ e. not (is_usage e)) evidence in
    to_fixed4 (length (filter is_known evaluated)) (max 1 (length evaluated))

-- In units of 1/100000 up to the rounding of `toFixed(4)`.
unfoldable pub confidence_of : ℕ → Bool → ℕ → ℕ
confidence_of coverage verified invocations =
    let raw =
      coverage * 7 + (if verified then 15000 else 0) + (if leb 3 invocations then 15000 else 0) in
    (max 10000 (min 99000 raw) + 5) / 10

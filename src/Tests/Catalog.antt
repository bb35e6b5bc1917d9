-- ===== src/Tests/Catalog.antt =====
-- Registration, the verification queue, slugs and trust at concrete inputs.
use directory.Common.{
  All, String, string_eq, ◌==◌, ◌≢◌, length, ◌≤◌, ◌≡◌, ◌⊎◌, ◌++◌, refl, true, false, none, some,
  List, [], ◌∷◌, inl, codes, In, arith,
}
use directory.Types.{ToolStatus, mcp_stdio}
use directory.Types.Records.{MemoryTool, RegisterToolRequest, EnsureToolOptions, OwnershipMethod}
use directory.Slug.{slugify}
use directory.Store.{
  empty, get, update, tool_of_slug, ok, throws, already_registered, stdio_not_accepted, UsageStats,
}
use directory.Store.Register.{register_tool, ensure_tool, is_stdio, transport_of}
use directory.Store.Register.Laws.{register_tool_lem}
use directory.Store.Invariant.{IsValid}
use directory.Store.Steps.{Op, register, claim, complete, verify_provider, step, run, run-IsValid}
use directory.Store.Queue.{is_due, comes_first, claim_tools_for_verification}
use directory.Store.Queue.Order.{next_time, claim_complete}
use directory.Store.Leases.{claim_exclusive}
use directory.Common.Sort.{sort_by}
use directory.Trust.{compute_trust_profile, ownership_score, usage_score, pass_ratio, latest_of}
use directory.Store.Providers.{set_provider_verified}
use directory.Trust.Laws.{compute_trust_profile_verified}
use directory.Tests.Data.{ids, request, tool, catalog, all_checks, no_log}

abbrev options : EnsureToolOptions
options = record { status = none; provider_verified = none }

abbrev stdio_request : RegisterToolRequest
stdio_request = record request { transport = some mcp_stdio; endpoint = "https://other.example" }

-- What the catalog's methods compute through.
methods : Unit {0}
unfolding register_tool ensure_tool slugify get update run step claim_tools_for_verification is_due
    comes_first sort_by
methods = tt

test_register_tool :
    (tool_of_slug (codes "docs") (register_tool ids 100 request empty).0
      ≡ some (record tool { provider = record tool.provider { verified = false } }))
    × ((register_tool ids 100 request catalog).1 ≡ throws already_registered)
    × ((register_tool ids 100 stdio_request empty).1 ≡ throws stdio_not_accepted)
unfolding methods
test_register_tool = (refl, refl, refl)

register_tool_lem_example :
    let r = register_tool ids 100 request empty in
    let slug = slugify (codes "Docs") in
    ((t : MemoryTool) × (tool_of_slug slug empty ≡ some t)
      × (r ≡ (empty, throws already_registered)))
    ⊎ ((tool_of_slug slug empty ≡ none)
        × (is_stdio (transport_of request) ≡ true)
        × (r ≡ (empty, throws stdio_not_accepted)))
    ⊎ ((t : MemoryTool) × (tool_of_slug slug empty ≡ none)
        × (is_stdio (transport_of request) ≡ false)
        × (r.1 ≡ ok t)
        × (tool_of_slug slug r.0 ≡ some t)
        × (t.status ≡ ToolStatus.pending)
        × (t.trust ≡ none)
        × (r.0.tools ≡ [] ++ t ∷ []))
register_tool_lem_example = register_tool_lem ids 100 request empty

abbrev ops : List Op
ops =
    register ids 100 request
    ∷ verify_provider (codes "example") true (λ m. m)
    ∷ claim 200 5 60000
    ∷ []

test_run :
    tool_of_slug (codes "docs") (run ops empty)
    ≡ some (record tool { verify_lease_until = some 60200 })
unfolding methods set_provider_verified
test_run = refl

run-IsValid_example : IsValid (run ops empty)
run-IsValid_example = run-IsValid ops

test_claim :
    ((claim_tools_for_verification 200 catalog 5 60000).1 ≡ "t1" ∷ [])
    × ((claim_tools_for_verification 300
          (claim_tools_for_verification 200 catalog 5 60000).0
          5
          60000).1
        ≡ [])
unfolding methods
test_claim = (refl, refl)

distinct : (a b : String) → (a == b) ≡ false → a ≢ b
distinct a b h e = let k : (a == b) ≡ true = (string_eq.same_iff a b).1 e in cc

abbrev between : List Op
between =
    claim 300 5 900000
    ∷ complete 310 "t2" true
    ∷ register (record { tool = "t9"; endpoint = "e9"; provider = "p9" }) 400 request
    ∷ verify_provider (codes "example") true (λ m. m)
    ∷ []

claim_exclusive_example :
    In "t1"
      (claim_tools_for_verification 60199
        (run between (claim_tools_for_verification 200 catalog 5 60000).0)
        9
        1).1
    → ⊥
unfolding methods
claim_exclusive_example =
    claim_exclusive 200 catalog 5 60000 60199 9 1 "t1" between (omega arith)
      (omega arith, (distinct "t2" "t1" refl, (distinct "t9" "t1" refl, (tt, tt)))) (inl refl)

claim_complete_example :
    let ids = (claim_tools_for_verification 200 catalog 5 60000).1 in
    In "t1" ids
    ⊎ ((length ids ≡ 5)
        × All
            (λ id.
              (u : MemoryTool) × In u catalog.tools × (u.id ≡ id) × (next_time u ≤ next_time tool))
            ids)
claim_complete_example =
    claim_complete 200 catalog 5 60000 tool (inl refl) (inl refl, λ at e. cc, λ at e. cc)

abbrev usage : UsageStats
usage = record { invocations = 10; successes = 9 }

test_trust :
    (compute_trust_profile no_log true
      (some OwnershipMethod.dns_txt)
      all_checks
      usage).overall_score
    ≡ 7585
unfolding compute_trust_profile ownership_score usage_score pass_ratio latest_of
test_trust = refl

compute_trust_profile_verified_example :
    (compute_trust_profile no_log false none all_checks usage).overall_score
    ≤ (compute_trust_profile no_log true
        (some OwnershipMethod.dns_txt)
        all_checks
        usage).overall_score
compute_trust_profile_verified_example =
    compute_trust_profile_verified no_log true (some OwnershipMethod.dns_txt) all_checks usage none

-- ===== src/Verification/Activation.antt =====
-- What it takes for `verifyTool` to make a tool active, and to take it out of circulation.
use directory.Common.{
  ℕ, ◌+◌, ◌≡◌, ◌≢◌, sym, ap, ◌∙◌, true, String, Option, none, some, arith, if◌then◌else◌,
}
use mathlib.Core.Option
use directory.Types.{ToolStatus}
use directory.Types.Records.{MemoryTool, ProbeMethod}
use directory.Lifecycle.{next_lifecycle_status}
use directory.Lifecycle.Laws.{
  Health, Attempt, attempt, is_success, next_lifecycle_status-eq-active_iff,
}
use directory.Store.{Store, tool_of_id}
use directory.Verification.{Answers, run_checks_for_endpoint, is_security_isolation_failure}
use directory.Verification.Admission.{IsAdmitted, meets_activation_criteria_iff}
use directory.Verification.Run.{verify_tool, checks_of, probe_url}
use directory.Verification.Refinement.{health_of, attempt_of, verify_tool-attempt}

attempt-active :
    (h : Health) (a : Attempt)
    → (attempt h a).status ≡ ToolStatus.active
    → h.status ≢ ToolStatus.active
    → a.admitted ≡ true
unfolding attempt
attempt-active h a e n = ground (
  arith,
  next_lifecycle_status-eq-active_iff h.status (is_success a) a.security_fail
      (if is_success a then 0 else h.fail_count + 1)
      (if is_success a then h.success_streak + 1 else 0),
)

attempt-isolated :
    (h : Health) (a : Attempt)
    → a.security_fail ≡ true
    → (attempt h a).status ≡ ToolStatus.suspended
unfolding attempt next_lifecycle_status
attempt-isolated h a e = ground arith

module _ (log10 : ℕ → ℕ) (net : String → Option ProbeMethod → Answers) (fresh : ℕ → String) where
  health_after :
      (now : ℕ) (s : Store) (id : String) (t t' : MemoryTool)
      → tool_of_id id s ≡ some t
      → tool_of_id id (verify_tool log10 net fresh now s id).0 ≡ some t'
      → health_of t' ≡ attempt (health_of t) (attempt_of log10 net fresh t)
  health_after now s id t t' before after =
      cc (ap (Option.map health_of) after, verify_tool-attempt log10 net fresh now s id t before)

  -- What the network answers at the URL that `verifyTool` probes for this tool.
  unfoldable pub answers_for : MemoryTool → Answers
  answers_for t =
      net (probe_url t.verification t.endpoint_url)
        (elim t.verification [ none ↦ none | some c ↦ c.expected_method ])

  -- A tool that was not active and is active after `verifyTool` has a verified provider, a probe
  -- URL that resolved to public addresses over https, and an endpoint that did what its transport
  -- asks for, in this very run.
  pub verify_tool-active :
      (now : ℕ) (s : Store) (id : String) (t t' : MemoryTool)
      → tool_of_id id s ≡ some t
      → t.status ≢ ToolStatus.active
      → tool_of_id id (verify_tool log10 net fresh now s id).0 ≡ some t'
      → t'.status ≡ ToolStatus.active
      → IsAdmitted t.provider.verified t.transport (answers_for t)
  unfolding attempt_of checks_of answers_for
  verify_tool-active now s id t t' before n after act =
      let same = health_after now s id t t' before after in
      (meets_activation_criteria_iff t.provider.verified t.transport _).0 (
        attempt-active (health_of t) (attempt_of log10 net fresh t)
          (sym (ap (λ (h : Health). h.status) same) ∙ act) n)

  -- Whatever its status was, a tool whose checks report a TLS failure is suspended by `verifyTool`.
  pub verify_tool-isolated :
      (now : ℕ) (s : Store) (id : String) (t t' : MemoryTool)
      → tool_of_id id s ≡ some t
      → is_security_isolation_failure (run_checks_for_endpoint t.transport (answers_for t)) ≡ true
      → tool_of_id id (verify_tool log10 net fresh now s id).0 ≡ some t'
      → t'.status ≡ ToolStatus.suspended
  unfolding attempt_of checks_of answers_for
  verify_tool-isolated now s id t t' before bad after =
      let same = health_after now s id t t' before after in
      ap (λ (h : Health). h.status) same
      ∙ attempt-isolated (health_of t) (attempt_of log10 net fresh t) bad

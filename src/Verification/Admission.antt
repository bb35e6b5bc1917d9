-- ===== src/Verification/Admission.antt =====
-- When an endpoint is admitted and when it is isolated, in terms of what the network answered.
use directory.Common.{◌≤◌, ◌<◌, ◌≡◌, ◌≢◌, ◌↔◌, ◌⊎◌, Bool, true, false, arith}
use directory.Types.{EndpointTransport}
use directory.Verification.{
  McpSession, refused, listing_failed, listed, resolved, Probe, responded, unreachable, Answers,
  check_of, run_checks_for_endpoint, meets_activation_criteria, is_security_isolation_failure,
  is_tls_error_message,
}

abbrev Listed : McpSession → Type 0
Listed (listed connected elapsed n) = 0 < n
Listed (refused elapsed message) = ⊥
Listed (listing_failed connected elapsed message) = ⊥

abbrev Responded : Probe → Type 0
Responded (responded status elapsed) = (200 ≤ status) × (status < 400)
Responded (unreachable message elapsed) = ⊥

-- The endpoint did what its transport asks for: over MCP it listed a tool, else it answered with a
-- 2xx or 3xx status.
abbrev pub Reached : EndpointTransport → Answers → Type 0
Reached EndpointTransport.mcp_stdio net = ⊥
Reached EndpointTransport.mcp_http net = Listed net.session
Reached EndpointTransport.http net = Responded net.probe
Reached EndpointTransport.a2a net = Responded net.probe

abbrev pub IsAdmitted : Bool → EndpointTransport → Answers → Type 0
IsAdmitted v transport net = (v ≡ true) × (net.resolution ≡ resolved true) × Reached transport net

-- The activation criteria hold of the checks that were run exactly when the provider is verified,
-- the URL resolved to public addresses over https, and the endpoint did what its transport asks
-- for: an MCP server completed the handshake and listed at least one tool, any other answered with
-- a 2xx or 3xx status. A stdio transport is never admitted.
pub meets_activation_criteria_iff :
    (v : Bool) (transport : EndpointTransport) (net : Answers)
    → (meets_activation_criteria v transport (run_checks_for_endpoint transport net) ≡ true)
      ↔ IsAdmitted v transport net
unfolding meets_activation_criteria run_checks_for_endpoint check_of
meets_activation_criteria_iff v EndpointTransport.mcp_stdio net = ground arith
meets_activation_criteria_iff v EndpointTransport.mcp_http net = ground arith
meets_activation_criteria_iff v EndpointTransport.http net = ground arith
meets_activation_criteria_iff v EndpointTransport.a2a net = ground arith

abbrev pub TlsFailed : EndpointTransport → Answers → Type 0
TlsFailed EndpointTransport.mcp_http net = elim net.session [
  | refused elapsed message ↦ is_tls_error_message message ≡ true
  | _ ↦ ⊥
]
TlsFailed _ net = elim net.probe [
  | responded status elapsed ↦ status ≡ 0
  | unreachable message elapsed ↦ Unit
]

-- The checks isolate a tool exactly when its transport is stdio, its URL is refused or is not
-- https, its MCP handshake failed with a TLS error, or, for another transport, no response came.
pub is_security_isolation_failure_iff :
    (transport : EndpointTransport) (net : Answers)
    → (is_security_isolation_failure (run_checks_for_endpoint transport net) ≡ true) ↔ (
        (transport ≡ EndpointTransport.mcp_stdio)
        ⊎ (net.resolution ≢ resolved true)
        ⊎ TlsFailed transport net)
unfolding is_security_isolation_failure run_checks_for_endpoint check_of
is_security_isolation_failure_iff EndpointTransport.mcp_stdio net = ground arith
is_security_isolation_failure_iff EndpointTransport.mcp_http net = ground arith
is_security_isolation_failure_iff EndpointTransport.http net = ground arith
is_security_isolation_failure_iff EndpointTransport.a2a net = ground arith

-- Checks that admit a tool never isolate it.
pub admitted-not_isolated :
    (v : Bool) (transport : EndpointTransport) (net : Answers)
    → meets_activation_criteria v transport (run_checks_for_endpoint transport net) ≡ true
    → is_security_isolation_failure (run_checks_for_endpoint transport net) ≡ false
unfolding meets_activation_criteria is_security_isolation_failure
admitted-not_isolated v transport net h = ground arith

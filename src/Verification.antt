-- ===== src/Verification.antt =====
-- src/domain/verification.ts: the checks of an endpoint, and `verifyTool`.
-- What the network answers is data: `Resolution` (resolvePublicHttpUrl), `McpSession` (the MCP
-- client's connect and listTools) and `Probe` (pinnedRequestUrl). Of a result's evidence the model
-- keeps the error text, which the code reads again.
pub mod Run
pub mod Admission
pub mod Refinement
pub mod Activation
use directory.Common.{
  ℕ, ◌+◌, Bool, true, false, not, ◌&&◌, ◌||◌, String, Option, none, some, List, [], ◌∷◌, ◌++◌,
  if◌then◌else◌, ◌==◌, nat_eq, ltb, leb, find, map, Text, codes, has_part, or_else,
}
use directory.Types.{
  EndpointTransport, CheckType, CheckStatus, check_type_eq, check_status_eq, endpoint_availability,
  mcp_handshake, tools_list, schema_consistency, latency, error_rate, tls_security, pass, fail,
  warn, error,
}

pub record CheckResult : Type 0 where
  pub check_type : CheckType
  pub status : CheckStatus
  pub latency_ms : Option ℕ
  pub error : Option Text

unfoldable pub check_of : List CheckResult → CheckType → Option CheckResult
check_of results type = find (λ (r : CheckResult). r.check_type == type) results

-- `check?.status === "pass"`
abbrev pub is_pass : Option CheckResult → Bool
is_pass none = false
is_pass (some r) = r.status == pass

-- `transport.startsWith("mcp")`
abbrev pub is_mcp : EndpointTransport → Bool
is_mcp EndpointTransport.mcp_http = true
is_mcp EndpointTransport.mcp_stdio = true
is_mcp _ = false

unfoldable pub meets_activation_criteria : Bool → EndpointTransport → List CheckResult → Bool
meets_activation_criteria provider_verified transport results =
    if not provider_verified
    then false
    else if not (is_pass (check_of results tls_security))
    then false
    else if is_mcp transport
    then is_pass (check_of results mcp_handshake) && is_pass (check_of results tools_list)
    else is_pass (check_of results endpoint_availability)

abbrev pub is_success_http_status : ℕ → Bool
is_success_http_status status = leb 200 status && ltb status 400

fold_case : ℕ → ℕ
fold_case c = if leb b'A' c && leb c b'Z' then c + 32 else c

-- The case-insensitive search for one of the words.
unfoldable pub is_tls_error_message : Text → Bool
unfolding fold_case
is_tls_error_message message =
    let m = map fold_case message in
    has_part m (codes "certificate")
    || has_part m (codes "cert_")
    || has_part m (codes "ssl")
    || has_part m (codes "tls")
    || has_part m (codes "unable_to_verify")
    || has_part m (codes "handshake")

unfoldable pub is_security_isolation_failure : List CheckResult → Bool
is_security_isolation_failure results = elim (check_of results tls_security) [
  | none ↦ false
  | some r ↦ r.status == fail
]

-- The MCP client connects (after so many ms) or not, and lists its tools or not.
pub data McpSession : Type 0 where
  refused : (elapsed : ℕ) (message : Text) → McpSession
  listing_failed : (connected elapsed : ℕ) (message : Text) → McpSession
  listed : (connected elapsed tools_count : ℕ) → McpSession

abbrev result : CheckType → CheckStatus → Option ℕ → Option Text → CheckResult
result type status ms message = record {
  check_type = type;
  status = status;
  latency_ms = ms;
  error = message;
}

-- What the `catch` pushes.
abbrev failed_session : ℕ → Text → List CheckResult
failed_session elapsed message =
    result mcp_handshake fail (some elapsed) (some message)
    ∷ result tools_list error none none
    ∷ result schema_consistency error none none
    ∷ []

unfoldable pub run_mcp_protocol_checks : McpSession → List CheckResult
run_mcp_protocol_checks (refused elapsed message) = failed_session elapsed message
run_mcp_protocol_checks (listing_failed connected elapsed message) =
    result mcp_handshake pass (some connected) none ∷ failed_session elapsed message
run_mcp_protocol_checks (listed connected elapsed tools_count) =
    result mcp_handshake pass (some connected) none
    ∷ result tools_list (if ltb 0 tools_count then pass else fail) (some elapsed) none
    ∷ result schema_consistency (if ltb 0 tools_count then pass else warn) (some elapsed) none
    ∷ []

pub data Resolution : Type 0 where
  rejected : Text → Resolution
  resolved : (https : Bool) → Resolution

pub data Probe : Type 0 where
  responded : (status elapsed : ℕ) → Probe
  unreachable : (message : Text) (elapsed : ℕ) → Probe

abbrev handshake_latency : Option CheckResult → Option ℕ
handshake_latency none = none
handshake_latency (some r) = r.latency_ms

abbrev handshake_error : Option CheckResult → Text
handshake_error none = []
handshake_error (some r) = or_else r.error []

-- `!ms ? "fail" : ms <= 2000 ? "pass" : ms <= 5000 ? "warn" : "fail"`
unfoldable pub latency_status : Option ℕ → CheckStatus
latency_status none = fail
latency_status (some ms) =
    if ms == 0 then fail else if leb ms 2000 then pass else if leb ms 5000 then warn else fail

unfoldable pub mcp_checks : McpSession → List CheckResult
unfolding run_mcp_protocol_checks check_of latency_status
mcp_checks session =
    let mcp_results = run_mcp_protocol_checks session in
    let handshake = check_of mcp_results mcp_handshake in
    let passed = is_pass handshake in
    let tls_error = not passed && is_tls_error_message (handshake_error handshake) in
    let ms = handshake_latency handshake in
    mcp_results
    ++ result tls_security (if passed then pass else if tls_error then fail else warn) ms none
      ∷ result endpoint_availability (if passed then pass else fail) ms none
      ∷ result latency (latency_status ms) ms none
      ∷ result error_rate (if passed then pass else fail) ms none
      ∷ []

-- The fields of `availability`.
abbrev probe_status : Probe → ℕ
probe_status (responded status elapsed) = status
probe_status (unreachable message elapsed) = 0

abbrev probe_elapsed : Probe → ℕ
probe_elapsed (responded status elapsed) = elapsed
probe_elapsed (unreachable message elapsed) = elapsed

abbrev probe_ok : Probe → Bool
probe_ok (responded status elapsed) = is_success_http_status status
probe_ok (unreachable message elapsed) = false

abbrev tls_ok : Probe → Bool
tls_ok (responded status elapsed) = true
tls_ok (unreachable message elapsed) = not (is_tls_error_message message)

unfoldable pub api_checks : Probe → List CheckResult
api_checks probe =
    let ms = probe_elapsed probe in
    result tls_security (if tls_ok probe && ltb 0 (probe_status probe) then pass else fail)
      (some ms) none
    ∷ result endpoint_availability (if probe_ok probe then pass else fail) (some ms) none
    ∷ result latency
        (if probe_status probe == 0
          then fail
          else if leb ms 2000
          then pass
          else if leb ms 5000
          then warn
          else fail)
        (some ms) none
    ∷ result error_rate (if probe_ok probe then pass else fail) (some ms) none
    ∷ result mcp_handshake warn none none
    ∷ result tools_list warn none none
    ∷ result schema_consistency warn none none
    ∷ []

-- What the network would answer for one URL.
pub record Answers : Type 0 where
  pub resolution : Resolution
  pub session : McpSession
  pub probe : Probe

abbrev failed_tls : Text → List CheckResult
failed_tls message = result tls_security fail none (some message) ∷ []

unfoldable pub run_checks_for_endpoint : EndpointTransport → Answers → List CheckResult
unfolding mcp_checks api_checks
run_checks_for_endpoint EndpointTransport.mcp_stdio net =
    failed_tls (codes "mcp_stdio_not_supported")
run_checks_for_endpoint transport net = elim net.resolution [
  | rejected message ↦ failed_tls message
  | resolved https ↦
      if not https
      then failed_tls []
      else if is_mcp transport
      then mcp_checks net.session
      else api_checks net.probe
]

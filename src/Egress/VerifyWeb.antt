-- ===== src/Egress/VerifyWeb.antt =====
-- `verifyWeb` and `evidenceFor` of src/verify/verify.ts. The time of the check is left out.
use directory.Common.{
  ℕ, Bool, true, false, not, ◌&&◌, Option, none, some, List, [], ◌∷◌, if◌then◌else◌, ◌==◌, nat_eq,
  text_eq, Text, codes, is_empty, has_part, starts_with,
}
use directory.Slug.{to_lower_case}
use directory.Search.{trim}
use directory.Egress.{
  World, Url, UnsafeUrlError, UrlResolution, resolved, unsafe, resolve_public_http_url,
}
use directory.Egress.Fetch.{
  VerifyWebOptions, FetchOutcome, FetchError, tls_failed, request_failed, Redirect, Trace, is_https,
  fetch_with_guards,
}

pub record VerifyWebRequest : Type 0 where
  pub url : Text
  pub expected_status : ℕ
  pub expected_text : Option Text

pub record VerifyWebChecks : Type 0 where
  pub reachable : Bool
  pub status : Option ℕ
  pub https_valid : Bool
  pub text_found : Bool

pub data ClaimKind : Type 0 where
  reachable status_matches https_valid expected_text_found : ClaimKind

pub record ClaimEvidence : Type 0 where
  pub claim : ClaimKind
  pub passed : Bool

pub record VerifyWebEvidence : Type 0 where
  pub requested_url : Text
  pub final_url : Option Text
  pub status_matched : Bool
  pub expected_text : Option Text
  pub text_matched : Option Bool
  pub tls_requested : Bool
  pub redirects : List Redirect
  pub claims : List ClaimEvidence

pub data WebError : Type 0 where
  rejected : UnsafeUrlError → WebError
  not_fetched : FetchError → WebError
  other_status invalid_certificate not_https text_not_found : WebError

pub record VerifyWebResult : Type 0 where
  pub verified : Bool
  pub checks : VerifyWebChecks
  pub evidence : VerifyWebEvidence
  pub error : Option WebError

abbrev nonempty : Text → Option Text
nonempty s = if is_empty s then none else some s

-- `input.expected_text?.trim() || null`
unfoldable pub expected_text_of : VerifyWebRequest → Option Text
unfolding trim
expected_text_of input = elim input.expected_text [ none ↦ none | some s ↦ nonempty (trim s) ]

abbrev pub is_status : Option ℕ → ℕ → Bool
is_status none expected = false
is_status (some s) expected = s == expected

abbrev text_claim : Option Text → Bool → List ClaimEvidence
text_claim none found = []
text_claim (some s) found = (record { claim = expected_text_found; passed = found }) ∷ []

unfoldable pub evidence_for :
    VerifyWebRequest → VerifyWebChecks → Option Text → List Redirect → VerifyWebEvidence
unfolding expected_text_of to_lower_case
evidence_for input checks final_url redirects =
    let expected = expected_text_of input in
    record {
      requested_url = input.url;
      final_url = final_url;
      status_matched = is_status checks.status input.expected_status;
      expected_text = expected;
      text_matched = elim expected [ none ↦ none | some s ↦ some checks.text_found ];
      tls_requested = starts_with (to_lower_case input.url) (codes "https://");
      redirects = redirects;
      claims =
          (record { claim = ClaimKind.reachable; passed = checks.reachable })
          ∷ (record {
            claim = status_matches;
            passed = is_status checks.status input.expected_status;
          })
          ∷ (record { claim = ClaimKind.https_valid; passed = checks.https_valid })
          ∷ text_claim expected checks.text_found;
    }

-- `error?.includes("exceeded")`, by the texts of the errors.
abbrev pub says_exceeded : Option FetchError → Bool
says_exceeded (some (tls_failed m)) = has_part m (codes "exceeded")
says_exceeded (some (request_failed m)) = has_part m (codes "exceeded")
says_exceeded _ = false

abbrev pub contains : Text → Option Text → Bool
contains body none = true
contains body (some s) = has_part body s

unfoldable pub web_checks_of : VerifyWebRequest → Url → FetchOutcome → VerifyWebChecks
unfolding expected_text_of
web_checks_of input url o = record {
  reachable = o.reachable;
  status = o.status;
  https_valid = is_https url && o.reachable && o.https_valid;
  text_found = contains o.body (expected_text_of input);
}

unfoldable pub is_verified : VerifyWebRequest → Url → FetchOutcome → Bool
unfolding web_checks_of
is_verified input url o =
    let c = web_checks_of input url o in
    o.reachable
    && (o.reachable && is_status o.status input.expected_status)
    && c.https_valid
    && c.text_found
    && not (says_exceeded o.error)

unfoldable pub error_of_checks : VerifyWebRequest → Url → FetchOutcome → Option WebError
unfolding web_checks_of
error_of_checks input url o =
    let c = web_checks_of input url o in
    elim o.error [
      | some e ↦ some (not_fetched e)
      | none ↦
          if not (o.reachable && is_status o.status input.expected_status)
          then some other_status
          else if not c.https_valid
          then some (if is_https url then invalid_certificate else not_https)
          else if not c.text_found
          then some text_not_found
          else none
    ]

unfoldable pub result_of : VerifyWebRequest → Url → FetchOutcome → VerifyWebResult
unfolding web_checks_of is_verified error_of_checks evidence_for
result_of input url o = record {
  verified = is_verified input url o;
  checks = web_checks_of input url o;
  evidence = evidence_for input (web_checks_of input url o) o.final_url o.redirects;
  error = if is_verified input url o then none else error_of_checks input url o;
}

abbrev unchecked : VerifyWebChecks
unchecked = record { reachable = false; status = none; https_valid = false; text_found = false }

unfoldable pub verify_resolved :
    World → VerifyWebRequest → VerifyWebOptions → UrlResolution → Trace VerifyWebResult
unfolding fetch_with_guards result_of evidence_for
verify_resolved w input options (unsafe e) = (
  [],
  record {
    verified = false;
    checks = unchecked;
    evidence = evidence_for input unchecked none [];
    error = some (rejected e);
  },
)
verify_resolved w input options (resolved r) =
    let (contacts, outcome) = fetch_with_guards w options r.url in
    (contacts, result_of input r.url outcome)

-- The URL is resolved at the time 0, and again before it is requested.
unfoldable pub verify_web : World → VerifyWebRequest → VerifyWebOptions → Trace VerifyWebResult
unfolding verify_resolved resolve_public_http_url
verify_web w input options = verify_resolved w input options (resolve_public_http_url w 0 input.url)

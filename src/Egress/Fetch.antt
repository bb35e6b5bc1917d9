-- ===== src/Egress/Fetch.antt =====
-- `readBodyLimited`, `requestPinned` and `fetchWithGuards` of src/verify/verify.ts. The requests that
-- are made are returned beside the outcome; the hop numbered n looks up its name at the time n + 1.
use directory.Common.{
  ℕ, zero, suc, ◌+◌, Bool, true, false, ◌&&◌, ◌||◌, Option, none, some, List, [], ◌∷◌, ◌++◌, map,
  ltb, if◌then◌else◌, ◌==◌, nat_eq, text_eq, Text, codes, any, is_empty, has_part, includes, length,
}
use directory.PredictionMarket.Reference.{lower_ascii}
use directory.Egress.{
  World, Url, IncomingMessage, Failure, Answer, responds, rejects, UnsafeUrlError, unresolved,
  UrlResolution, resolved, unsafe, resolve_public_http_url,
}

pub record PinnedResponse : Type 0 where
  pub status : ℕ
  pub location : Option Text
  pub body : Text

pub data PinnedReply : Type 0 where
  replies : PinnedResponse → PinnedReply
  fails : Failure → PinnedReply

-- `none` where more than `limit` bytes arrive; `total` have arrived so far.
unfoldable pub read_chunks : ℕ → ℕ → List ℕ → List (List ℕ) → Option (List ℕ)
read_chunks limit total bytes [] = some bytes
read_chunks limit total bytes (c ∷ cs) =
    if ltb limit (total + length c)
    then none
    else read_chunks limit (total + length c) (bytes ++ c) cs

unfoldable pub read_body_limited : ℕ → List (List ℕ) → Option (List ℕ)
unfolding read_chunks
read_body_limited limit chunks = read_chunks limit 0 [] chunks

abbrev too_large : Failure
too_large = record { name = codes "Error"; message = codes "Response body exceeded the limit" }

abbrev with_body : World → IncomingMessage → Option (List ℕ) → PinnedReply
with_body w m none = fails too_large
with_body w m (some bytes) =
    replies (record { status = m.status; location = m.location; body = w.utf8 bytes })

unfoldable pub pinned_reply_of : World → ℕ → Answer → PinnedReply
unfolding read_body_limited
pinned_reply_of w limit (rejects f) = fails f
pinned_reply_of w limit (responds m) = with_body w m (read_body_limited limit m.chunks)

-- The request goes to `address`, whatever the name of the URL is.
unfoldable pub request_pinned : World → ℕ → ℕ → Url → Text → PinnedReply
unfolding pinned_reply_of
request_pinned w limit time url address = pinned_reply_of w limit (w.request time url address)

pub record Redirect : Type 0 where
  pub status : ℕ
  pub from : Text
  pub to : Text

pub data FetchError : Type 0 where
  missing_location exceeded_redirects timed_out : FetchError
  tls_failed request_failed : Text → FetchError
  unsafe_url : UnsafeUrlError → FetchError

pub record FetchOutcome : Type 0 where
  pub reachable : Bool
  pub status : Option ℕ
  pub https_valid : Bool
  pub body : Text
  pub final_url : Option Text
  pub redirects : List Redirect
  pub error : Option FetchError

pub record Contact : Type 0 where
  pub time : ℕ
  pub url : Url
  pub address : Text

pub record VerifyWebOptions : Type 0 where
  pub max_body_bytes : ℕ
  pub max_redirects : ℕ

pub data Ended : Type 0 where
  returns : FetchOutcome → Ended
  throws_unsafe : UnsafeUrlError → Ended
  throws : Failure → Ended

abbrev pub Trace : Type 0 → Type 0
Trace A = List Contact × A

abbrev pub is_redirect : ℕ → Bool
is_redirect status = includes (301 ∷ 302 ∷ 303 ∷ 307 ∷ 308 ∷ []) status

abbrev pub is_https : Url → Bool
is_https u = u.protocol == codes "https:"

-- Every outcome that is not a success, with the URL and the redirects so far.
abbrev pub unreachable : Option ℕ → Option Text → List Redirect → FetchError → FetchOutcome
unreachable status final redirects e = record {
  reachable = false;
  status = status;
  https_valid = false;
  body = [];
  final_url = final;
  redirects = redirects;
  error = some e;
}

-- The location, unless it is missing or empty.
abbrev pub location_of : Option Text → Option Text
location_of none = none
location_of (some s) = if is_empty s then none else some s

abbrev pub invalid_location : Failure
invalid_location = record { name = codes "TypeError"; message = codes "Invalid URL" }

-- `continue` with the next URL, or the error of its constructor.
abbrev pub go_on :
    (Url → List Redirect → Trace Ended) → ℕ → Url → List Redirect → Option Url → Trace Ended
go_on next status current redirects none = ([], throws invalid_location)
go_on next status current redirects (some u) =
    next u (redirects ++ (record { status = status; from = current.href; to = u.href }) ∷ [])

-- A redirect, in the last round or in another.
unfoldable pub redirect :
    World
    → (Url → List Redirect → Trace Ended)
    → Bool
    → Url
    → List Redirect
    → ℕ
    → Option Text
    → Trace Ended
redirect w next is_last current redirects status none =
    ([], returns (unreachable (some status) (some current.href) redirects missing_location))
redirect w next is_last current redirects status (some location) =
    if is_last
    then ([], returns (unreachable (some status) (some current.href) redirects exceeded_redirects))
    else go_on next status current redirects (w.join_url location current)

unfoldable pub arrived : Url → Url → List Redirect → PinnedResponse → FetchOutcome
arrived start current redirects r = record {
  reachable = true;
  status = some r.status;
  https_valid = is_https start && is_https current;
  body = r.body;
  final_url = some current.href;
  redirects = redirects;
  error = none;
}

unfoldable pub respond :
    World
    → (Url → List Redirect → Trace Ended)
    → Bool
    → Url
    → Url
    → List Redirect
    → PinnedReply
    → Trace Ended
unfolding redirect arrived
respond w next is_last start current redirects (fails f) = ([], throws f)
respond w next is_last start current redirects (replies r) =
    if is_redirect r.status
    then redirect w next is_last current redirects r.status (location_of r.location)
    else ([], returns (arrived start current redirects r))

-- The request to the first of the addresses, and what follows it.
unfoldable pub contact_first :
    (PinnedReply → Trace Ended) → (Text → PinnedReply) → ℕ → Url → List Text → Trace Ended
contact_first follow request time url [] = ([], throws_unsafe unresolved)
contact_first follow request time url (a ∷ addresses) =
    let (contacts, end) = follow (request a) in
    ((record { time = time; url = url; address = a }) ∷ contacts, end)

unfoldable pub visit :
    World → VerifyWebOptions → (PinnedReply → Trace Ended) → ℕ → UrlResolution → Trace Ended
unfolding contact_first request_pinned
visit w o follow time (unsafe e) = ([], throws_unsafe e)
visit w o follow time (resolved r) =
    contact_first follow (request_pinned w o.max_body_bytes time r.url) time r.url r.addresses

-- The outcome after the loop.
abbrev pub after_loop : FetchOutcome
after_loop = unreachable none none [] exceeded_redirects

-- The loop, from the hop numbered `hop`, for the given number of rounds.
unfoldable pub hops : World → VerifyWebOptions → Url → ℕ → ℕ → Url → List Redirect → Trace Ended
unfolding resolve_public_http_url visit respond
hops w o start zero hop current redirects = ([], returns after_loop)
hops w o start (suc rounds) hop current redirects =
    visit w o
      (respond w (hops w o start rounds (suc hop)) (hop == o.max_redirects) start current redirects)
      (suc hop) (resolve_public_http_url w (suc hop) current.href)

abbrev mentions : Text → List Text → Bool
mentions message ps = any (has_part (map lower_ascii message)) ps

-- The kind of an error that is not an UnsafeUrlError, by its name and message.
unfoldable pub kind_of_failure : Failure → FetchError
kind_of_failure f =
    if f.name == codes "AbortError" || mentions f.message (codes "aborted" ∷ codes "timeout" ∷ [])
    then timed_out
    else if mentions f.message (
        codes "certificate"
        ∷ codes "cert_"
        ∷ codes "ssl"
        ∷ codes "tls"
        ∷ codes "unable to verify"
        ∷ codes "unable_to_verify"
        ∷ [])
    then tls_failed f.message
    else request_failed f.message

-- The `catch` clause.
unfoldable pub outcome_of : Ended → FetchOutcome
unfolding kind_of_failure
outcome_of (returns o) = o
outcome_of (throws_unsafe e) = unreachable none none [] (unsafe_url e)
outcome_of (throws f) = unreachable none none [] (kind_of_failure f)

unfoldable pub fetch_with_guards : World → VerifyWebOptions → Url → Trace FetchOutcome
unfolding hops outcome_of
fetch_with_guards w o start =
    let (contacts, end) = hops w o start (suc o.max_redirects) 0 start [] in
    (contacts, outcome_of end)

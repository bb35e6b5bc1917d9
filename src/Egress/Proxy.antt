-- ===== src/Egress/Proxy.antt =====
-- src/security/egress-proxy.ts: the forward proxy of the browser, with what each handler does of a
-- request: an error, or a connection to an address and a port. Also `pinnedRequestUrl` and the test of
-- `createPinnedFetch` in src/security/pinned-http.ts. Sockets are left out.
use directory.Common.{
  ℕ, ◌+◌, Bool, not, ◌&&◌, ◌||◌, Option, none, some, List, [], ◌∷◌, ◌++◌, ltb, if◌then◌else◌, ◌==◌,
  text_eq, nat_eq, Text, codes, includes, length, or_else,
}
use directory.Slug.{to_lower_case}
use directory.Egress.{
  World, Url, UrlResolution, resolved, unsafe, ResolvedPublicUrl, resolve_public_http_url,
}

pub record Header : Type 0 where
  pub name : Text
  pub value : Text

-- `safe[name] = value`
unfoldable pub set_header : Text → Text → List Header → List Header
set_header name value [] = (record { name = name; value = value }) ∷ []
set_header name value (h ∷ hs) =
    if h.name == name
    then (record { name = name; value = value }) ∷ hs
    else h ∷ set_header name value hs

abbrev pub hop_by_hop_headers : List Text
hop_by_hop_headers =
    codes "connection"
    ∷ codes "keep-alive"
    ∷ codes "proxy-authenticate"
    ∷ codes "proxy-authorization"
    ∷ codes "proxy-connection"
    ∷ codes "te"
    ∷ codes "trailer"
    ∷ codes "transfer-encoding"
    ∷ codes "upgrade"
    ∷ []

unfoldable pub passes : Text → Bool
unfolding to_lower_case
passes name = not (includes hop_by_hop_headers (to_lower_case name)) && not (name == codes "host")

-- The loop of `sanitizedHeaders`.
unfoldable pub add_headers : List Header → List Header → List Header
unfolding set_header passes
add_headers safe [] = safe
add_headers safe (h ∷ hs) =
    add_headers (if passes h.name then set_header h.name h.value safe else safe) hs

unfoldable pub sanitized_headers : List Header → Text → List Header
unfolding add_headers
sanitized_headers headers host =
    add_headers ((record { name = codes "host"; value = host }) ∷ []) headers

-- The connection that a handler opens.
pub record Upstream : Type 0 where
  pub address : Text
  pub port : ℕ

pub data ProxyError : Type 0 where
  port_not_allowed destination_not_allowed : ProxyError

pub data Handled : Type 0 where
  connects : Upstream → Handled
  forbids : ProxyError → Handled

unfoldable pub connect_first : ℕ → List Text → Handled
connect_first port [] = forbids destination_not_allowed
connect_first port (a ∷ addresses) = connects (record { address = a; port = port })

unfoldable pub connect_resolved : ℕ → UrlResolution → Handled
unfolding connect_first
connect_resolved port (unsafe e) = forbids destination_not_allowed
connect_resolved port (resolved r) = connect_first port r.addresses

-- What both handlers do with their target; `fallback` is the port of the scheme.
unfoldable pub handle_target : World → List ℕ → ℕ → ℕ → Url → Handled
unfolding connect_resolved resolve_public_http_url
handle_target w allowed_ports time fallback target =
    let port = or_else target.port fallback in
    if not (includes allowed_ports port)
    then forbids port_not_allowed
    else connect_resolved port (resolve_public_http_url w time target.href)

unfoldable pub handle_http : World → List ℕ → ℕ → Option Url → Handled
unfolding handle_target
handle_http w allowed_ports time none = forbids destination_not_allowed
handle_http w allowed_ports time (some target) =
    if not (target.protocol == codes "http:")
    then forbids destination_not_allowed
    else handle_target w allowed_ports time 80 target

unfoldable pub handle_connect : World → List ℕ → ℕ → Option Url → Handled
unfolding handle_target
handle_connect w allowed_ports time none = forbids destination_not_allowed
handle_connect w allowed_ports time (some target) = handle_target w allowed_ports time 443 target

pub data ProxyRequest : Type 0 where
  http connect : Option Text → ProxyRequest

abbrev pub target_of_text : World → Option Text → Option Url
target_of_text w none = none
target_of_text w (some s) = w.parse_url s

abbrev pub with_https : Option Text → Option Text
with_https none = none
with_https (some s) = some (codes "https://" ++ s)

-- A request of the browser, by its kind; the text is `request.url`.
unfoldable pub handle : World → List ℕ → ℕ → ProxyRequest → Handled
unfolding handle_http handle_connect
handle w allowed_ports time (http url) = handle_http w allowed_ports time (target_of_text w url)
handle w allowed_ports time (connect authority) =
    handle_connect w allowed_ports time (target_of_text w (with_https authority))

-- The chunks of the response that are written to the browser, after `received` bytes.
unfoldable pub forward_chunks : ℕ → ℕ → List (List ℕ) → List (List ℕ)
forward_chunks limit received [] = []
forward_chunks limit received (c ∷ cs) =
    if ltb limit (received + length c)
    then []
    else c ∷ forward_chunks limit (received + length c) cs

-- Does the pinned fetch refuse this target?
unfoldable pub refuses_target : ResolvedPublicUrl → Url → Bool
refuses_target r target =
    not (target.hostname == r.url.hostname) || not (target.protocol == r.url.protocol)

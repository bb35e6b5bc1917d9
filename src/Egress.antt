-- ===== src/Egress.antt =====
-- src/security/url.ts: which URLs the service connects to by itself. The class URL, DNS and ipaddr.js
-- are given by what they answer; a lookup at another time may answer otherwise.
pub mod Names
pub mod Policy
pub mod Fetch
pub mod Runs
pub mod VerifyWeb
pub mod Proxy
pub mod Laws
pub mod Verified
pub mod ProxyLaws
pub mod Bodies
use directory.Common.{
  ℕ, Bool, true, false, not, ◌&&◌, ◌||◌, Option, none, some, List, [], ◌∷◌, if◌then◌else◌, ◌==◌,
  text_eq, Text, codes, any, is_empty,
}
use directory.Slug.{to_lower_case}

pub record Url : Type 0 where
  pub href : Text
  pub protocol : Text
  pub username : Text
  pub password : Text
  pub hostname : Text
  pub port : Option ℕ

-- What ipaddr.js says of an address: its range, and for an IPv6 address that stands for an IPv4
-- address the range of the latter.
pub record IpAddress : Type 0 where
  pub range : Text
  pub mapped_range : Option Text

-- A response of node:http, with the chunks of bytes of its body.
pub record IncomingMessage : Type 0 where
  pub status : ℕ
  pub location : Option Text
  pub chunks : List (List ℕ)

-- The name and the message of an Error.
pub record Failure : Type 0 where
  pub name : Text
  pub message : Text

pub data Answer : Type 0 where
  responds : IncomingMessage → Answer
  rejects : Failure → Answer

-- The world outside: `new URL(s)`, `new URL(s, base)`, ipaddr.js, the DNS at a time, and what a server
-- answers at a time to a request for a URL at an address, and `toString("utf8")`.
pub record World : Type 0 where
  pub parse_url : Text → Option Url
  pub join_url : Text → Url → Option Url
  pub parse_address : Text → Option IpAddress
  pub lookup : ℕ → Text → Option (List Text)
  pub request : ℕ → Url → Text → Answer
  pub utf8 : List ℕ → Text

pub data UnsafeUrlError : Type 0 where
  invalid_url other_protocol has_credentials local_hostname unresolved private_address :
      UnsafeUrlError

pub record ResolvedPublicUrl : Type 0 where
  pub url : Url
  pub addresses : List Text

pub data UrlResolution : Type 0 where
  resolved : ResolvedPublicUrl → UrlResolution
  unsafe : UnsafeUrlError → UrlResolution

abbrev range_of : IpAddress → Text
range_of a = elim a.mapped_range [ none ↦ a.range | some r ↦ r ]

abbrev pub is_unicast : Option IpAddress → Bool
is_unicast none = false
is_unicast (some a) = range_of a == codes "unicast"

unfoldable pub is_public_address : World → Text → Bool
is_public_address w address = is_unicast (w.parse_address address)

-- `replace(/\.$/, "")`
unfoldable pub drop_last_dot : Text → Text
drop_last_dot [] = []
drop_last_dot (c ∷ []) = if c ∷ [] == codes "." then [] else c ∷ []
drop_last_dot (c ∷ d ∷ s) = c ∷ drop_last_dot (d ∷ s)

abbrev pub ends_with : Text → Text → Bool
ends_with [] p = [] == p
ends_with (c ∷ s) p = c ∷ s == p || ends_with s p

unfoldable pub hostname_of : Url → Text
unfolding drop_last_dot to_lower_case
hostname_of u = drop_last_dot (to_lower_case u.hostname)

unfoldable pub is_local_hostname : Text → Bool
is_local_hostname h =
    h == codes "localhost"
    || ends_with h (codes ".localhost")
    || ends_with h (codes ".local")
    || ends_with h (codes ".internal")

unfoldable pub resolve_addresses : World → Url → Option (List Text) → UrlResolution
unfolding is_public_address
resolve_addresses w url none = unsafe unresolved
resolve_addresses w url (some addresses) =
    if is_empty addresses || any (λ a. not (is_public_address w a)) addresses
    then unsafe private_address
    else resolved (record { url = url; addresses = addresses })

unfoldable pub resolve_url : World → ℕ → Option Url → UrlResolution
unfolding resolve_addresses hostname_of is_local_hostname
resolve_url w time none = unsafe invalid_url
resolve_url w time (some url) =
    if not (url.protocol == codes "http:") && not (url.protocol == codes "https:")
    then unsafe other_protocol
    else if not (is_empty url.username) || not (is_empty url.password)
    then unsafe has_credentials
    else if is_local_hostname (hostname_of url)
    then unsafe local_hostname
    else resolve_addresses w url (w.lookup time (hostname_of url))

-- `time` is when the lookup is made.
unfoldable pub resolve_public_http_url : World → ℕ → Text → UrlResolution
unfolding resolve_url
resolve_public_http_url w time input = resolve_url w time (w.parse_url input)

-- ===== src/Egress/ProxyLaws.antt =====
-- Where the proxy connects to, and what it lets through.
use directory.Common.{
  ℕ, ◌≡◌, ◌⊎◌, refl, sym, true, not, Option, none, some, List, [], ◌∷◌, ◌==◌, text_eq, nat_eq, Text,
  codes, arith, In, All, inl, inr, includes, or_else, Bool-cases, any-false,
}
use directory.Egress.{
  World, Url, UrlResolution, resolved, unsafe, is_public_address, resolve_public_http_url,
}
use directory.Egress.Policy.{IsSafe, resolve_public_http_url-IsSafe-iff}
use directory.Egress.Proxy.{
  Header, set_header, passes, add_headers, sanitized_headers, Upstream, connects, connect_first,
  connect_resolved, handle_target, handle_http, handle_connect, ProxyRequest, http, connect,
  target_of_text, with_https, handle,
}

-- The connection goes to a public address, one of those that the lookup at this time gave for the name
-- of a safe URL, and to a port of the list.
pub record IsAllowed (w : World) (allowed_ports : List ℕ) (time : ℕ) (u : Upstream) : Type 0 where
  pub url : Url
  pub addresses : List Text
  pub safe : IsSafe w time url addresses
  pub among : In u.address addresses
  pub is_public : is_public_address w u.address ≡ true
  pub port : includes allowed_ports u.port ≡ true

module _ (w : World) (allowed_ports : List ℕ) (time : ℕ) (u : Upstream) where
  first-IsAllowed :
      (port : ℕ) (url : Url) (addresses : List Text)
      → IsSafe w time url addresses
      → includes allowed_ports port ≡ true
      → connect_first port addresses ≡ connects u
      → IsAllowed w allowed_ports time u
  unfolding connect_first
  first-IsAllowed port url [] safe ok h = cc
  first-IsAllowed port url (a ∷ addresses) safe ok h =
      let same_address : a ≡ u.address = cc in
      let same_port : port ≡ u.port = cc in
      let k =
        any-false (λ x. not (is_public_address w x)) a (a ∷ addresses) safe.is_public (inl refl) in
      record {
        url = url;
        addresses = a ∷ addresses;
        safe = safe;
        among = inl (sym same_address);
        is_public = rw (← same_address) (ground arith);
        port = rw (← same_port) ok;
      }

  resolution-IsAllowed :
      (port : ℕ) (input : Text) (res : UrlResolution)
      → resolve_public_http_url w time input ≡ res
      → includes allowed_ports port ≡ true
      → connect_resolved port res ≡ connects u
      → IsAllowed w allowed_ports time u
  unfolding connect_resolved
  resolution-IsAllowed port input (unsafe e) r ok h = cc
  resolution-IsAllowed port input (resolved q) r ok h =
      let (_, safe) = (resolve_public_http_url-IsSafe-iff w time input q).0 r in
      first-IsAllowed port q.url q.addresses safe ok h

  target-IsAllowed :
      (fallback : ℕ) (target : Url)
      → handle_target w allowed_ports time fallback target ≡ connects u
      → IsAllowed w allowed_ports time u
  unfolding handle_target
  target-IsAllowed fallback target h =
      elim (Bool-cases (includes allowed_ports (or_else target.port fallback))) [
        | inl ok ↦
            resolution-IsAllowed (or_else target.port fallback) target.href
              (resolve_public_http_url w time target.href) refl ok (rw ok at h)
        | inr bad ↦ let k = rw bad at h in cc
      ]

  http-IsAllowed :
      (target : Option Url)
      → handle_http w allowed_ports time target ≡ connects u
      → IsAllowed w allowed_ports time u
  unfolding handle_http
  http-IsAllowed none h = cc
  http-IsAllowed (some target) h = elim (Bool-cases (target.protocol == codes "http:")) [
    | inl e ↦ target-IsAllowed 80 target (rw e at h)
    | inr e ↦ let k = rw e at h in cc
  ]

  connect-IsAllowed :
      (target : Option Url)
      → handle_connect w allowed_ports time target ≡ connects u
      → IsAllowed w allowed_ports time u
  unfolding handle_connect
  connect-IsAllowed none h = cc
  connect-IsAllowed (some target) h = target-IsAllowed 443 target h

  -- Whatever the browser asks for, by a request or a tunnel, the proxy connects only to a public
  -- address, which the lookup made for this very connection gave, and only to a port of the list.
  pub handle-IsAllowed :
      (request : ProxyRequest)
      → handle w allowed_ports time request ≡ connects u
      → IsAllowed w allowed_ports time u
  unfolding handle
  handle-IsAllowed (http url) h = http-IsAllowed (target_of_text w url) h
  handle-IsAllowed (connect authority) h =
      connect-IsAllowed (target_of_text w (with_https authority)) h

-- The host of the target itself, or a header that passes.
abbrev pub IsClean : Text → Header → Type 0
IsClean host h = ((h.name ≡ codes "host") × (h.value ≡ host)) ⊎ (passes h.name ≡ true)

set_header-IsClean :
    (host name value : Text) (hs : List Header)
    → passes name ≡ true
    → All (IsClean host) hs
    → All (IsClean host) (set_header name value hs)
unfolding set_header
set_header-IsClean host name value [] ok c = (inr ok, tt)
set_header-IsClean host name value (h ∷ hs) ok (c, cs) = elim (Bool-cases (h.name == name)) [
  | inl e ↦ rw e (inr ok, cs)
  | inr e ↦ rw e (c, set_header-IsClean host name value hs ok cs)
]

add_headers-IsClean :
    (host : Text) (safe hs : List Header)
    → All (IsClean host) safe
    → All (IsClean host) (add_headers safe hs)
unfolding add_headers
add_headers-IsClean host safe [] c = c
add_headers-IsClean host safe (h ∷ hs) c = elim (Bool-cases (passes h.name)) [
  | inl ok ↦ rw ok (
      add_headers-IsClean host (set_header h.name h.value safe) hs
        (set_header-IsClean host h.name h.value safe ok c))
  | inr no_pass ↦ rw no_pass (add_headers-IsClean host safe hs c)
]

-- Of a request's headers the proxy passes on none that belongs to one hop, and no host but the
-- target's.
pub sanitized_headers-IsClean :
    (headers : List Header) (host : Text) → All (IsClean host) (sanitized_headers headers host)
unfolding sanitized_headers
sanitized_headers-IsClean headers host =
    add_headers-IsClean host ((record { name = codes "host"; value = host }) ∷ []) headers
      (inl (refl, refl), tt)

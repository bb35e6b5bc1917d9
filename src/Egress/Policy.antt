-- ===== src/Egress/Policy.antt =====
-- Which URLs are resolved, and to what.
use directory.Common.{
  ℕ, ◌≡◌, ◌≢◌, ◌↔◌, ◌⊎◌, inl, inr, refl, Bool, true, false, not, Option, none, some, List, [],
  arith, text_eq, text_beq_iff, Text, codes, any, is_empty, is_empty_iff, In, Bool-cases,
  Option-cases, any-false, any-In,
}
use directory.Egress.Names.{IsHostName, IsLocalName, is_local_hostname_iff, hostname_of_iff}
use directory.Egress.{
  World, Url, IpAddress, is_unicast, resolved, ResolvedPublicUrl, is_public_address, hostname_of,
  is_local_hostname, resolve_addresses, resolve_url, resolve_public_http_url,
}

-- A URL of http or https without credentials and without a local name, and the addresses that a
-- lookup of its name gave, all of them public.
pub record IsSafe (w : World) (time : ℕ) (url : Url) (addresses : List Text) : Type 0 where
  pub http : (url.protocol ≡ codes "http:") ⊎ (url.protocol ≡ codes "https:")
  pub no_username : url.username ≡ []
  pub no_password : url.password ≡ []
  pub not_local : is_local_hostname (hostname_of url) ≡ false
  pub looked_up : w.lookup time (hostname_of url) ≡ some addresses
  pub not_empty : is_empty addresses ≡ false
  pub is_public : any (λ a. not (is_public_address w a)) addresses ≡ false

module _ (w : World) where
  resolve_addresses-resolved :
      (url : Url) (found : Option (List Text)) (r : ResolvedPublicUrl)
      → (resolve_addresses w url found ≡ resolved r) ↔ (
          (found ≡ some r.addresses)
          × (url ≡ r.url)
          × (is_empty r.addresses ≡ false)
          × (any (λ a. not (is_public_address w a)) r.addresses ≡ false))
  unfolding resolve_addresses
  resolve_addresses-resolved url none r = ground arith
  resolve_addresses-resolved url (some l) r = ground arith

  resolve_url-resolved :
      (time : ℕ) (u : Option Url) (r : ResolvedPublicUrl)
      → (resolve_url w time u ≡ resolved r) ↔ ((u ≡ some r.url) × IsSafe w time r.url r.addresses)
  unfolding resolve_url
  resolve_url-resolved time none r = (λ h. cc, λ (h, _). cc)
  resolve_url-resolved time (some url) r = ground (
    arith,
    resolve_addresses-resolved url (w.lookup time (hostname_of url)) r,
    is_empty_iff url.username,
    is_empty_iff url.password,
    text_beq_iff url.protocol (codes "http:"),
    text_beq_iff url.protocol (codes "https:"),
  )

  pub resolve_public_http_url-IsSafe-iff :
      (time : ℕ) (input : Text) (r : ResolvedPublicUrl)
      → (resolve_public_http_url w time input ≡ resolved r)
        ↔ ((w.parse_url input ≡ some r.url) × IsSafe w time r.url r.addresses)
  unfolding resolve_public_http_url
  resolve_public_http_url-IsSafe-iff time input r = resolve_url-resolved time (w.parse_url input) r

-- An address of the public Internet: its range is "unicast", or that of the IPv4 address that it
-- stands for.
abbrev pub IsPublicAddress : World → Text → Type 0
IsPublicAddress w address =
    (ip : IpAddress) × (w.parse_address address ≡ some ip)
    × ((ip.mapped_range ≡ some (codes "unicast"))
        ⊎ ((ip.mapped_range ≡ none) × (ip.range ≡ codes "unicast")))

pub record IsPublicUrl (w : World) (time : ℕ) (url : Url) (addresses : List Text) : Type 0 where
  pub host : Text
  pub http : (url.protocol ≡ codes "http:") ⊎ (url.protocol ≡ codes "https:")
  pub no_username : url.username ≡ []
  pub no_password : url.password ≡ []
  pub named : IsHostName url.hostname host
  pub not_local : IsLocalName host → ⊥
  pub looked_up : w.lookup time host ≡ some addresses
  pub not_empty : addresses ≢ []
  pub all_public : (a : Text) → In a addresses → IsPublicAddress w a

module _ (w : World) where
  is_unicast_iff :
      (ip : IpAddress)
      → (is_unicast (some ip) ≡ true) ↔ (
          (ip.mapped_range ≡ some (codes "unicast"))
          ⊎ ((ip.mapped_range ≡ none) × (ip.range ≡ codes "unicast")))
  is_unicast_iff ip = elim (Option-cases ip.mapped_range) [
    | inl e ↦ rw e (ground (arith, text_beq_iff ip.range (codes "unicast")))
    | inr (r, e) ↦ rw e (ground (arith, text_beq_iff r (codes "unicast")))
  ]

  is_public_address_iff :
      (address : Text) → (is_public_address w address ≡ true) ↔ IsPublicAddress w address
  unfolding is_public_address
  is_public_address_iff address = elim (Option-cases (w.parse_address address)) [
    | inl e ↦ rw e (λ h. let k : false ≡ true = h in cc, λ (ip, q, _). cc)
    | inr (ip, e) ↦ rw e (
      λ h. (ip, refl, (is_unicast_iff ip).0 h),
      λ (ip', q, m). let same : ip ≡ ip' = cc in (is_unicast_iff ip).1 (rw same m),
    )
  ]

  all_public_of :
      (addresses : List Text)
      → any (λ a. not (is_public_address w a)) addresses ≡ false
      → (a : Text) → In a addresses
      → IsPublicAddress w a
  all_public_of addresses h a i =
      let k = any-false (λ b. not (is_public_address w b)) a addresses h i in
      (is_public_address_iff a).0 (ground arith)

  none_private_of :
      (addresses : List Text)
      → ((a : Text) → In a addresses → IsPublicAddress w a)
      → any (λ a. not (is_public_address w a)) addresses ≡ false
  none_private_of addresses h =
      let p : Text → Bool = λ a. not (is_public_address w a) in
      elim (Bool-cases (any p addresses)) [
        | inl e ↦
            let (a, i, q) = any-In p addresses e in
            let k = (is_public_address_iff a).1 (h a i) in ground arith
        | inr e ↦ e
      ]

  IsSafe-iff :
      (time : ℕ) (url : Url) (addresses : List Text)
      → IsSafe w time url addresses ↔ IsPublicUrl w time url addresses
  IsSafe-iff time url addresses = (
    λ s. record {
      host = hostname_of url;
      http = s.http;
      no_username = s.no_username;
      no_password = s.no_password;
      named = (hostname_of_iff url (hostname_of url)).0 refl;
      not_local =
          λ l. let k = (is_local_hostname_iff (hostname_of url)).1 l in let n = s.not_local in cc;
      looked_up = s.looked_up;
      not_empty = λ e. let k = (is_empty_iff addresses).1 e in let n = s.not_empty in cc;
      all_public = all_public_of addresses s.is_public;
    },
    λ p.
        let named = (hostname_of_iff url p.host).1 p.named in
        record {
          http = p.http;
          no_username = p.no_username;
          no_password = p.no_password;
          not_local = elim (Bool-cases (is_local_hostname p.host)) [
            | inl e ↦ absurd (p.not_local ((is_local_hostname_iff p.host).0 e))
            | inr e ↦ rw named e
          ];
          looked_up = rw named p.looked_up;
          not_empty = elim (Bool-cases (is_empty addresses)) [
            | inl e ↦ absurd (p.not_empty ((is_empty_iff addresses).0 e))
            | inr e ↦ e
          ];
          is_public = none_private_of addresses p.all_public;
        },
  )

  -- A text is resolved exactly when it is a URL of http or https without user name and password,
  -- whose host name (in small letters, without the dot at its end) is neither localhost nor ends
  -- with .localhost, .local or .internal, and a lookup of this name gives at least one address and
  -- only addresses whose range is "unicast" (for an IPv6 address that stands for an IPv4 address the
  -- range of the latter); what is returned are this URL and all addresses of the lookup.
  pub resolve_public_http_url-resolved_iff :
      (time : ℕ) (input : Text) (r : ResolvedPublicUrl)
      → (resolve_public_http_url w time input ≡ resolved r)
        ↔ ((w.parse_url input ≡ some r.url) × IsPublicUrl w time r.url r.addresses)
  resolve_public_http_url-resolved_iff time input r =
      let safe = resolve_public_http_url-IsSafe-iff w time input r in
      let public = IsSafe-iff time r.url r.addresses in
      (λ h. let (u, s) = safe.0 h in (u, public.0 s), λ (u, p). safe.1 (u, public.1 p))

-- ===== src/Tests/Egress.antt =====
-- Requests of the service and of its proxy in a small world.
use directory.Common.{
  ◌≡◌, ◌↔◌, refl, true, false, none, some, [], ◌∷◌, if◌then◌else◌, ◌==◌, text_eq, nat_eq, Text,
  codes, In, inl, length,
}
use directory.Egress.{
  World, Url, responds, resolved, ResolvedPublicUrl, is_public_address, resolve_public_http_url,
}
use directory.Egress.Policy.{IsPublicUrl, resolve_public_http_url-resolved_iff}
use directory.Egress.Fetch.{VerifyWebOptions, Contact, exceeded_redirects, fetch_with_guards}
use directory.Egress.Runs.{IsGuarded}
use directory.Egress.Laws.{StillRedirects, fetch_with_guards-exceeded}
use directory.Egress.VerifyWeb.{VerifyWebRequest, verify_web}
use directory.Egress.Verified.{Evidence, verify_web-IsGuarded, verify_web-verified_iff}
use directory.Egress.Proxy.{connects, ProxyRequest, handle}
use directory.Egress.ProxyLaws.{IsAllowed, handle-IsAllowed}

abbrev url_of : Text → Url
url_of s = record {
  href = s;
  protocol = codes "https:";
  username = [];
  password = [];
  hostname = s;
  port = none;
}

-- Every text is a URL of https; "old" redirects to "new", and "10.0.0.1" is private.
abbrev world : World
world = record {
  parse_url = λ s. some (url_of s);
  join_url = λ s u. some (url_of s);
  parse_address = λ a. some (record {
    range = if a == codes "10.0.0.1" then codes "private" else codes "unicast";
    mapped_range = none;
  });
  lookup = λ t name. some (name ∷ []);
  request = λ t u a. responds (record {
    status = if u.href == codes "old" then 301 else 200;
    location = some (codes "new");
    chunks = codes "ok" ∷ [];
  });
  utf8 = λ bytes. bytes;
}

abbrev ask : VerifyWebRequest
ask = record { url = codes "old"; expected_status = 200; expected_text = some (codes " ok ") }

abbrev options : VerifyWebOptions
options = record { max_body_bytes = 100; max_redirects = 3 }

abbrev strict_options : VerifyWebOptions
strict_options = record { max_body_bytes = 100; max_redirects = 0 }

test_verify_web :
    ((verify_web world ask options).1.verified ≡ true)
    × (length (verify_web world ask options).0 ≡ 2)
    × ((verify_web world ask strict_options).1.verified ≡ false)
    × ((verify_web world (record ask { url = codes "10.0.0.1" }) options).0 ≡ [])
unfolding verify_web
test_verify_web = (refl, refl, refl, refl)

resolve_public_http_url-resolved_iff_example :
    let r : ResolvedPublicUrl = record {
      url = url_of (codes "new");
      addresses = codes "new" ∷ [];
    } in
    (resolve_public_http_url world 7 (codes "new") ≡ resolved r)
    ↔ ((some (url_of (codes "new")) ≡ some r.url) × IsPublicUrl world 7 r.url r.addresses)
resolve_public_http_url-resolved_iff_example =
    resolve_public_http_url-resolved_iff world 7 (codes "new")
      (record { url = url_of (codes "new"); addresses = codes "new" ∷ [] })

abbrev first_contact : Contact
first_contact = record { time = 1; url = url_of (codes "old"); address = codes "old" }

first_contact-In : In first_contact (verify_web world ask options).0
unfolding verify_web
first_contact-In = inl refl

verify_web-IsGuarded_example :
    IsGuarded world first_contact × (is_public_address world first_contact.address ≡ true)
verify_web-IsGuarded_example = verify_web-IsGuarded world ask options first_contact first_contact-In

verify_web-verified_iff_example :
    ((verify_web world ask options).1.verified ≡ true) ↔ Evidence world ask options
verify_web-verified_iff_example = verify_web-verified_iff world ask options

stopped_here :
    (fetch_with_guards world strict_options (url_of (codes "old"))).1.error
    ≡ some exceeded_redirects
unfolding fetch_with_guards
stopped_here = refl

fetch_with_guards-exceeded_example :
    let t = fetch_with_guards world strict_options (url_of (codes "old")) in
    StillRedirects world strict_options t.0 t.1 × (length t.1.redirects ≡ 0) × (length t.0 ≡ 1)
fetch_with_guards-exceeded_example =
    fetch_with_guards-exceeded world strict_options (url_of (codes "old")) stopped_here

tunnelled :
    handle world (443 ∷ []) 5 (ProxyRequest.connect (some (codes "new")))
    ≡ connects (record { address = codes "https://new"; port = 443 })
unfolding handle
tunnelled = refl

handle-IsAllowed_example :
    IsAllowed world (443 ∷ []) 5 (record { address = codes "https://new"; port = 443 })
handle-IsAllowed_example =
    handle-IsAllowed world (443 ∷ []) 5 (record { address = codes "https://new"; port = 443 })
      (ProxyRequest.connect (some (codes "new"))) tunnelled

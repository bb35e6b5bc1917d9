-- ===== src/Egress/Verified.antt =====
-- Whom `verifyWeb` contacts, how often, and what a verified result has seen.
use directory.Common.{
  suc, ◌≤◌, ◌≡◌, ◌↔◌, refl, sym, subst, any-false, ap, ◌∙◌, true, List, [], ◌∷◌, nat_eq, text_eq,
  In, All, inl, inr, arith, length,
}
use directory.Egress.{
  World, Url, is_public_address, UrlResolution, resolved, unsafe, ResolvedPublicUrl,
  resolve_public_http_url,
}
use directory.Egress.Fetch.{
  PinnedResponse, Redirect, FetchOutcome, Contact, VerifyWebOptions, Trace, is_https, arrived,
  fetch_with_guards,
}
use directory.Egress.Runs.{IsGuarded}
use directory.Egress.VerifyWeb.{
  VerifyWebRequest, VerifyWebResult, expected_text_of, contains, web_checks_of, is_verified,
  result_of, verify_resolved, verify_web,
}
use directory.Egress.Laws.{
  Arrival, fetch_with_guards-All, fetch_with_guards-length, fetch_with_guards-Arrival,
}

public_of_IsGuarded :
    (w : World) (c : Contact) → IsGuarded w c → is_public_address w c.address ≡ true
public_of_IsGuarded w c g =
    let k = any-false _ c.address g.addresses g.safe.is_public g.among in ground arith

In-All : {A : Type 0} (P : A → Type 0) (l : List A) → All P l → (a : A) → In a l → P a
In-All P [] h a i = elim i [ ]
In-All P (x ∷ l) (p, ps) a (inl e) = subst P (sym e) p
In-All P (x ∷ l) (p, ps) a (inr i) = In-All P l ps a i

-- A response is accepted exactly over https from the first URL to the last, with the status and the
-- text that were expected.
arrived-verified :
    (input : VerifyWebRequest) (start current : Url) (rs : List Redirect) (r : PinnedResponse)
    → (is_verified input start (arrived start current rs r) ≡ true) ↔ (
        (is_https start ≡ true)
        × (is_https current ≡ true)
        × (r.status ≡ input.expected_status)
        × (contains r.body (expected_text_of input) ≡ true))
unfolding is_verified web_checks_of arrived
arrived-verified input start current rs r = ground arith

verified-reachable :
    (input : VerifyWebRequest) (start : Url) (out : FetchOutcome)
    → is_verified input start out ≡ true
    → out.reachable ≡ true
unfolding is_verified
verified-reachable input start out h = ground arith

module _ (w : World) (input : VerifyWebRequest) (o : VerifyWebOptions) where
  resolved-All : (r : UrlResolution) → All (IsGuarded w) (verify_resolved w input o r).0
  unfolding verify_resolved
  resolved-All (unsafe e) = tt
  resolved-All (resolved r) = fetch_with_guards-All w o r.url

  resolved-length :
      (r : UrlResolution) → length (verify_resolved w input o r).0 ≤ suc o.max_redirects
  unfolding verify_resolved
  resolved-length (unsafe e) = omega arith
  resolved-length (resolved r) = fetch_with_guards-length w o r.url

  -- There are at most one request more than the greatest number of redirects.
  pub verify_web-length : length (verify_web w input o).0 ≤ suc o.max_redirects
  unfolding verify_web
  verify_web-length = resolved-length (resolve_public_http_url w 0 input.url)

  -- Whatever the URL, the redirects and the answers of the DNS are, at each time another: every
  -- request goes to a public address, which the lookup made for this very request gave for the name
  -- of its safe URL.
  pub verify_web-IsGuarded :
      (c : Contact)
      → In c (verify_web w input o).0
      → IsGuarded w c × (is_public_address w c.address ≡ true)
  unfolding verify_web
  verify_web-IsGuarded c i =
      let g =
        In-All (IsGuarded w) (verify_web w input o).0
          (resolved-All (resolve_public_http_url w 0 input.url)) c i in
      (g, public_of_IsGuarded w c g)

  verify_web-fetch :
      (r : ResolvedPublicUrl)
      → resolve_public_http_url w 0 input.url ≡ resolved r
      → verify_web w input o
        ≡ ((fetch_with_guards w o r.url).0, result_of input r.url (fetch_with_guards w o r.url).1)
  unfolding verify_web verify_resolved
  verify_web-fetch r h = ap (verify_resolved w input o) h

  -- The response that a verified result rests on.
  pub record Evidence : Type 0 where
    pub first : ResolvedPublicUrl
    pub resolves : resolve_public_http_url w 0 input.url ≡ resolved first
    pub arrival : Arrival w o first.url (verify_web w input o).0 (fetch_with_guards w o first.url).1
    pub starts_https : is_https first.url ≡ true
    pub ends_https : is_https arrival.current ≡ true
    pub same_status : arrival.reply.status ≡ input.expected_status
    pub has_text : contains arrival.reply.body (expected_text_of input) ≡ true

  evidence_of :
      (r : ResolvedPublicUrl)
      → resolve_public_http_url w 0 input.url ≡ resolved r
      → is_verified input r.url (fetch_with_guards w o r.url).1 ≡ true
      → Evidence
  evidence_of r h v =
      let out = (fetch_with_guards w o r.url).1 in
      let a = fetch_with_guards-Arrival w o r.url (verified-reachable input r.url out v) in
      let (p, q, s, t) =
        (arrived-verified input r.url a.current a.chain a.reply).0 (rw a.outcome at v) in
      record {
        first = r;
        resolves = h;
        arrival = record {
          contact = a.contact;
          current = a.current;
          reply = a.reply;
          chain = a.chain;
          made = rw (verify_web-fetch r h) a.made;
          known = a.known;
          answered = a.answered;
          final = a.final;
          outcome = a.outcome;
        };
        starts_https = p;
        ends_https = q;
        same_status = s;
        has_text = t;
      }

  verified-fetch :
      (r : ResolvedPublicUrl)
      → resolve_public_http_url w 0 input.url ≡ resolved r
      → (verify_web w input o).1.verified ≡ is_verified input r.url (fetch_with_guards w o r.url).1
  unfolding result_of
  verified-fetch r h = ap (λ (t : Trace VerifyWebResult). t.1.verified) (verify_web-fetch r h)

  unresolved-verified :
      (res : UrlResolution)
      → (verify_resolved w input o res).1.verified ≡ true
      → (r : ResolvedPublicUrl) × (res ≡ resolved r)
  unfolding verify_resolved
  unresolved-verified (unsafe e) h = cc
  unresolved-verified (resolved r) h = (r, refl)

  -- A result is verified exactly when the URL resolves and one of the requests that were made was
  -- answered by a response that is no redirect, with the expected status and text, from which the
  -- outcome of the fetch was made, and both the first and the last URL are of https.
  pub verify_web-verified_iff : ((verify_web w input o).1.verified ≡ true) ↔ Evidence
  unfolding verify_web
  verify_web-verified_iff = (
    λ v.
        let (r, h) = unresolved-verified (resolve_public_http_url w 0 input.url) v in
        evidence_of r h (sym (verified-fetch r h) ∙ v),
    λ e.
        let a = e.arrival in
        let accepted =
          (arrived-verified input e.first.url a.current a.chain a.reply).1
            (e.starts_https, e.ends_https, e.same_status, e.has_text) in
        verified-fetch e.first e.resolves ∙ rw a.outcome accepted,
  )

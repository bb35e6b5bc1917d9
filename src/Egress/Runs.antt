-- ===== src/Egress/Runs.antt =====
-- The loop of `fetchWithGuards` as a relation, for proofs by induction on its rounds.
use directory.Common.{
  ℕ, zero, suc, ◌≡◌, refl, Bool, true, false, Option, none, some, List, [], ◌∷◌, ◌++◌, ◌==◌, nat_eq,
  text_eq, Text, In, inl, if◌then◌else◌,
}
use directory.Egress.{
  World, Url, Failure, UnsafeUrlError, UrlResolution, resolved, unsafe, resolve_public_http_url,
}
use directory.Egress.Policy.{IsSafe, resolve_public_http_url-IsSafe-iff}
use directory.Egress.Fetch.{
  PinnedResponse, PinnedReply, replies, fails, request_pinned, Redirect, missing_location,
  exceeded_redirects, Contact, VerifyWebOptions, Ended, returns, throws_unsafe, throws, Trace,
  is_redirect, location_of, unreachable, arrived, redirect, respond, contact_first, visit,
  after_loop, hops, go_on,
}

-- A request that was made to one of the addresses that the lookup for this request gave, for a safe
-- URL; all of these addresses are public.
pub record IsGuarded (w : World) (c : Contact) : Type 0 where
  pub addresses : List Text
  pub safe : IsSafe w c.time c.url addresses
  pub among : In c.address addresses

pub data Run (w : World) (o : VerifyWebOptions) (start : Url)
    : ℕ → ℕ → List Redirect → Trace Ended → Type 0 where
  exhausted : {hop : ℕ} {rs : List Redirect} → Run w o start zero hop rs ([], returns after_loop)
  refused :
      {rounds hop : ℕ} {rs : List Redirect} {e : UnsafeUrlError}
      → Run w o start (suc rounds) hop rs ([], throws_unsafe e)
  failed :
      {rounds hop : ℕ} {rs : List Redirect} {c : Contact} {f : Failure}
      → IsGuarded w c
      → Run w o start (suc rounds) hop rs (c ∷ [], throws f)
  lost :
      {rounds hop status : ℕ} {rs : List Redirect} {c : Contact} {final : Text}
      → IsGuarded w c
      → Run w o start
          (suc rounds)
          hop
          rs
          (c ∷ [], returns (unreachable (some status) (some final) rs missing_location))
  stopped :
      {rounds hop : ℕ} {rs : List Redirect} {c : Contact} {final : Text} {r : PinnedResponse}
      → IsGuarded w c
      → (hop == o.max_redirects) ≡ true
      → request_pinned w o.max_body_bytes c.time c.url c.address ≡ replies r
      → is_redirect r.status ≡ true
      → Run w o start
          (suc rounds)
          hop
          rs
          (c ∷ [], returns (unreachable (some r.status) (some final) rs exceeded_redirects))
  arrives :
      {rounds hop : ℕ} {rs : List Redirect} {c : Contact} {r : PinnedResponse}
      → IsGuarded w c
      → (current : Url) → w.parse_url current.href ≡ some c.url
      → request_pinned w o.max_body_bytes c.time c.url c.address ≡ replies r
      → is_redirect r.status ≡ false
      → Run w o start (suc rounds) hop rs (c ∷ [], returns (arrived start current rs r))
  follows :
      {rounds hop : ℕ} {rs : List Redirect} {c : Contact} {cs : List Contact} {end : Ended}
      (rd : Redirect)
      → IsGuarded w c
      → (hop == o.max_redirects) ≡ false
      → Run w o start rounds (suc hop) (rs ++ rd ∷ []) (cs, end)
      → Run w o start (suc rounds) hop rs (c ∷ cs, end)

module _ (w : World) (o : VerifyWebOptions) (start : Url) where
  -- What a hop does with the reply to its request.
  module _ (rounds hop : ℕ) (current : Url) (rs : List Redirect) (c : Contact) (g : IsGuarded w c)
      (known : w.parse_url current.href ≡ some c.url)
      (deeper : (u : Url) (rs' : List Redirect)
        → Run w o start rounds (suc hop) rs' (hops w o start rounds (suc hop) u rs')) where
    abbrev Follows : Trace Ended → Type 0
    Follows t = Run w o start (suc rounds) hop rs (c ∷ t.0, t.1)

    go_on-Run :
        (status : ℕ) (u : Option Url)
        → (hop == o.max_redirects) ≡ false
        → Follows (go_on (hops w o start rounds (suc hop)) status current rs u)
    go_on-Run status none h = failed g
    go_on-Run status (some u) h = follows _ g h (deeper u _)

    redirect-Run :
        (r : PinnedResponse) (location : Option Text)
        → request_pinned w o.max_body_bytes c.time c.url c.address ≡ replies r
        → is_redirect r.status ≡ true
        → Follows (
            redirect w
              (hops w o start rounds (suc hop))
              (hop == o.max_redirects)
              current
              rs
              r.status
              location)
    unfolding redirect
    redirect-Run r none answered moved = lost g
    redirect-Run r (some s) answered moved = limit _ refl
      where
        limit :
            (b : Bool)
            → (hop == o.max_redirects) ≡ b
            → Follows (
                if b
                then (
                  [],
                  returns (unreachable (some r.status) (some current.href) rs exceeded_redirects),
                )
                else go_on
                    (hops w o start rounds (suc hop))
                    r.status
                    current
                    rs
                    (w.join_url s current))
        limit true e = stopped g e answered moved
        limit false e = go_on-Run r.status (w.join_url s current) e

    respond-Run :
        (reply : PinnedReply)
        → request_pinned w o.max_body_bytes c.time c.url c.address ≡ reply
        → Follows (
            respond w
              (hops w o start rounds (suc hop))
              (hop == o.max_redirects)
              start
              current
              rs
              reply)
    unfolding respond
    respond-Run (fails f) e = failed g
    respond-Run (replies r) e = kind _ refl
      where
        kind :
            (b : Bool)
            → is_redirect r.status ≡ b
            → Follows (
                if b
                then redirect w
                    (hops w o start rounds (suc hop))
                    (hop == o.max_redirects)
                    current
                    rs
                    r.status
                    (location_of r.location)
                else ([], returns (arrived start current rs r)))
        kind true h = redirect-Run r (location_of r.location) e h
        kind false h = arrives g current known e h

  module _ (rounds hop : ℕ) (current : Url) (rs : List Redirect)
      (deeper : (u : Url) (rs' : List Redirect)
        → Run w o start rounds (suc hop) rs' (hops w o start rounds (suc hop) u rs')) where
    abbrev follow : PinnedReply → Trace Ended
    follow = respond w (hops w o start rounds (suc hop)) (hop == o.max_redirects) start current rs

    contact-Run :
        (u : Url) (addresses : List Text)
        → w.parse_url current.href ≡ some u
        → IsSafe w (suc hop) u addresses
        → Run w o start (suc rounds) hop rs (
            contact_first follow
              (request_pinned w o.max_body_bytes (suc hop) u)
              (suc hop)
              u
              addresses)
    unfolding contact_first
    contact-Run u [] known safe = refused
    contact-Run u (a ∷ more) known safe =
        let c : Contact = record { time = suc hop; url = u; address = a } in
        let g : IsGuarded w c = record { addresses = a ∷ more; safe = safe; among = inl refl } in
        respond-Run rounds hop current rs c g known deeper
          (request_pinned w o.max_body_bytes (suc hop) u a) refl

    visit-Run :
        (res : UrlResolution)
        → resolve_public_http_url w (suc hop) current.href ≡ res
        → Run w o start (suc rounds) hop rs (visit w o follow (suc hop) res)
    unfolding visit
    visit-Run (unsafe e) h = refused
    visit-Run (resolved r) h =
        let (known, safe) = (resolve_public_http_url-IsSafe-iff w (suc hop) current.href r).0 h in
        contact-Run r.url r.addresses known safe

  -- Every run of the loop is of this kind.
  pub hops-Run :
      (rounds hop : ℕ) (current : Url) (rs : List Redirect)
      → Run w o start rounds hop rs (hops w o start rounds hop current rs)
  unfolding hops
  hops-Run zero hop current rs = exhausted
  hops-Run (suc rounds) hop current rs =
      visit-Run rounds hop current rs (λ u rs'. hops-Run rounds (suc hop) u rs')
        (resolve_public_http_url w (suc hop) current.href) refl

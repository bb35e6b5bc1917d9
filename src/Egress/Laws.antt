-- ===== src/Egress/Laws.antt =====
-- What holds of every run of `fetchWithGuards`.
use directory.Common.{
  ℕ, suc, ◌+◌, ◌≤◌, ◌<◌, ◌≡◌, ◌≢◌, refl, ap, true, false, some, List, [], ◌∷◌, ◌++◌, nat_eq,
  nat_beq_iff, text_eq, In, All, inl, inr, arith, length,
}
use directory.Egress.{World, Url, Failure}
use directory.Egress.Fetch.{
  PinnedResponse, replies, request_pinned, Redirect, FetchOutcome, exceeded_redirects, Contact,
  VerifyWebOptions, Ended, Trace, is_redirect, arrived, kind_of_failure, outcome_of,
  fetch_with_guards,
}
use directory.Egress.Runs.{
  IsGuarded, Run, exhausted, refused, failed, lost, stopped, arrives, follows, hops-Run,
}

length-snoc : {A : Type 0} (xs : List A) (x : A) → length (xs ++ x ∷ []) ≡ suc (length xs)
length-snoc [] x = refl
length-snoc (y ∷ xs) x = ap suc (length-snoc xs x)

kind_of_failure_ne : (f : Failure) → kind_of_failure f ≢ exceeded_redirects
unfolding kind_of_failure
kind_of_failure_ne f = ground arith

-- The response that an outcome was made of, and the request that it answers.
pub record Arrival (w : World) (o : VerifyWebOptions) (start : Url) (cs : List Contact)
    (out : FetchOutcome) : Type 0 where
  pub contact : Contact
  pub current : Url
  pub reply : PinnedResponse
  pub chain : List Redirect
  pub made : In contact cs
  pub known : w.parse_url current.href ≡ some contact.url
  pub answered :
      request_pinned w o.max_body_bytes contact.time contact.url contact.address ≡ replies reply
  pub final : is_redirect reply.status ≡ false
  pub outcome : out ≡ arrived start current chain reply

is_redirect-In : (n : ℕ) → is_redirect n ≡ true → In n (301 ∷ 302 ∷ 303 ∷ 307 ∷ 308 ∷ [])
is_redirect-In n h = ground (
  arith,
  nat_beq_iff 301 n,
  nat_beq_iff 302 n,
  nat_beq_iff 303 n,
  nat_beq_iff 307 n,
  nat_beq_iff 308 n,
)

-- The last request of a fetch, after some earlier ones, was answered with a redirect (301, 302, 303,
-- 307 or 308), and the outcome gives its status.
abbrev pub StillRedirects : World → VerifyWebOptions → List Contact → FetchOutcome → Type 0
StillRedirects w o cs out =
    (c : Contact) × (earlier : List Contact) × (r : PinnedResponse) × (cs ≡ earlier ++ c ∷ [])
    × (request_pinned w o.max_body_bytes c.time c.url c.address ≡ replies r)
    × In r.status (301 ∷ 302 ∷ 303 ∷ 307 ∷ 308 ∷ [])
    × (out.status ≡ some r.status)

module _ (w : World) (o : VerifyWebOptions) (start : Url) where
  Run-All :
      {rounds hop : ℕ} {rs : List Redirect} {t : Trace Ended}
      → Run w o start rounds hop rs t
      → All (IsGuarded w) t.0
  Run-All exhausted = tt
  Run-All refused = tt
  Run-All (failed g) = (g, tt)
  Run-All (lost g) = (g, tt)
  Run-All (stopped g h _ _) = (g, tt)
  Run-All (arrives g current k e h) = (g, tt)
  Run-All (follows rd g h r) = (g, Run-All r)

  Run-length :
      {rounds hop : ℕ} {rs : List Redirect} {t : Trace Ended}
      → Run w o start rounds hop rs t
      → length t.0 ≤ rounds
  Run-length exhausted = omega arith
  Run-length refused = omega arith
  Run-length (failed g) = omega arith
  Run-length (lost g) = omega arith
  Run-length (stopped g h _ _) = omega arith
  Run-length (arrives g current k e h) = omega arith
  Run-length (follows rd g h r) = omega (arith, Run-length r)

  Run-Arrival :
      {rounds hop : ℕ} {rs : List Redirect} {t : Trace Ended}
      → Run w o start rounds hop rs t
      → (outcome_of t.1).reachable ≡ true
      → Arrival w o start t.0 (outcome_of t.1)
  unfolding outcome_of
  Run-Arrival exhausted h = cc
  Run-Arrival refused h = cc
  Run-Arrival (failed g) h = cc
  Run-Arrival (lost g) h = cc
  Run-Arrival (stopped g _ _ _) h = cc
  Run-Arrival (arrives {rs = rs} {c = c} {r = r} g current k e f) h = record {
    contact = c;
    current = current;
    reply = r;
    chain = rs;
    made = inl refl;
    known = k;
    answered = e;
    final = f;
    outcome = refl;
  }
  Run-Arrival (follows rd g _ r) h =
      let a = Run-Arrival r h in
      record {
        contact = a.contact;
        current = a.current;
        reply = a.reply;
        chain = a.chain;
        made = inr a.made;
        known = a.known;
        answered = a.answered;
        final = a.final;
        outcome = a.outcome;
      }

  Run-exceeded :
      {rounds hop : ℕ} {rs : List Redirect} {t : Trace Ended}
      → Run w o start rounds hop rs t
      → hop + rounds ≡ suc o.max_redirects
      → length rs ≡ hop
      → 0 < rounds
      → (outcome_of t.1).error ≡ some exceeded_redirects
      → StillRedirects w o t.0 (outcome_of t.1)
        × (length (outcome_of t.1).redirects ≡ o.max_redirects)
        × (length t.0 ≡ rounds)
  unfolding outcome_of arrived
  Run-exceeded exhausted e l p h = ground arith
  Run-exceeded refused e l p h = cc
  Run-exceeded (failed {f = f} g) e l p h = absurd (kind_of_failure_ne f (cc))
  Run-exceeded (lost g) e l p h = cc
  Run-exceeded (stopped {hop = hop} {c = c} {r = r} g s answered moved) e l p h =
      let same = (nat_beq_iff hop o.max_redirects).0 s in
      ((c, [], r, refl, answered, is_redirect-In r.status moved, refl), omega arith, omega arith)
  Run-exceeded (arrives g current k _ f) e l p h = cc
  Run-exceeded (follows {rounds = rounds} {hop = hop} {rs = rs} {c = d} rd g s r) e l p h =
      let other : hop ≢ o.max_redirects =
        λ same. let k = (nat_beq_iff hop o.max_redirects).1 same in cc in
      let n = length-snoc rs rd in
      let (a, b, n') = Run-exceeded r (omega arith) (omega arith) (omega arith) h in
      let (c, earlier, reply, last, answered, moved, q) = a in
      ((c, d ∷ earlier, reply, ap (λ cs. d ∷ cs) last, answered, moved, q), b, omega arith)

  -- Where a fetch gives up because the redirects are too many, the answer to its last request was
  -- still a redirect (301, 302, 303, 307 or 308), whose status is reported, after the greatest number
  -- of redirects and one request more: the code after the loop is never reached.
  pub fetch_with_guards-exceeded :
      (fetch_with_guards w o start).1.error ≡ some exceeded_redirects
      → StillRedirects w o (fetch_with_guards w o start).0 (fetch_with_guards w o start).1
        × (length (fetch_with_guards w o start).1.redirects ≡ o.max_redirects)
        × (length (fetch_with_guards w o start).0 ≡ suc o.max_redirects)
  unfolding fetch_with_guards
  fetch_with_guards-exceeded h =
      Run-exceeded (hops-Run w o start (suc o.max_redirects) 0 start []) (omega arith) refl
        (omega arith) h

  pub fetch_with_guards-All : All (IsGuarded w) (fetch_with_guards w o start).0
  unfolding fetch_with_guards
  fetch_with_guards-All = Run-All (hops-Run w o start (suc o.max_redirects) 0 start [])

  pub fetch_with_guards-length : length (fetch_with_guards w o start).0 ≤ suc o.max_redirects
  unfolding fetch_with_guards
  fetch_with_guards-length = Run-length (hops-Run w o start (suc o.max_redirects) 0 start [])

  pub fetch_with_guards-Arrival :
      (fetch_with_guards w o start).1.reachable ≡ true
      → Arrival w o start (fetch_with_guards w o start).0 (fetch_with_guards w o start).1
  unfolding fetch_with_guards
  fetch_with_guards-Arrival h = Run-Arrival (hops-Run w o start (suc o.max_redirects) 0 start []) h

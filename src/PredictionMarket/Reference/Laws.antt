-- ===== src/PredictionMarket/Reference/Laws.antt =====
-- The recursion of `parsePredictionMarketReference` ends, and what it returns is in canonical form.
use directory.Common.{
  ℕ, suc, ◌+◌, ◌≡◌, inl, inr, refl, ap, ◌∙◌, subst, Bool, true, false, not, ◌&&◌, ◌||◌, Option,
  none, some, [], ◌∷◌, ◌++◌, map, if◌then◌else◌, ◌==◌, nat_eq, text_eq, Text, codes, arith,
  is_empty, starts_with, Bool-cases, All, includes,
}
use directory.Search.{trim, is_space, trim_start, trim_end}
use directory.Common.{starts_with_iff}
use directory.PredictionMarket.Reference.{
  PredictionMarketReference, id, slug, value_of, Parsed, ok, throws, InputError, ParsedUrl,
  is_market_id, is_market_slug, is_http, last_segment, market_segment, parse_slug, lower_ascii,
  parse_prediction_market_reference, hosts, invalid_market, follow,
}

-- No slash stands in a part of a path.
abbrev NoSlash : Text → Type 0
NoSlash s = All (λ c. (c == b'/') ≡ false) s

NoSlash-append : (s : Text) (c : ℕ) → NoSlash s → (c == b'/') ≡ false → NoSlash (s ++ c ∷ [])
NoSlash-append [] c h k = (k, tt)
NoSlash-append (d ∷ s) c (h, hs) k = (h, NoSlash-append s c hs k)

NoSlash-if : (b : Bool) (s t : Text) → NoSlash s → NoSlash t → NoSlash (if b then s else t)
NoSlash-if true s t h k = h
NoSlash-if false s t h k = k

last_segment-NoSlash :
    (last seg s : Text) → NoSlash last → NoSlash seg → NoSlash (last_segment last seg s)
unfolding last_segment
last_segment-NoSlash last [] [] h k = h
last_segment-NoSlash last (c ∷ seg) [] h k = k
last_segment-NoSlash last seg (c ∷ s) h k = elim (Bool-cases (c == b'/')) [
  | inl e ↦ rw e (
      last_segment-NoSlash (if not (is_empty seg) then seg else last) [] s
        (NoSlash-if (not (is_empty seg)) seg last k h) tt)
  | inr e ↦ rw e (last_segment-NoSlash last (seg ++ c ∷ []) s h (NoSlash-append seg c k e))
]

trim_start-NoSlash : (s : Text) → NoSlash s → NoSlash (trim_start s)
unfolding trim_start
trim_start-NoSlash [] h = tt
trim_start-NoSlash (c ∷ s) (h, hs) = elim (Bool-cases (is_space c)) [
  | inl e ↦ rw e (trim_start-NoSlash s hs)
  | inr e ↦ rw e (h, hs)
]

trim_end-NoSlash : (s : Text) → NoSlash s → NoSlash (trim_end s)
unfolding trim_end
trim_end-NoSlash [] h = tt
trim_end-NoSlash (c ∷ s) (h, hs) = elim (Bool-cases (is_space c && is_empty (trim_end s))) [
  | inl e ↦ rw e tt
  | inr e ↦ rw e (h, trim_end-NoSlash s hs)
]

lower-NoSlash : (s : Text) → NoSlash s → NoSlash (map lower_ascii s)
lower-NoSlash [] h = tt
lower-NoSlash (c ∷ s) (h, hs) = (ground arith, lower-NoSlash s hs)

NoSlash-not_http : (s : Text) → NoSlash s → is_http s ≡ false
unfolding is_http
NoSlash-not_http s h =
    let t = map lower_ascii s in
    let k : NoSlash t = lower-NoSlash s h in
    elim (Bool-cases (starts_with t (codes "http://"))) [
      | inl e ↦
          let (r, q) = (starts_with_iff t (codes "http://")).0 e in
          let w : NoSlash (codes "http://" ++ r) = subst NoSlash q k in
          let bad : true ≡ false = w.1.1.1.1.1.0 in cc
      | inr e ↦ elim (Bool-cases (starts_with t (codes "https://"))) [
        | inl g ↦
            let (r, q) = (starts_with_iff t (codes "https://")).0 g in
            let w : NoSlash (codes "https://" ++ r) = subst NoSlash q k in
            let bad : true ≡ false = w.1.1.1.1.1.1.0 in cc
        | inr g ↦ rw (e, g) refl
      ]
    ]

market_segment-NoSlash : (o : Option ParsedUrl) → NoSlash (market_segment o).1
unfolding market_segment
market_segment-NoSlash none = tt
market_segment-NoSlash (some url) =
    let segment = last_segment [] [] url.pathname in
    elim (Bool-cases (not (includes hosts url.hostname))) [
      | inl e ↦ rw e tt
      | inr e ↦
          elim (Bool-cases
            (is_empty segment || segment == codes "event" || segment == codes "market")) [
              | inl g ↦ rw (e, g) tt
              | inr g ↦ rw (e, g) (last_segment-NoSlash [] [] url.pathname tt tt)
            ]
    ]

trim-NoSlash : (s : Text) → NoSlash s → NoSlash (trim s)
unfolding trim
trim-NoSlash s h = trim_end-NoSlash (trim_start s) (trim_start-NoSlash s h)

abbrev pub IsPlain : Text → Type 0
IsPlain s = is_http s ≡ false

abbrev pub plain : Text → Parsed
plain s = if is_market_id s then ok (id s) else parse_slug s

-- The text that a reference was read from is the reference's own value.
abbrev pub IsCanonical : PredictionMarketReference → Type 0
IsCanonical (id v) = is_market_id v ≡ true
IsCanonical (slug v) = (is_market_id v ≡ false) × (is_http v ≡ false) × (is_market_slug v ≡ true)

pub plain-IsCanonical :
    (s : Text) (r : PredictionMarketReference) → IsPlain s → plain s ≡ ok r → IsCanonical r
unfolding parse_slug
plain-IsCanonical s r p h = elim (Bool-cases (is_market_id s)) [
  | inl e ↦ let k : ok (id s) ≡ ok r = rw e at h in let w : id s ≡ r = cc in subst IsCanonical w e
  | inr e ↦ elim (Bool-cases (is_market_slug s)) [
    | inl g ↦
        let k : ok (slug s) ≡ ok r = rw (e, g, parse_slug) at h in
        let w : slug s ≡ r = cc in subst IsCanonical w (e, p, g)
    | inr g ↦ let k : throws invalid_market ≡ ok r = rw (e, g, parse_slug) at h in cc
  ]
]

module _ (parse_url : Text → Option ParsedUrl) where
  pub parse_plain :
      (fuel : ℕ) (s : Text)
      → IsPlain (trim s)
      → parse_prediction_market_reference parse_url (suc fuel) s ≡ some (plain (trim s))
  unfolding parse_prediction_market_reference
  parse_plain fuel s p = elim (Bool-cases (is_market_id (trim s))) [
    | inl e ↦ rw (e, parse_prediction_market_reference) refl
    | inr e ↦ rw (e, p, parse_prediction_market_reference) refl
  ]

  abbrev pub error_of : Text → Option InputError
  error_of s = (market_segment (parse_url (trim s))).0

  abbrev pub segment_of : Text → Text
  segment_of s = (market_segment (parse_url (trim s))).1

  pub parse_id :
      (fuel : ℕ) (s : Text)
      → is_market_id (trim s) ≡ true
      → parse_prediction_market_reference parse_url (suc fuel) s ≡ some (ok (id (trim s)))
  unfolding parse_prediction_market_reference
  parse_id fuel s e = rw (e, parse_prediction_market_reference) refl

  parse_http :
      (fuel : ℕ) (s : Text)
      → is_market_id (trim s) ≡ false
      → is_http (trim s) ≡ true
      → parse_prediction_market_reference parse_url (suc fuel) s
        ≡ follow (error_of s) (parse_prediction_market_reference parse_url fuel (segment_of s))
  unfolding parse_prediction_market_reference
  parse_http fuel s e p = rw (e, p, parse_prediction_market_reference) refl

  abbrev pub linked : Text → Parsed
  linked s = plain (trim (segment_of s))

  -- The part of a path has no slash, so the call on it looks at no URL.
  pub segment-IsPlain : (s : Text) → IsPlain (trim (segment_of s))
  segment-IsPlain s =
      NoSlash-not_http (trim (segment_of s))
        (trim-NoSlash (segment_of s) (market_segment-NoSlash (parse_url (trim s))))

  pub parse_link :
      (fuel : ℕ) (s : Text)
      → is_market_id (trim s) ≡ false
      → is_http (trim s) ≡ true
      → parse_prediction_market_reference parse_url (suc (suc fuel)) s
        ≡ follow (error_of s) (some (linked s))
  parse_link fuel s e p =
      parse_http (suc fuel) s e p
      ∙ ap (follow (error_of s)) (parse_plain fuel (segment_of s) (segment-IsPlain s))

  follow-some : (o : Option InputError) (p : Parsed) → (r : Parsed) × (follow o (some p) ≡ some r)
  follow-some none p = (p, refl)
  follow-some (some e) p = (throws e, refl)

  -- Two rounds are enough for every input, whatever the class URL makes of it: the call on a part of
  -- the path does not call itself again. With more fuel the result is the same.
  pub parse_prediction_market_reference_terminates :
      (input : Text) (fuel : ℕ)
      → (r : Parsed) × (parse_prediction_market_reference parse_url 2 input ≡ some r)
        × (parse_prediction_market_reference parse_url (2 + fuel) input ≡ some r)
  parse_prediction_market_reference_terminates input fuel =
      let two : 2 + fuel ≡ suc (suc fuel) = omega arith in
      elim (Bool-cases (is_market_id (trim input))) [
        | inl e ↦ (ok (id (trim input)), parse_id 1 input e, rw two (parse_id (suc fuel) input e))
        | inr e ↦ elim (Bool-cases (is_http (trim input))) [
          | inl p ↦
              let (r, q) = follow-some (error_of input) (linked input) in
              (r, parse_link 0 input e p ∙ q, rw two (parse_link fuel input e p ∙ q))
          | inr p ↦
              (plain (trim input), parse_plain 1 input p, rw two (parse_plain (suc fuel) input p))
        ]
      ]

  pub parse_canonical :
      (fuel : ℕ) (r : PredictionMarketReference)
      → trim (value_of r) ≡ value_of r
      → IsCanonical r
      → parse_prediction_market_reference parse_url (suc fuel) (value_of r) ≡ some (ok r)
  unfolding parse_slug
  parse_canonical fuel (id v) t h = parse_id fuel v (rw t h) ∙ ap (λ x. some (ok (id x))) t
  parse_canonical fuel (slug v) t (h, p, g) = parse_plain fuel v (rw t p) ∙ rw (t, h, g) refl

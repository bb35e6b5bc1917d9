-- ===== src/PredictionMarket/Reference/Canonical.antt =====
-- The value of a reference, read again.
use directory.Common.{
  ◌≡◌, ◌∙◌, sym, refl, subst, true, false, Option, none, some, [], ◌∷◌, nat_eq, Text, arith, all,
  All, Bool-cases, inl, inr,
}
use directory.Search.{trim, is_space, trim_start, trim_end}
use directory.PredictionMarket.Freshness.{is_digit}
use directory.PredictionMarket.Reference.{
  PredictionMarketReference, id, slug, value_of, Parsed, ok, InputError, ParsedUrl, follow,
  is_market_id, is_market_slug, is_http, is_slug_rest, market_segment,
  parse_prediction_market_reference,
}
use directory.PredictionMarket.Reference.Laws.{
  IsCanonical, plain-IsCanonical, plain, parse_id, parse_plain, parse_link, parse_canonical,
  segment-IsPlain, linked,
}

abbrev NoSpace : Text → Type 0
NoSpace s = All (λ c. is_space c ≡ false) s

trim_start_of_NoSpace : (s : Text) → NoSpace s → trim_start s ≡ s
unfolding trim_start
trim_start_of_NoSpace [] h = refl
trim_start_of_NoSpace (c ∷ s) (h, hs) = rw h refl

trim_end_of_NoSpace : (s : Text) → NoSpace s → trim_end s ≡ s
unfolding trim_end
trim_end_of_NoSpace [] h = refl
trim_end_of_NoSpace (c ∷ s) (h, hs) = rw (h, trim_end_of_NoSpace s hs) refl

trim_of_NoSpace : (s : Text) → NoSpace s → trim s ≡ s
unfolding trim
trim_of_NoSpace s h = rw (trim_start_of_NoSpace s h, trim_end_of_NoSpace s h) refl

digits-NoSpace : (s : Text) → all is_digit s ≡ true → NoSpace s
digits-NoSpace [] h = tt
digits-NoSpace (c ∷ s) h = (ground arith, digits-NoSpace s (ground arith))

slug_rest-NoSpace : (s : Text) → all is_slug_rest s ≡ true → NoSpace s
slug_rest-NoSpace [] h = tt
slug_rest-NoSpace (c ∷ s) h = (ground arith, slug_rest-NoSpace s (ground arith))

market_slug-NoSpace : (s : Text) → is_market_slug s ≡ true → NoSpace s
unfolding is_market_slug
market_slug-NoSpace [] h = tt
market_slug-NoSpace (c ∷ s) h = (ground arith, slug_rest-NoSpace s (ground arith))

market_id-NoSpace : (s : Text) → is_market_id s ≡ true → NoSpace s
unfolding is_market_id
market_id-NoSpace s h = digits-NoSpace s (ground arith)

IsCanonical-NoSpace : (r : PredictionMarketReference) → IsCanonical r → NoSpace (value_of r)
IsCanonical-NoSpace (id v) h = market_id-NoSpace v h
IsCanonical-NoSpace (slug v) (h, p, g) = market_slug-NoSpace v g

followed :
    (o : Option InputError) (p : Parsed) (r : PredictionMarketReference)
    → follow o (some p) ≡ some (ok r)
    → (o ≡ none) × (p ≡ ok r)
followed none p r k = (refl, cc)
followed (some x) p r k = cc

module _ (parse_url : Text → Option ParsedUrl) where
  parsed-IsCanonical :
      (input : Text) (r : PredictionMarketReference)
      → parse_prediction_market_reference parse_url 2 input ≡ some (ok r)
      → IsCanonical r
  parsed-IsCanonical input r h = elim (Bool-cases (is_market_id (trim input))) [
    | inl e ↦
        let k : some (ok (id (trim input))) ≡ some (ok r) =
          sym (parse_id parse_url 1 input e) ∙ h in
        let w : id (trim input) ≡ r = cc in subst IsCanonical w e
    | inr e ↦ elim (Bool-cases (is_http (trim input))) [
      | inl p ↦
          let (same, q) =
            followed (market_segment (parse_url (trim input))).0 (linked parse_url input) r
              (sym (parse_link parse_url 0 input e p) ∙ h) in
          plain-IsCanonical (trim (market_segment (parse_url (trim input))).1) r
            (segment-IsPlain parse_url input) q
      | inr p ↦
          let k : some (plain (trim input)) ≡ some (ok r) =
            sym (parse_plain parse_url 1 input p) ∙ h in
          plain-IsCanonical (trim input) r p (cc)
    ]
  ]

  -- What a reference was read from, a market's URL, a padded number or a slug, can be
  -- read again from the reference's own value: parsing the value returns the same reference.
  pub parse_prediction_market_reference-value :
      (input : Text) (r : PredictionMarketReference)
      → parse_prediction_market_reference parse_url 2 input ≡ some (ok r)
      → parse_prediction_market_reference parse_url 2 (value_of r) ≡ some (ok r)
  parse_prediction_market_reference-value input r h =
      let c = parsed-IsCanonical input r h in
      parse_canonical parse_url 1 r (trim_of_NoSpace (value_of r) (IsCanonical-NoSpace r c)) c

-- ===== src/Slug/Laws.antt =====
-- Which texts `slugify` leaves alone, and that it settles in one round.
use directory.Common.{
  ℕ, ◌≡◌, ◌≢◌, ◌↔◌, refl, subst, Bool, true, false, [], ◌∷◌, arith, codes, Text, All, is_empty,
  Bool-cases, inl, inr, ◌==◌, nat_eq, ◌&&◌, if◌then◌else◌,
}
use directory.Slug.{
  to_lower_case, lower_char, is_slug_char, collapse, drop_dashes, strip_dashes, slugify,
}

abbrev pub IsSlugText : Text → Type 0
IsSlugText s = All (λ c. is_slug_char c ≡ true) s

-- No dash in front.
abbrev pub StartsPlain : Text → Type 0
StartsPlain [] = Unit
StartsPlain (c ∷ s) = c ≢ b'-'

abbrev pub EndsPlain : Text → Type 0
EndsPlain [] = Unit
EndsPlain (c ∷ []) = c ≢ b'-'
EndsPlain (c ∷ d ∷ s) = EndsPlain (d ∷ s)

test_slugify :
    (slugify (codes "OpenAI Docs!") ≡ codes "openai-docs")
    × (slugify (codes "--a//b--") ≡ codes "a-b")
    × (slugify (codes "abc-") ≡ codes "abc")
    × (slugify (codes "日本") ≡ [])
unfolding slugify is_slug_char lower_char
test_slugify = (refl, refl, refl, refl)

lower_char_lem : (c : ℕ) → is_slug_char c ≡ true → lower_char c ≡ c
unfolding lower_char is_slug_char
lower_char_lem c h = ground arith

not_dotted : (c : ℕ) → is_slug_char c ≡ true → (c == 0x130) ≡ false
unfolding is_slug_char
not_dotted c h = ground arith

to_lower_case_of_IsSlugText : (s : Text) → IsSlugText s → to_lower_case s ≡ s
unfolding to_lower_case
to_lower_case_of_IsSlugText [] h = refl
to_lower_case_of_IsSlugText (c ∷ s) (h, k) =
    rw (not_dotted c h, lower_char_lem c h, to_lower_case_of_IsSlugText s k) refl

collapse_of_IsSlugText : (b : Bool) (s : Text) → IsSlugText s → collapse b s ≡ s
unfolding collapse
collapse_of_IsSlugText b [] h = refl
collapse_of_IsSlugText b (c ∷ s) (h, k) = rw (h, collapse_of_IsSlugText false s k) refl

dash_IsSlug : is_slug_char b'-' ≡ true
unfolding is_slug_char
dash_IsSlug = refl

collapse-IsSlugText : (b : Bool) (s : Text) → IsSlugText (collapse b s)
unfolding collapse
collapse-IsSlugText b [] = tt
collapse-IsSlugText b (c ∷ s) = elim (Bool-cases (is_slug_char c)) [
  | inl e ↦ rw e (e, collapse-IsSlugText false s)
  | inr e ↦ rw e (skip b (collapse true s) (collapse-IsSlugText true s))
]
  where
    skip : (b : Bool) (r : Text) → IsSlugText r → IsSlugText (if b then r else b'-' ∷ r)
    skip true r h = h
    skip false r h = (dash_IsSlug, h)

drop_dashes-IsSlugText : (s : Text) → IsSlugText s → IsSlugText (drop_dashes s)
unfolding drop_dashes
drop_dashes-IsSlugText [] h = tt
drop_dashes-IsSlugText (c ∷ s) (h, k) = ground (arith, drop_dashes-IsSlugText s k)

strip_dashes-IsSlugText : (s : Text) → IsSlugText s → IsSlugText (strip_dashes s)
unfolding strip_dashes
strip_dashes-IsSlugText [] h = tt
strip_dashes-IsSlugText (c ∷ s) (h, k) = ground (arith, strip_dashes-IsSlugText s k)

drop_dashes-StartsPlain : (s : Text) → StartsPlain (drop_dashes s)
unfolding drop_dashes
drop_dashes-StartsPlain [] = tt
drop_dashes-StartsPlain (c ∷ s) = ground (arith, drop_dashes-StartsPlain s)

drop_dashes_of_StartsPlain : (s : Text) → StartsPlain s → drop_dashes s ≡ s
unfolding drop_dashes
drop_dashes_of_StartsPlain [] h = refl
drop_dashes_of_StartsPlain (c ∷ s) h = ground arith

strip_dashes-StartsPlain : (s : Text) → StartsPlain s → StartsPlain (strip_dashes s)
unfolding strip_dashes
strip_dashes-StartsPlain [] h = tt
strip_dashes-StartsPlain (c ∷ s) h = ground arith

cons-EndsPlain :
    (c : ℕ) (r : Text) → EndsPlain r → EndsPlain (if c == b'-' && is_empty r then [] else c ∷ r)
cons-EndsPlain c [] h = ground arith
cons-EndsPlain c (d ∷ r) h = ground arith

strip_dashes-EndsPlain : (s : Text) → EndsPlain (strip_dashes s)
unfolding strip_dashes
strip_dashes-EndsPlain [] = tt
strip_dashes-EndsPlain (c ∷ s) = cons-EndsPlain c (strip_dashes s) (strip_dashes-EndsPlain s)

strip_dashes_of_EndsPlain : (s : Text) → EndsPlain s → strip_dashes s ≡ s
unfolding strip_dashes
strip_dashes_of_EndsPlain [] h = refl
strip_dashes_of_EndsPlain (c ∷ []) h = ground arith
strip_dashes_of_EndsPlain (c ∷ d ∷ s) h = rw (strip_dashes_of_EndsPlain (d ∷ s) h) (ground arith)

-- A slug: characters of [a-z0-9:_-] only, and no dash at either end.
abbrev pub IsSlug : Text → Type 0
IsSlug s = IsSlugText s × StartsPlain s × EndsPlain s

-- The result of `slugify` is a slug, whatever the text: characters of [a-z0-9:_-] only, and no
-- dash at either end.
pub slugify-IsSlug : (s : Text) → IsSlug (slugify s)
unfolding slugify
slugify-IsSlug s =
    let t : Text = collapse false (to_lower_case s) in
    (
      strip_dashes-IsSlugText (drop_dashes t)
          (drop_dashes-IsSlugText t (collapse-IsSlugText false (to_lower_case s))),
      strip_dashes-StartsPlain (drop_dashes t) (drop_dashes-StartsPlain t),
      strip_dashes-EndsPlain (drop_dashes t),
    )

pub slugify_of_IsSlug : (s : Text) → IsSlug s → slugify s ≡ s
unfolding slugify
slugify_of_IsSlug s (h, starts, ends) =
    rw (to_lower_case_of_IsSlugText s h, collapse_of_IsSlugText false s h)
      (rw (drop_dashes_of_StartsPlain s starts) (strip_dashes_of_EndsPlain s ends))

-- `slugify` leaves a text alone exactly when it is a slug; so a name with a dash at an end, which
-- the registration schema admits, is changed.
pub slugify-eq-self_iff : (s : Text) → (slugify s ≡ s) ↔ IsSlug s
slugify-eq-self_iff s = (λ e. subst IsSlug e (slugify-IsSlug s), slugify_of_IsSlug s)

-- Slugifying a second time changes nothing, so a slug found by a name is found by itself.
pub slugify_idempotent : (s : Text) → slugify (slugify s) ≡ slugify s
slugify_idempotent s = slugify_of_IsSlug (slugify s) (slugify-IsSlug s)

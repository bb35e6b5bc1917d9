-- ===== src/Common/Parts.antt =====
-- What `startsWith` and `includes` decide of two texts.
use mathlib.Core.Path.{◌≡◌, refl, ap, ap₂}
use mathlib.Core.Logic.{◌↔◌, inl, inr}
use mathlib.Core.Bool.{true}
use mathlib.Core.List.{[], ◌∷◌, ◌++◌}
use native.Mathlib.Omega.{arith}
use directory.Common.Tests.{Bool-cases}
use directory.Common.Chars.{Text, starts_with, has_part}

pub starts_with_iff : (t p : Text) → (starts_with t p ≡ true) ↔ ((s : Text) × (t ≡ p ++ s))
starts_with_iff t [] = (λ h. (t, refl), λ h. refl)
starts_with_iff [] (c ∷ p) = (λ h. cc, λ (s, e). cc)
starts_with_iff (d ∷ t) (c ∷ p) = (
  λ h.
      let (s, e) = (starts_with_iff t p).0 (ground arith) in
      let same : d ≡ c = ground arith in (s, ap₂ (λ x y. x ∷ y) same e),
  λ (s, e).
      let tails : t ≡ p ++ s = cc in
      let heads : d ≡ c = cc in let k = (starts_with_iff t p).1 (s, tails) in ground arith,
)

-- `p` stands somewhere in `t`.
abbrev pub Part : Text → Text → Type 0
Part p t = (a : Text) × (b : Text) × (t ≡ a ++ (p ++ b))

has_part_of_Part : (a t p b : Text) → t ≡ a ++ (p ++ b) → has_part t p ≡ true
has_part_of_Part [] [] p b e = (starts_with_iff [] p).1 (b, e)
has_part_of_Part [] (d ∷ t) p b e = let k = (starts_with_iff (d ∷ t) p).1 (b, e) in rw k refl
has_part_of_Part (c ∷ a) [] p b e = cc
has_part_of_Part (c ∷ a) (d ∷ t) p b e =
    let tails : t ≡ a ++ (p ++ b) = cc in let k = has_part_of_Part a t p b tails in ground arith

Part-of_has_part : (t p : Text) → has_part t p ≡ true → Part p t
Part-of_has_part [] p h = let (s, e) = (starts_with_iff [] p).0 h in ([], s, e)
Part-of_has_part (d ∷ t) p h = elim (Bool-cases (starts_with (d ∷ t) p)) [
  | inl k ↦ let (s, e) = (starts_with_iff (d ∷ t) p).0 k in ([], s, e)
  | inr k ↦ let (a, b, e) = Part-of_has_part t p (rw k at h) in (d ∷ a, b, ap (λ x. d ∷ x) e)
]

pub has_part_iff : (t p : Text) → (has_part t p ≡ true) ↔ Part p t
has_part_iff t p = (Part-of_has_part t p, λ (a, b, e). has_part_of_Part a t p b e)

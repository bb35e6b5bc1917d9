-- ===== src/Common/Chars.antt =====
-- Text whose characters the program walks: a list of code points.
use Prim.Native.Nat.{ℕ}
use Prim.Native.Char.{code}
use Prim.Native.String.{String}
use mathlib.Core.Path.{◌≡◌, refl, ap₂}
use mathlib.Core.Logic.{◌↔◌}
use mathlib.Core.Bool.{Bool, true, false, ◌&&◌, ◌||◌}
use mathlib.Core.List.{List, [], ◌∷◌}
use native.Mathlib.Omega.{arith}
use directory.Common.Tests.{nat_beq, StrictEq}

abbrev pub Text : Type 0
Text = List ℕ

abbrev pub codes : String → Text
codes String.[] = []
codes (String.◌∷◌ c s) = code c ∷ codes s

abbrev pub text_beq : Text → Text → Bool
text_beq [] [] = true
text_beq [] (d ∷ t) = false
text_beq (c ∷ s) [] = false
text_beq (c ∷ s) (d ∷ t) = nat_beq c d && text_beq s t

eq_of_text_beq : (s t : Text) → text_beq s t ≡ true → s ≡ t
eq_of_text_beq [] [] h = refl
eq_of_text_beq [] (d ∷ t) h = cc
eq_of_text_beq (c ∷ s) [] h = cc
eq_of_text_beq (c ∷ s) (d ∷ t) h =
    ap₂ (λ x y. x ∷ y) (ground arith) (eq_of_text_beq s t (ground arith))

text_beq_refl : (s : Text) → text_beq s s ≡ true
text_beq_refl [] = refl
text_beq_refl (c ∷ s) = ground (arith, text_beq_refl s)

pub text_beq_iff : (s t : Text) → (text_beq s t ≡ true) ↔ (s ≡ t)
text_beq_iff s t = (eq_of_text_beq s t, λ e. rw e (text_beq_refl t))

instance abbrev pub text_eq : StrictEq Text
text_eq = record { same = text_beq; same_iff = text_beq_iff }

abbrev pub starts_with : Text → Text → Bool
starts_with t [] = true
starts_with [] (c ∷ p) = false
starts_with (d ∷ t) (c ∷ p) = nat_beq d c && starts_with t p

-- `t.includes(p)`
abbrev pub has_part : Text → Text → Bool
has_part [] p = starts_with [] p
has_part (d ∷ t) p = starts_with (d ∷ t) p || has_part t p

-- ===== src/Common/Lists.antt =====
-- Array methods over native numbers: `filter`, `some`, `every`, `slice`, membership.
use Prim.Native.Nat.{ℕ, zero, suc, ◌≤◌, min}
use mathlib.Core.Path.{◌≡◌, refl, ap}
use mathlib.Core.Logic.{◌↔◌, ◌⊎◌, inl, inr}
use mathlib.Core.Bool.{Bool, true, false, not, ◌&&◌, ◌||◌}
use mathlib.Core.Option.{Option, none, some}
use mathlib.Core.List.{List, [], ◌∷◌, ◌++◌, map}
use native.Mathlib.Omega.{arith}
use directory.Common.Tests.{if◌then◌else◌, StrictEq, ◌==◌, Bool-cases}

-- No case, at every level.
pub data Never {ℓ} : Type ℓ where

module _ {ℓ} {A : Type ℓ} where
  abbrev pub length : List A → ℕ
  length [] = 0
  length (x ∷ xs) = suc (length xs)

  abbrev pub take : ℕ → List A → List A
  take zero xs = []
  take (suc n) [] = []
  take (suc n) (x ∷ xs) = x ∷ take n xs

  abbrev pub filter : (A → Bool) → List A → List A
  filter p [] = []
  filter p (x ∷ xs) = if p x then x ∷ filter p xs else filter p xs

  abbrev pub any : (A → Bool) → List A → Bool
  any p [] = false
  any p (x ∷ xs) = p x || any p xs

  abbrev pub all : (A → Bool) → List A → Bool
  all p [] = true
  all p (x ∷ xs) = p x && all p xs

  abbrev pub find : (A → Bool) → List A → Option A
  find p [] = none
  find p (x ∷ xs) = if p x then some x else find p xs

  abbrev pub is_empty : List A → Bool
  is_empty [] = true
  is_empty (x ∷ xs) = false

  pub is_empty_iff : (l : List A) → (is_empty l ≡ true) ↔ (l ≡ [])
  is_empty_iff [] = (λ h. refl, λ h. refl)
  is_empty_iff (x ∷ l) = (λ h. cc, λ h. cc)

  -- Membership by recursion, which the tactics split on.
  abbrev pub In : A → List A → Type ℓ
  In a [] = Never
  In a (x ∷ xs) = (a ≡ x) ⊎ In a xs

  abbrev pub All {κ} : (A → Type κ) → List A → Type κ
  All P [] = Unit
  All P (x ∷ xs) = P x × All P xs

  pub In-append : (a : A) (xs ys : List A) → In a (xs ++ ys) → In a xs ⊎ In a ys
  In-append a [] ys h = inr h
  In-append a (x ∷ xs) ys (inl e) = inl (inl e)
  In-append a (x ∷ xs) ys (inr h) = elim (In-append a xs ys h) [
    | inl l ↦ inl (inr l)
    | inr r ↦ inr r
  ]

  pub In-filter : (p : A → Bool) (a : A) (xs : List A) → In a (filter p xs) → In a xs × (p a ≡ true)
  In-filter p a [] h = elim h [ ]
  In-filter p a (x ∷ xs) h = elim (Bool-cases (p x)) [
    | inl e ↦ elim (let g : (a ≡ x) ⊎ In a (filter p xs) = rw e at h in g) [
      | inl same ↦ (inl same, rw same e)
      | inr deep ↦ let (i, q) = In-filter p a xs deep in (inr i, q)
    ]
    | inr e ↦ let (i, q) = In-filter p a xs (rw e at h) in (inr i, q)
  ]

  pub filter-In : (p : A → Bool) (a : A) (xs : List A) → In a xs → p a ≡ true → In a (filter p xs)
  filter-In p a [] h q = elim h [ ]
  filter-In p a (x ∷ xs) (inl e) q = rw (← e, q) (inl refl)
  filter-In p a (x ∷ xs) (inr h) q = elim (Bool-cases (p x)) [
    | inl e ↦ rw e (inr (filter-In p a xs h q))
    | inr e ↦ rw e (filter-In p a xs h q)
  ]

  pub In-take : (n : ℕ) (a : A) (xs : List A) → In a (take n xs) → In a xs
  In-take zero a xs h = elim h [ ]
  In-take (suc n) a [] h = elim h [ ]
  In-take (suc n) a (x ∷ xs) (inl e) = inl e
  In-take (suc n) a (x ∷ xs) (inr h) = inr (In-take n a xs h)

  pub length-take : (n : ℕ) (xs : List A) → length (take n xs) ≡ min n (length xs)
  length-take zero xs = omega arith
  length-take (suc n) [] = omega arith
  length-take (suc n) (x ∷ xs) = omega (arith, length-take n xs)

  pub take_all : (n : ℕ) (xs : List A) → length xs ≤ n → take n xs ≡ xs
  take_all zero [] h = refl
  take_all zero (x ∷ xs) h = elim h [ ]
  take_all (suc n) [] h = refl
  take_all (suc n) (x ∷ xs) h = ap (λ r. x ∷ r) (take_all n xs (omega arith))

  pub length-filter-le : (p : A → Bool) (xs : List A) → length (filter p xs) ≤ length xs
  length-filter-le p [] = omega arith
  length-filter-le p (x ∷ xs) = ground (arith, length-filter-le p xs)

  pub any-of-In : (p : A → Bool) (a : A) (xs : List A) → In a xs → p a ≡ true → any p xs ≡ true
  any-of-In p a [] h q = elim h [ ]
  any-of-In p a (x ∷ xs) (inl e) q = rw (← e, q) refl
  any-of-In p a (x ∷ xs) (inr h) q = ground (arith, any-of-In p a xs h q)

  pub any-In : (p : A → Bool) (xs : List A) → any p xs ≡ true → (a : A) × In a xs × (p a ≡ true)
  any-In p [] h = let k : false ≡ true = h in cc
  any-In p (x ∷ xs) h = elim (Bool-cases (p x)) [
    | inl e ↦ (x, inl refl, e)
    | inr e ↦ let (a, i, q) = any-In p xs (rw e at h) in (a, inr i, q)
  ]

  pub any-false : (p : A → Bool) (a : A) (xs : List A) → any p xs ≡ false → In a xs → p a ≡ false
  any-false p a [] e h = elim h [ ]
  any-false p a (x ∷ xs) e (inl same) = rw same (ground arith)
  any-false p a (x ∷ xs) e (inr h) = any-false p a xs (ground arith) h

  pub is_empty-filter : (p : A → Bool) (xs : List A) → is_empty (filter p xs) ≡ not (any p xs)
  is_empty-filter p [] = refl
  is_empty-filter p (x ∷ xs) = ground (arith, is_empty-filter p xs)

module _ {ℓ} {A : Type ℓ} ⦃e : StrictEq A⦄ where
  abbrev pub includes : List A → A → Bool
  includes [] a = false
  includes (x ∷ xs) a = x == a || includes xs a

  -- Adding to a `Set`, which keeps the order of insertion.
  abbrev pub set_add : A → List A → List A
  set_add a [] = a ∷ []
  set_add a (x ∷ xs) = if x == a then x ∷ xs else x ∷ set_add a xs

  -- `[...new Set(xs)]`, from the values that are already in the set
  abbrev pub unique_from : List A → List A → List A
  unique_from seen [] = seen
  unique_from seen (x ∷ xs) = unique_from (set_add x seen) xs

  abbrev pub unique : List A → List A
  unique xs = unique_from [] xs

  pub set_add-includes_self : (a : A) (xs : List A) → includes (set_add a xs) a ≡ true
  set_add-includes_self a [] = rw ((e.same_iff a a).1 refl) refl
  set_add-includes_self a (x ∷ xs) = elim (Bool-cases (x == a)) [
    | inl q ↦ rw (q, q) refl
    | inr q ↦ rw (q, q) (set_add-includes_self a xs)
  ]

  pub set_add-includes :
      (a b : A) (xs : List A) → includes (set_add a xs) b ≡ (a == b || includes xs b)
  set_add-includes a b [] = refl
  set_add-includes a b (x ∷ xs) = elim (Bool-cases (x == a)) [
    | inl q ↦ rw (q, (e.same_iff x a).0 q) (ground arith)
    | inr q ↦ rw (q, set_add-includes a b xs) (ground arith)
  ]

module _ {ℓ κ} {A : Type ℓ} {B : Type κ} (f : A → B) where
  pub In-map : (b : B) (l : List A) → In b (map f l) → (a : A) × In a l × (b ≡ f a)
  In-map b [] h = elim h [ ]
  In-map b (a ∷ l) (inl e) = (a, inl refl, e)
  In-map b (a ∷ l) (inr h) = let (c, i, e) = In-map b l h in (c, inr i, e)

  pub map-In : (a : A) (l : List A) → In a l → In (f a) (map f l)
  map-In a [] h = elim h [ ]
  map-In a (x ∷ l) (inl e) = inl (ap f e)
  map-In a (x ∷ l) (inr h) = inr (map-In a l h)

  pub length-map : (l : List A) → length (map f l) ≡ length l
  length-map [] = refl
  length-map (a ∷ l) = omega (arith, length-map l)

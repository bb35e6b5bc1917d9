-- ===== src/Common/Sort.antt =====
-- `array.sort(compare)`: stable, by insertion. `before a b` says that `compare(a, b) <= 0`.
use mathlib.Core.Path.{◌≡◌, refl}
use mathlib.Core.Logic.{◌⊎◌, inl, inr}
use mathlib.Core.Bool.{Bool, true, false}
use mathlib.Core.List.{List, [], ◌∷◌}
use native.Mathlib.Omega.{arith}
use Prim.Native.Nat.{suc}
use directory.Common.Tests.{if◌then◌else◌, Bool-cases}
use directory.Common.Lists.{length, In, All}

module _ {ℓ} {A : Type ℓ} (before : A → A → Bool) where
  unfoldable pub insert_by : A → List A → List A
  insert_by a [] = a ∷ []
  insert_by a (b ∷ l) = if before a b then a ∷ b ∷ l else b ∷ insert_by a l

  unfoldable pub sort_by : List A → List A
  unfolding insert_by
  sort_by [] = []
  sort_by (a ∷ l) = insert_by a (sort_by l)

  In-insert_by : (x a : A) (l : List A) → In x (insert_by a l) → (x ≡ a) ⊎ In x l
  unfolding insert_by
  In-insert_by x a [] h = h
  In-insert_by x a (b ∷ l) h = elim (Bool-cases (before a b)) [
    | inl e ↦ rw e at h
    | inr e ↦ elim (let g : (x ≡ b) ⊎ In x (insert_by a l) = rw e at h in g) [
      | inl q ↦ inr (inl q)
      | inr i ↦ elim (In-insert_by x a l i) [ inl q ↦ inl q | inr j ↦ inr (inr j) ]
    ]
  ]

  insert_by-In : (x a : A) (l : List A) → (x ≡ a) ⊎ In x l → In x (insert_by a l)
  unfolding insert_by
  insert_by-In x a [] h = h
  insert_by-In x a (b ∷ l) h = elim (Bool-cases (before a b)) [
    | inl e ↦ rw e h
    | inr e ↦ rw e (elim h [
      | inl q ↦ inr (insert_by-In x a l (inl q))
      | inr i ↦ elim i [ inl q ↦ inl q | inr j ↦ inr (insert_by-In x a l (inr j)) ]
    ])
  ]

  pub In-sort_by : (x : A) (l : List A) → In x (sort_by l) → In x l
  unfolding sort_by
  In-sort_by x [] h = h
  In-sort_by x (a ∷ l) h = elim (In-insert_by x a (sort_by l) h) [
    | inl q ↦ inl q
    | inr i ↦ inr (In-sort_by x l i)
  ]

  pub sort_by-In : (x : A) (l : List A) → In x l → In x (sort_by l)
  unfolding sort_by
  sort_by-In x [] h = h
  sort_by-In x (a ∷ l) (inl q) = insert_by-In x a (sort_by l) (inl q)
  sort_by-In x (a ∷ l) (inr i) = insert_by-In x a (sort_by l) (inr (sort_by-In x l i))

  length-insert_by : (a : A) (l : List A) → length (insert_by a l) ≡ suc (length l)
  unfolding insert_by
  length-insert_by a [] = refl
  length-insert_by a (b ∷ l) = ground (arith, length-insert_by a l)

  pub length-sort_by : (l : List A) → length (sort_by l) ≡ length l
  unfolding sort_by
  length-sort_by [] = refl
  length-sort_by (a ∷ l) = omega (arith, length-insert_by a (sort_by l), length-sort_by l)

  -- Each element comes before all that follow it.
  abbrev pub Sorted : List A → Type ℓ
  Sorted [] = Unit
  Sorted (a ∷ l) = All (λ b. before a b ≡ true) l × Sorted l

  module _ (total : (a b : A) → before a b ≡ false → before b a ≡ true)
      (trans : (a b c : A) → before a b ≡ true → before b c ≡ true → before a c ≡ true) where
    All-before :
        (a b : A) (l : List A)
        → before a b ≡ true
        → All (λ c. before b c ≡ true) l
        → All (λ c. before a c ≡ true) l
    All-before a b [] h k = tt
    All-before a b (c ∷ l) h (k, ks) = (trans a b c h k, All-before a b l h ks)

    All-insert_by :
        (b a : A) (l : List A)
        → before b a ≡ true
        → All (λ c. before b c ≡ true) l
        → All (λ c. before b c ≡ true) (insert_by a l)
    unfolding insert_by
    All-insert_by b a [] h k = (h, tt)
    All-insert_by b a (c ∷ l) h (k, ks) = elim (Bool-cases (before a c)) [
      | inl e ↦ rw e (h, (k, ks))
      | inr e ↦ rw e (k, All-insert_by b a l h ks)
    ]

    insert_by-Sorted : (a : A) (l : List A) → Sorted l → Sorted (insert_by a l)
    unfolding insert_by
    insert_by-Sorted a [] h = (tt, tt)
    insert_by-Sorted a (b ∷ l) (h, hs) = elim (Bool-cases (before a b)) [
      | inl e ↦ rw e ((e, All-before a b l e h), (h, hs))
      | inr e ↦ rw e (All-insert_by b a l (total a b e) h, insert_by-Sorted a l hs)
    ]

    pub sort_by-Sorted : (l : List A) → Sorted (sort_by l)
    unfolding sort_by
    sort_by-Sorted [] = tt
    sort_by-Sorted (a ∷ l) = insert_by-Sorted a (sort_by l) (sort_by-Sorted l)

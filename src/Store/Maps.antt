-- ===== src/Store/Maps.antt =====
-- Laws of the lookup and the write by key.
use directory.Common.{
  ◌≡◌, ◌≢◌, refl, sym, ◌∙◌, true, false, none, some, List, [], ◌∷◌, ◌++◌, if◌then◌else◌, StrictEq,
  ◌==◌, In, All, inl, inr, map, is_some, Bool-cases,
}
use directory.Store.{get, update}
use mathlib.Core.Option

module _ {ℓ κ} {A : Type ℓ} {K : Type κ} ⦃e : StrictEq K⦄ (key : A → K) where
  pub get-update_self :
      (k : K) (f : A → A) (l : List A)
      → ((a : A) → key (f a) ≡ key a)
      → get key k (update key k f l) ≡ Option.map f (get key k l)
  unfolding get update
  get-update_self k f [] keep = refl
  get-update_self k f (a ∷ l) keep = elim (Bool-cases (key a == k)) [
    | inl h ↦ rw h (rw (keep a, h) refl)
    | inr h ↦ rw (h, h) (get-update_self k f l keep)
  ]

  other_key : (i k j : K) → k ≢ j → (i == k) ≡ true → (i == j) ≡ false
  other_key i k j n h = elim (Bool-cases (i == j)) [
    | inl q ↦ absurd (n (sym ((e.same_iff i k).0 h) ∙ (e.same_iff i j).0 q))
    | inr q ↦ q
  ]

  pub get-update_ne :
      (k j : K) (f : A → A) (l : List A)
      → k ≢ j
      → ((a : A) → key (f a) ≡ key a)
      → get key j (update key k f l) ≡ get key j l
  unfolding get update
  get-update_ne k j f [] n keep = refl
  get-update_ne k j f (a ∷ l) n keep = elim (Bool-cases (key a == k)) [
    | inl h ↦ rw (h, keep a, other_key (key a) k j n h) (get-update_ne k j f l n keep)
    | inr h ↦ rw h (rw (get-update_ne k j f l n keep) refl)
  ]

  pub get-append :
      (k : K) (a : A) (l : List A)
      → get key k (l ++ a ∷ [])
        ≡ (if is_some (get key k l) then get key k l else if key a == k then some a else none)
  unfolding get
  get-append k a [] = refl
  get-append k a (b ∷ l) = elim (Bool-cases (key b == k)) [
    | inl h ↦ rw h refl
    | inr h ↦ rw h (get-append k a l)
  ]

  pub get-In : (k : K) (a : A) (l : List A) → get key k l ≡ some a → In a l × (key a ≡ k)
  unfolding get
  get-In k a [] h = cc
  get-In k a (b ∷ l) h = elim (Bool-cases (key b == k)) [
    | inl q ↦
        let s : some b ≡ some a = rw q at h in
        (inl (cc), (e.same_iff (key a) k).0 (let t : b ≡ a = cc in rw t at q))
    | inr q ↦ let (i, r) = get-In k a l (rw q at h) in (inr i, r)
  ]

  pub get-none : (k : K) (l : List A) → get key k l ≡ none → All (λ a. key a ≢ k) l
  unfolding get
  get-none k [] h = tt
  get-none k (b ∷ l) h = elim (Bool-cases (key b == k)) [
    | inl q ↦ absurd (none-ne b (rw q at h))
    | inr q ↦ (λ r. differ (key b) k q r, get-none k l (rw q at h))
  ]
    where
      none-ne : (b : A) → some b ≡ none → ⊥
      none-ne b h = cc

      differ : (j k : K) → (j == k) ≡ false → j ≡ k → ⊥
      differ j k q r = cc (q, (e.same_iff j k).1 r)

  module _ {μ} (P : A → Type μ) where
    -- What every object satisfies, and the write keeps.
    pub All-update :
        (k : K) (f : A → A) (l : List A)
        → ((a : A) → P a → P (f a))
        → All P l
        → All P (update key k f l)
    unfolding update
    All-update k f [] keep h = tt
    All-update k f (a ∷ l) keep (h, hs) = elim (Bool-cases (key a == k)) [
      | inl q ↦ rw q (keep a h, All-update k f l keep hs)
      | inr q ↦ rw q (h, All-update k f l keep hs)
    ]

-- The object found by one key, after a write to it by another key.
module _ {ℓ κ μ} {A : Type ℓ} {J : Type κ} {K : Type μ} ⦃d : StrictEq J⦄ ⦃e : StrictEq K⦄
    (name : A → J) (key : A → K) where
  pub get-update_by :
      (k : K) (a : A) (f : A → A) (l : List A)
      → ((b : A) → key (f b) ≡ key b)
      → get key k l ≡ some a
      → get key k (update name (name a) f l) ≡ some (f a)
  unfolding get update
  get-update_by k a f [] keep h = cc
  get-update_by k a f (b ∷ l) keep h = elim (Bool-cases (key b == k)) [
    | inl q ↦
        let s : some b ≡ some a = rw q at h in
        let same : b ≡ a = cc in
        rw (same, (d.same_iff (name a) (name a)).1 refl)
          (rw (keep a, (let t : (key a == k) ≡ true = rw same at q in t)) refl)
    | inr q ↦ elim (Bool-cases (name b == name a)) [
      | inl w ↦ rw w (rw (keep b, q) (get-update_by k a f l keep (rw q at h)))
      | inr w ↦ rw (w, q) (get-update_by k a f l keep (rw q at h))
    ]
  ]

module _ {ℓ μ} {A : Type ℓ} (P : A → Type μ) where
  pub All-append : (l : List A) (a : A) → All P l → P a → All P (l ++ a ∷ [])
  All-append [] a h p = (p, tt)
  All-append (b ∷ l) a (h, hs) p = (h, All-append l a hs p)

  pub All-of : (l : List A) → ((a : A) → In a l → P a) → All P l
  All-of [] h = tt
  All-of (b ∷ l) h = (h b (inl refl), All-of l (λ a i. h a (inr i)))

  pub All-In : (l : List A) (a : A) → All P l → In a l → P a
  All-In [] a h i = elim i [ ]
  All-In (b ∷ l) a (h, hs) (inl e) = rw e h
  All-In (b ∷ l) a (h, hs) (inr i) = All-In l a hs i

  pub All-map {ν} : {B : Type ν} (f : B → A) (l : List B) → ((b : B) → P (f b)) → All P (map f l)
  All-map f [] h = tt
  All-map f (b ∷ l) h = (h b, All-map f l h)

module _ {ℓ μ ν} {A : Type ℓ} (P : A → Type μ) (Q : A → Type ν) where
  pub All-mono : (l : List A) → ((a : A) → P a → Q a) → All P l → All Q l
  All-mono [] f h = tt
  All-mono (b ∷ l) f (h, hs) = (f b h, All-mono l f hs)

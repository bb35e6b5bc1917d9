-- ===== src/Store/Invariant.antt =====
-- What every operation on the in-memory catalog keeps.
use directory.Common.{
  ◌≡◌, ◌≢◌, refl, sym, ap, ap₂, subst, String, Bool, true, false, List, [], ◌∷◌, ◌++◌, map, All,
  Bool-cases, inl, inr, ◌==◌, StrictEq, text_eq, text_beq_iff, string_eq, Text, is_some,
  if◌then◌else◌,
}
use directory.Types.{EndpointTransport}
use directory.Types.Records.{MemoryTool, ProviderRecord}
use directory.Slug.Laws.{IsSlug}
use directory.Store.{Store, get, update, update_tool, update_provider}
use directory.Store.Maps.{All-update, All-append, All-mono}

-- The keys of a map, no two of which are equal.
abbrev pub Distinct : List Text → Type 0
Distinct [] = Unit
Distinct (k ∷ l) = All (λ j. k ≢ j) l × Distinct l

abbrev pub tool_slugs : Store → List Text
tool_slugs s = map (λ (t : MemoryTool). t.slug) s.tools

abbrev pub provider_slugs : Store → List Text
provider_slugs s = map (λ (p : ProviderRecord). p.slug) s.providers

abbrev pub has : Text → List Text → Bool
has k [] = false
has k (j ∷ l) = if j == k then true else has k l

-- A stored tool has a slug that lookups by name can find, no stdio transport, and the slug of a
-- stored provider.
pub record IsToolValid (providers : List Text) (t : MemoryTool) : Type 0 where
  pub slug : IsSlug t.slug
  pub remote : t.transport ≢ EndpointTransport.mcp_stdio
  pub provider : has t.provider.slug providers ≡ true

pub record IsValid (s : Store) : Type 0 where
  pub tools_distinct : Distinct (tool_slugs s)
  pub providers_distinct : Distinct (provider_slugs s)
  pub tools : All (IsToolValid (provider_slugs s)) s.tools

module _ {ℓ κ} {A : Type ℓ} {K : Type κ} ⦃e : StrictEq K⦄ (key : A → K) where
  pub keys-update :
      {B : Type ℓ} (k : K) (f : A → A) (name : A → B) (l : List A)
      → ((a : A) → name (f a) ≡ name a)
      → map name (update key k f l) ≡ map name l
  unfolding update
  keys-update k f name [] keep = refl
  keys-update k f name (a ∷ l) keep = elim (Bool-cases (key a == k)) [
    | inl h ↦ rw h (ap₂ (λ x y. x ∷ y) (keep a) (keys-update k f name l keep))
    | inr h ↦ rw h (ap (λ y. name a ∷ y) (keys-update k f name l keep))
  ]

pub get-has {ℓ} :
    {A : Type ℓ} (key : A → Text) (k : Text) (l : List A)
    → is_some (get key k l) ≡ has k (map key l)
unfolding get
get-has key k [] = refl
get-has key k (a ∷ l) = elim (Bool-cases (key a == k)) [
  | inl h ↦ rw h refl
  | inr h ↦ rw h (get-has key k l)
]

has-append : (k j : Text) (l : List Text) → has k l ≡ true → has k (l ++ j ∷ []) ≡ true
has-append k j (i ∷ l) h = elim (Bool-cases (i == k)) [
  | inl q ↦ rw q refl
  | inr q ↦ rw q (has-append k j l (rw q at h))
]
has-append k j [] h = cc

pub has-append_self : (k : Text) (l : List Text) → has k (l ++ k ∷ []) ≡ true
has-append_self k [] = rw ((text_beq_iff k k).1 refl) refl
has-append_self k (i ∷ l) = elim (Bool-cases (i == k)) [
  | inl q ↦ rw q refl
  | inr q ↦ rw q (has-append_self k l)
]

Distinct-append : (l : List Text) (k : Text) → Distinct l → has k l ≡ false → Distinct (l ++ k ∷ [])
Distinct-append [] k d h = (tt, tt)
Distinct-append (j ∷ l) k (n, d) h = elim (Bool-cases (j == k)) [
  | inl q ↦ let bad : true ≡ false = rw q at h in cc
  | inr q ↦
      (All-append (λ i. j ≢ i) l k n (λ same. differ j k q same), Distinct-append l k d (rw q at h))
]
  where
    differ : (j k : Text) → (j == k) ≡ false → j ≡ k → ⊥
    differ j k q same = cc (q, (text_beq_iff j k).1 same)

pub map-append_one {ℓ κ} :
    {A : Type ℓ} {B : Type κ} (f : A → B) (l : List A) (a : A)
    → map f (l ++ a ∷ []) ≡ map f l ++ f a ∷ []
map-append_one f [] a = refl
map-append_one f (b ∷ l) a = ap (λ r. f b ∷ r) (map-append_one f l a)

-- A write to one tool that keeps its slug and its validity.
pub update_tool-IsValid :
    (id : String) (f : MemoryTool → MemoryTool) (s : Store)
    → ((t : MemoryTool) → (f t).slug ≡ t.slug)
    → ((t : MemoryTool) → IsToolValid (provider_slugs s) t → IsToolValid (provider_slugs s) (f t))
    → IsValid s
    → IsValid (update_tool id f s)
update_tool-IsValid id f s keep valid v = record {
  tools_distinct =
      subst Distinct
        (sym
          (keys-update (λ (t : MemoryTool). t.id) id f (λ (t : MemoryTool). t.slug) s.tools keep))
        v.tools_distinct;
  providers_distinct = v.providers_distinct;
  tools =
      All-update (λ (t : MemoryTool). t.id) (IsToolValid (provider_slugs s)) id f s.tools valid
        v.tools;
}

-- A write to one provider that keeps its slug.
pub update_provider-IsValid :
    (slug : Text) (f : ProviderRecord → ProviderRecord) (s : Store)
    → ((p : ProviderRecord) → (f p).slug ≡ p.slug)
    → IsValid s
    → IsValid (update_provider slug f s)
update_provider-IsValid slug f s keep v =
    let same = sym (
      keys-update (λ (p : ProviderRecord). p.slug) slug f (λ (p : ProviderRecord). p.slug)
        s.providers keep) in
    record {
      tools_distinct = v.tools_distinct;
      providers_distinct = subst Distinct same v.providers_distinct;
      tools = subst (λ l. All (IsToolValid l) s.tools) same v.tools;
    }

pub insert_provider-IsValid :
    (p : ProviderRecord) (s : Store)
    → has p.slug (provider_slugs s) ≡ false
    → IsValid s
    → IsValid (record s { providers = s.providers ++ p ∷ [] })
insert_provider-IsValid p s new v =
    let same = sym (map-append_one (λ (q : ProviderRecord). q.slug) s.providers p) in
    record {
      tools_distinct = v.tools_distinct;
      providers_distinct =
          subst Distinct same (Distinct-append (provider_slugs s) p.slug v.providers_distinct new);
      tools =
          subst (λ l. All (IsToolValid l) s.tools) same
            (All-mono (IsToolValid (provider_slugs s))
              (IsToolValid (provider_slugs s ++ p.slug ∷ [])) s.tools
              (λ t w. record {
                slug = w.slug;
                remote = w.remote;
                provider = has-append t.provider.slug p.slug (provider_slugs s) w.provider;
              })
              v.tools);
    }

pub insert_tool-IsValid :
    (t : MemoryTool) (s : Store)
    → has t.slug (tool_slugs s) ≡ false
    → IsToolValid (provider_slugs s) t
    → IsValid s
    → IsValid (record s { tools = s.tools ++ t ∷ [] })
insert_tool-IsValid t s new w v = record {
  tools_distinct =
      subst Distinct (sym (map-append_one (λ (u : MemoryTool). u.slug) s.tools t))
        (Distinct-append (tool_slugs s) t.slug v.tools_distinct new);
  providers_distinct = v.providers_distinct;
  tools = All-append (IsToolValid (provider_slugs s)) s.tools t v.tools w;
}

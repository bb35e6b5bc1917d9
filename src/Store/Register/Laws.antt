-- ===== src/Store/Register/Laws.antt =====
-- Registration keeps the catalog valid, and what a refused request leaves behind.
use directory.Common.{
  ℕ, ◌≡◌, ◌⊎◌, refl, sym, ap, subst, ◌∙◌, String, Bool, true, false, Option, none, some, List, [],
  ◌∷◌, ◌++◌, Bool-cases, Option-cases, inl, inr, text_eq, string_eq, text_beq_iff, ◌==◌, Text,
  is_some,
}
use directory.Types.{ToolStatus}
use directory.Types.Records.{MemoryTool, ProviderRecord, RegisterToolRequest, EnsureToolOptions}
use directory.Slug.{slugify}
use directory.Slug.Laws.{slugify-IsSlug}
use directory.Store.{
  Store, get, tool_of_slug, provider_of_slug, update_tool, update_provider, ok, throws,
  already_registered, stdio_not_accepted,
}
use directory.Store.Maps.{get-In, get-append}
use directory.Store.Register.{
  Ids, transport_of, is_stdio, provider_slug_of, mark_provider, new_provider, claim_provider,
  new_tool, create_tool, register_tool, refresh_tool, mark_existing, ensure_tool,
}
use directory.Store.Invariant.{
  IsValid, IsToolValid, has, has-append_self, map-append_one, provider_slugs, get-has, keys-update,
  update_tool-IsValid, update_provider-IsValid, insert_provider-IsValid, insert_tool-IsValid,
}

mark_provider-slug : (o : Option Bool) (p : ProviderRecord) → (mark_provider o p).slug ≡ p.slug
unfolding mark_provider
mark_provider-slug none p = refl
mark_provider-slug (some v) p = refl

has_of_some :
    (k : Text) (p : ProviderRecord) (s : Store)
    → provider_of_slug k s ≡ some p
    → has k (provider_slugs s) ≡ true
has_of_some k p s e = sym (get-has (λ (q : ProviderRecord). q.slug) k s.providers) ∙ ap is_some e

not_has_of_none :
    (k : Text) (s : Store) → provider_of_slug k s ≡ none → has k (provider_slugs s) ≡ false
not_has_of_none k s e = sym (get-has (λ (q : ProviderRecord). q.slug) k s.providers) ∙ ap is_some e

module _ (ids : Ids) (input : RegisterToolRequest) (options : EnsureToolOptions) (s : Store) where
  -- The provider that the new tool gets is a stored one.
  claim_provider-IsValid :
      IsValid s
      → let r = claim_provider ids input options s in
        IsValid r.0 × (has r.1.slug (provider_slugs r.0) ≡ true) × (r.0.tools ≡ s.tools)
  unfolding claim_provider
  claim_provider-IsValid v = elim (Option-cases (provider_of_slug (provider_slug_of input) s)) [
    | inl e ↦
        rw (e, claim_provider)
          (
            insert_provider-IsValid (new_provider ids input options) s
                (unfold new_provider in not_has_of_none (provider_slug_of input) s e) v,
            subst (λ l. has (provider_slug_of input) l ≡ true)
                (sym (
                  map-append_one (λ (p : ProviderRecord). p.slug) s.providers
                    (new_provider ids input options)))
                (unfold new_provider in
                  has-append_self (provider_slug_of input) (provider_slugs s)),
            refl,
          )
    | inr (p, e) ↦
        rw (e, claim_provider)
          (
            update_provider-IsValid (provider_slug_of input)
                (mark_provider options.provider_verified) s
                (mark_provider-slug options.provider_verified) v,
            subst (λ l. has (mark_provider options.provider_verified p).slug l ≡ true)
                (sym (
                  keys-update (λ (q : ProviderRecord). q.slug) (provider_slug_of input)
                    (mark_provider options.provider_verified) (λ (q : ProviderRecord). q.slug)
                    s.providers (mark_provider-slug options.provider_verified)))
                (rw (mark_provider-slug options.provider_verified p) (
                  rw
                    (get-In (λ (q : ProviderRecord). q.slug) (provider_slug_of input) p s.providers
                      e).1
                    (has_of_some (provider_slug_of input) p s e))),
            refl,
          )
  ]

  new_tool-IsValid :
      (now : ℕ) (p : ProviderRecord) (l : List Text)
      → is_stdio (transport_of input) ≡ false
      → has p.slug l ≡ true
      → IsToolValid l (new_tool ids now input options p)
  unfolding new_tool
  new_tool-IsValid now p l remote known = record {
    slug = slugify-IsSlug input.name;
    remote = λ e. let bad : true ≡ false = rw e at remote in cc;
    provider = known;
  }

  pub create_tool-IsValid :
      (now : ℕ)
      → tool_of_slug (slugify input.name) s ≡ none
      → IsValid s
      → IsValid (create_tool ids now input options s).0
  unfolding create_tool
  create_tool-IsValid now new v = elim (Bool-cases (is_stdio (transport_of input))) [
    | inl e ↦ rw (e, create_tool) v
    | inr e ↦
        let (w, known, same) = claim_provider-IsValid v in
        let r = claim_provider ids input options s in
        rw (e, create_tool)
          (insert_tool-IsValid (new_tool ids now input options r.1) r.0
            (unfold new_tool in
              rw same (
                sym (get-has (λ (t : MemoryTool). t.slug) (slugify input.name) s.tools)
                ∙ ap is_some new))
            (new_tool-IsValid now r.1 (provider_slugs r.0) e known) w)
  ]

  create_tool-stdio :
      (now : ℕ)
      → is_stdio (transport_of input) ≡ true
      → create_tool ids now input options s ≡ (s, throws stdio_not_accepted)
  unfolding create_tool
  create_tool-stdio now e = rw (e, create_tool) refl

  claim_provider-tools : (claim_provider ids input options s).0.tools ≡ s.tools
  unfolding claim_provider
  claim_provider-tools = elim (Option-cases (provider_of_slug (provider_slug_of input) s)) [
    | inl e ↦ rw (e, claim_provider) refl
    | inr (p, e) ↦ rw (e, claim_provider) refl
  ]

  abbrev stored_tool : ℕ → MemoryTool
  stored_tool now = new_tool ids now input options (claim_provider ids input options s).1

  create_tool-stored :
      (now : ℕ)
      → tool_of_slug (slugify input.name) s ≡ none
      → is_stdio (transport_of input) ≡ false
      → let r = create_tool ids now input options s in
        (r.1 ≡ ok (stored_tool now))
        × (tool_of_slug (slugify input.name) r.0 ≡ some (stored_tool now))
        × (r.0.tools ≡ s.tools ++ stored_tool now ∷ [])
  unfolding create_tool
  create_tool-stored now new e =
      let t = stored_tool now in
      let hit : (t.slug == slugify input.name) ≡ true =
        unfold new_tool in (text_beq_iff (slugify input.name) (slugify input.name)).1 refl in
      let found : get (λ (u : MemoryTool). u.slug) (slugify input.name) (s.tools ++ t ∷ [])
          ≡ some t =
        get-append (λ (u : MemoryTool). u.slug) (slugify input.name) t s.tools
        ∙ rw new (rw hit refl) in
      rw (e, create_tool) (refl, rw claim_provider-tools found, rw claim_provider-tools refl)

  refresh_tool-IsValid :
      (now : ℕ) (t : MemoryTool) (l : List Text)
      → IsToolValid l t
      → IsToolValid l (refresh_tool now input options t)
  unfolding refresh_tool
  refresh_tool-IsValid now t l v = record {
    slug = v.slug;
    remote = v.remote;
    provider = v.provider;
  }

  mark_existing-IsValid :
      (id : String) (r : Store) → IsValid r → IsValid (mark_existing input options id r)
  unfolding mark_existing
  mark_existing-IsValid id r v = elim (Option-cases (provider_of_slug (provider_slug_of input) r)) [
    | inl e ↦ rw (e, mark_existing) v
    | inr (p, e) ↦ elim (Option-cases options.provider_verified) [
      | inl o ↦ rw (e, mark_existing) (rw o v)
      | inr (b, o) ↦
          rw (e, mark_existing)
            (rw o (
              update_tool-IsValid id
                (λ t. record t { provider = record t.provider { verified = b } })
                (update_provider (provider_slug_of input) (mark_provider (some b)) r) (λ t. refl)
                (λ t w. record { slug = w.slug; remote = w.remote; provider = w.provider })
                (update_provider-IsValid (provider_slug_of input) (mark_provider (some b)) r
                  (mark_provider-slug (some b)) v)))
    ]
  ]

  pub ensure_tool-IsValid : (now : ℕ) → IsValid s → IsValid (ensure_tool ids now input options s).0
  unfolding ensure_tool
  ensure_tool-IsValid now v = elim (Option-cases (tool_of_slug (slugify input.name) s)) [
    | inl e ↦ rw (e, ensure_tool) (create_tool-IsValid now e v)
    | inr (t, e) ↦
        let s₁ = update_tool t.id (refresh_tool now input options) s in
        let v₁ : IsValid s₁ =
          update_tool-IsValid t.id (refresh_tool now input options) s
            (λ u. unfold refresh_tool in refl) (λ u. refresh_tool-IsValid now u (provider_slugs s))
            v in
        elim (Bool-cases (is_stdio (transport_of input))) [
          | inl q ↦ rw (e, ensure_tool) (rw q v₁)
          | inr q ↦
              rw (e, ensure_tool)
                (rw q (
                  mark_existing-IsValid t.id
                    (update_tool t.id (λ u. record u { transport = transport_of input }) s₁)
                    (update_tool-IsValid t.id (λ u. record u { transport = transport_of input }) s₁
                      (λ u. refl)
                      (λ u w. record {
                        slug = w.slug;
                        remote = λ p. let bad : true ≡ false = rw p at q in cc;
                        provider = w.provider;
                      })
                      v₁)))
        ]
  ]

abbrev pub pending_options : EnsureToolOptions
pending_options = record { status = some ToolStatus.pending; provider_verified = none }

pub register_tool-IsValid :
    (ids : Ids) (now : ℕ) (input : RegisterToolRequest) (s : Store)
    → IsValid s
    → IsValid (register_tool ids now input s).0
unfolding register_tool
register_tool-IsValid ids now input s v =
    elim (Option-cases (tool_of_slug (slugify input.name) s)) [
      | inl e ↦ rw (e, register_tool) (create_tool-IsValid ids input pending_options s now e v)
      | inr (t, e) ↦ rw (e, register_tool) v
    ]

-- Registration in full. A name whose slug is taken is refused, and so is a free one with the stdio
-- transport, and neither changes the store. Any other is stored as a pending tool, which is what the
-- call returns and what its name is found by, with a trust profile yet to be computed, and no
-- other tool changes.
pub register_tool_lem :
    (ids : Ids) (now : ℕ) (input : RegisterToolRequest) (s : Store)
    → let r = register_tool ids now input s in
      let slug = slugify input.name in
      ((t : MemoryTool) × (tool_of_slug slug s ≡ some t) × (r ≡ (s, throws already_registered)))
      ⊎ ((tool_of_slug slug s ≡ none)
          × (is_stdio (transport_of input) ≡ true)
          × (r ≡ (s, throws stdio_not_accepted)))
      ⊎ ((t : MemoryTool) × (tool_of_slug slug s ≡ none)
          × (is_stdio (transport_of input) ≡ false)
          × (r.1 ≡ ok t)
          × (tool_of_slug slug r.0 ≡ some t)
          × (t.status ≡ ToolStatus.pending)
          × (t.trust ≡ none)
          × (r.0.tools ≡ s.tools ++ t ∷ []))
unfolding register_tool
register_tool_lem ids now input s = elim (Option-cases (tool_of_slug (slugify input.name) s)) [
  | inr (t, e) ↦ inl (t, e, rw (e, register_tool) refl)
  | inl e ↦ elim (Bool-cases (is_stdio (transport_of input))) [
    | inl q ↦
        inr
          (inl (e, q, rw (e, register_tool) (create_tool-stdio ids input pending_options s now q)))
    | inr q ↦ inr (
        inr (
          let (a, b, c) = create_tool-stored ids input pending_options s now e q in
          let t = stored_tool ids input pending_options s now in
          let same : register_tool ids now input s ≡ create_tool ids now input pending_options s =
            rw (e, register_tool) refl in
          (
            t,
            e,
            q,
            rw same a,
            rw same b,
            unfold new_tool in refl,
            unfold new_tool in refl,
            rw same c,
          )))
  ]
]

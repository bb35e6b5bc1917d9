-- ===== src/Store/Leases.antt =====
-- The lease of a claimed tool over any calls of the catalog's methods, src/domain/memory-store.ts.
use directory.Common.{
  ℕ, ◌+◌, ◌<◌, ◌≡◌, ◌≢◌, refl, sym, ap, ◌∙◌, String, Bool, true, false, some, List, [], ◌∷◌, ◌++◌,
  All, In, In-append, In-map, Bool-cases, Option-cases, inl, inr, string_eq, text_eq, Text, ◌==◌,
  includes, arith,
}
use text.Mathlib.TextEquality.{eq_iff}
use directory.Types.Records.{MemoryTool, RegisterToolRequest, EnsureToolOptions, ProviderMetadata}
use directory.Slug.{slugify}
use directory.Store.{
  Store, update, update_tool, tool_of_slug, tool_of_id, provider_of_slug, record_invocation,
}
use directory.Store.Register.{
  Ids, register_tool, ensure_tool, create_tool, claim_provider, new_tool, refresh_tool,
  mark_existing, transport_of, is_stdio, provider_slug_of,
}
use directory.Store.Register.Laws.{pending_options}
use directory.Store.Providers.{
  mark_tools, set_provider_verified, set_provider_metadata, set_tool_status,
}
use directory.Store.Queue.{
  claim_tools_for_verification, complete_tool, complete_verification_attempt,
}
use directory.Store.Queue.Laws.{
  claim-tools, In-map-leased, includes_of_In, claim_sound, not_due_of_lease, leased,
}
use directory.Store.Evidence.{insert_verification_check, upsert_trust_profile}
use directory.Store.Steps.{
  Op, register, ensure, claim, complete, insert_check, upsert_trust, invocation, verify_provider,
  provider_metadata, tool_status, step, run,
}

-- The calls between two claims: no verification of this tool is completed, no new tool gets its id,
-- and every claim among them is made before the lease runs out.
abbrev pub Between : ℕ → String → Op → Type 0
Between until id (register ids now input) = ids.tool ≢ id
Between until id (ensure ids now input options) = ids.tool ≢ id
Between until id (claim now limit lease_ms) = now < until
Between until id (complete now done success) = done ≢ id
Between until id _ = Unit

includes-In : (id : String) (l : List String) → includes l id ≡ true → In id l
includes-In id [] h = let k : false ≡ true = h in cc
includes-In id (j ∷ l) h = elim (Bool-cases (j == id)) [
  | inl e ↦ inl (sym ((eq_iff j id).0 e))
  | inr e ↦ inr (includes-In id l (ground arith))
]

module _ (until : ℕ) (id : String) where
  -- Every tool with this id is leased until then.
  abbrev Leased : List MemoryTool → Type 0
  Leased l = (t : MemoryTool) → In t l → t.id ≡ id → t.verify_lease_until ≡ some until

  Leased-update :
      (k : String) (f : MemoryTool → MemoryTool) (l : List MemoryTool)
      → ((t : MemoryTool) → (f t).id ≡ t.id)
      → ((t : MemoryTool)
          → t.id ≡ k
          → t.id ≡ id
          → t.verify_lease_until ≡ some until
          → (f t).verify_lease_until ≡ some until)
      → Leased l
      → Leased (update (λ (t : MemoryTool). t.id) k f l)
  unfolding update
  Leased-update k f [] same keeps h t i e = elim i [ ]
  Leased-update k f (u ∷ l) same keeps h t (inl q) e = elim (Bool-cases (u.id == k)) [
    | inl b ↦
        let g : t ≡ f u = rw b at q in
        let own : u.id ≡ id = sym (same u) ∙ sym (ap (λ (v : MemoryTool). v.id) g) ∙ e in
        ap (λ (v : MemoryTool). v.verify_lease_until) g
        ∙ keeps u ((eq_iff u.id k).0 b) own (h u (inl refl) own)
    | inr b ↦ let g : t ≡ u = rw b at q in h t (inl g) e
  ]
  Leased-update k f (u ∷ l) same keeps h t (inr i) e =
      Leased-update k f l same keeps (λ v j. h v (inr j)) t i e

  Leased-keep :
      (k : String) (f : MemoryTool → MemoryTool) (l : List MemoryTool)
      → ((t : MemoryTool) → (f t).id ≡ t.id)
      → ((t : MemoryTool) → (f t).verify_lease_until ≡ t.verify_lease_until)
      → Leased l
      → Leased (update (λ (t : MemoryTool). t.id) k f l)
  Leased-keep k f l same keeps h = Leased-update k f l same (λ t _ _ held. keeps t ∙ held) h

  Leased-mark :
      (slug : Text) (v : Bool) (l : List MemoryTool) → Leased l → Leased (mark_tools slug v l)
  unfolding mark_tools
  Leased-mark slug v l h t i e =
      let (u, j, q) = In-map _ t l i in
      elim (Bool-cases (u.provider.slug == slug)) [
        | inl b ↦
            let g : t ≡ record u { provider = record u.provider { verified = v } } = rw b at q in
            ap (λ (w : MemoryTool). w.verify_lease_until) g
            ∙ h u j (sym (ap (λ (w : MemoryTool). w.id) g) ∙ e)
        | inr b ↦ let g : t ≡ u = rw b at q in h t (rw g j) e
      ]

  Leased-add : (u : MemoryTool) (l : List MemoryTool) → u.id ≢ id → Leased l → Leased (l ++ u ∷ [])
  Leased-add u l n h t i e = elim (In-append t l (u ∷ []) i) [
    | inl j ↦ h t j e
    | inr (inl q) ↦ absurd (n (ap (λ (w : MemoryTool). w.id) (sym q) ∙ e))
    | inr (inr j) ↦ elim j [ ]
  ]

  Leased-create :
      (ids : Ids) (now : ℕ) (input : RegisterToolRequest) (options : EnsureToolOptions) (s : Store)
      → ids.tool ≢ id
      → Leased s.tools
      → Leased (create_tool ids now input options s).0.tools
  unfolding create_tool claim_provider
  Leased-create ids now input options s n h = elim (Bool-cases (is_stdio (transport_of input))) [
    | inl e ↦ rw (e, create_tool) h
    | inr e ↦ elim (Option-cases (provider_of_slug (provider_slug_of input) s)) [
      | inl q ↦
          rw (e, create_tool, q, claim_provider) (Leased-add _ s.tools (unfold new_tool in n) h)
      | inr (p, q) ↦
          rw (e, create_tool, q, claim_provider) (Leased-add _ s.tools (unfold new_tool in n) h)
    ]
  ]

  Leased-claim :
      (now : ℕ) (s : Store) (limit lease_ms : ℕ)
      → now < until
      → Leased s.tools
      → Leased (claim_tools_for_verification now s limit lease_ms).0.tools
  Leased-claim now s limit lease_ms soon h t i e =
      let ids = (claim_tools_for_verification now s limit lease_ms).1 in
      let (u, j, q) =
        In-map (leased (now + lease_ms) ids) t s.tools
          (rw (claim-tools now s limit lease_ms) at i) in
      elim (Bool-cases (includes ids u.id)) [
        | inl b ↦
            let g : t ≡ record u { verify_lease_until = some (now + lease_ms) } = rw b at q in
            let own : u.id ≡ id = sym (ap (λ (w : MemoryTool). w.id) g) ∙ e in
            let (v, k, same, due) =
              claim_sound now s limit lease_ms u.id (includes-In u.id ids b) in
            absurd (not_due_of_lease now until v soon (h v k (same ∙ own)) due)
        | inr b ↦ let g : t ≡ u = rw b at q in h t (rw g j) e
      ]

  Leased-existing :
      (input : RegisterToolRequest) (options : EnsureToolOptions) (k : String) (s : Store)
      → Leased s.tools
      → Leased (mark_existing input options k s).tools
  unfolding mark_existing
  Leased-existing input options k s h =
      elim (Option-cases (provider_of_slug (provider_slug_of input) s)) [
        | inl e ↦ rw (e, mark_existing) h
        | inr (p, e) ↦ elim (Option-cases options.provider_verified) [
          | inl o ↦ rw (e, mark_existing) (rw o h)
          | inr (b, o) ↦
              rw (e, mark_existing) (rw o (Leased-keep k _ s.tools (λ t. refl) (λ t. refl) h))
        ]
      ]

  Leased-ensure :
      (ids : Ids) (now : ℕ) (input : RegisterToolRequest) (options : EnsureToolOptions) (s : Store)
      → ids.tool ≢ id
      → Leased s.tools
      → Leased (ensure_tool ids now input options s).0.tools
  unfolding ensure_tool
  Leased-ensure ids now input options s n h =
      elim (Option-cases (tool_of_slug (slugify input.name) s)) [
        | inl e ↦ rw (e, ensure_tool) (Leased-create ids now input options s n h)
        | inr (t, e) ↦
            let s₁ = update_tool t.id (refresh_tool now input options) s in
            let h₁ : Leased s₁.tools =
              unfold refresh_tool in Leased-keep t.id _ s.tools (λ u. refl) (λ u. refl) h in
            elim (Bool-cases (is_stdio (transport_of input))) [
              | inl q ↦ rw (e, ensure_tool) (rw q h₁)
              | inr q ↦
                  rw (e, ensure_tool)
                    (rw q (
                      Leased-existing input options t.id
                        (update_tool t.id (λ u. record u { transport = transport_of input }) s₁)
                        (Leased-keep t.id _ s₁.tools (λ u. refl) (λ u. refl) h₁)))
            ]
      ]

  Leased-register :
      (ids : Ids) (now : ℕ) (input : RegisterToolRequest) (s : Store)
      → ids.tool ≢ id
      → Leased s.tools
      → Leased (register_tool ids now input s).0.tools
  unfolding register_tool
  Leased-register ids now input s n h = elim (Option-cases (tool_of_slug (slugify input.name) s)) [
    | inl e ↦ rw (e, register_tool) (Leased-create ids now input pending_options s n h)
    | inr (t, e) ↦ rw (e, register_tool) h
  ]

  complete_tool-id : (now : ℕ) (b : Bool) (t : MemoryTool) → (complete_tool now b t).id ≡ t.id
  unfolding complete_tool
  complete_tool-id now true t = refl
  complete_tool-id now false t = refl

  Leased-complete :
      (now : ℕ) (s : Store) (done : String) (b : Bool)
      → done ≢ id
      → Leased s.tools
      → Leased (complete_verification_attempt now s done b).0.tools
  unfolding complete_verification_attempt
  Leased-complete now s done b n h = elim (Option-cases (tool_of_id done s)) [
    | inl e ↦ rw (e, complete_verification_attempt) h
    | inr (t, e) ↦
        rw (e, complete_verification_attempt)
          (Leased-update done (complete_tool now b) s.tools (complete_tool-id now b)
            (λ u p q _. absurd (n (sym p ∙ q))) h)
  ]

  Leased-verified :
      (s : Store) (slug : Text) (b : Bool) (patch : ProviderMetadata → ProviderMetadata)
      → Leased s.tools
      → Leased (set_provider_verified s slug b patch).0.tools
  unfolding set_provider_verified
  Leased-verified s slug b patch h = elim (Option-cases (provider_of_slug (slugify slug) s)) [
    | inl e ↦ rw (e, set_provider_verified) h
    | inr (p, e) ↦ rw (e, set_provider_verified) (Leased-mark p.slug b s.tools h)
  ]

  Leased-metadata :
      (s : Store) (slug : Text) (m : ProviderMetadata)
      → Leased s.tools
      → Leased (set_provider_metadata s slug m).0.tools
  unfolding set_provider_metadata
  Leased-metadata s slug m h = elim (Option-cases (provider_of_slug (slugify slug) s)) [
    | inl e ↦ rw (e, set_provider_metadata) h
    | inr (p, e) ↦ rw (e, set_provider_metadata) h
  ]

  Leased-step :
      (op : Op) (s : Store) → Between until id op → Leased s.tools → Leased (step op s).tools
  unfolding step insert_verification_check upsert_trust_profile record_invocation set_tool_status
  Leased-step (register ids now input) s b h = Leased-register ids now input s b h
  Leased-step (ensure ids now input options) s b h = Leased-ensure ids now input options s b h
  Leased-step (claim now limit lease_ms) s b h = Leased-claim now s limit lease_ms b h
  Leased-step (complete now done success) s b h = Leased-complete now s done success b h
  Leased-step (insert_check c) s b h = h
  Leased-step (upsert_trust now k p) s b h = Leased-keep k _ s.tools (λ u. refl) (λ u. refl) h
  Leased-step (invocation e) s b h = h
  Leased-step (verify_provider slug v patch) s b h = Leased-verified s slug v patch h
  Leased-step (provider_metadata slug m) s b h = Leased-metadata s slug m h
  Leased-step (tool_status now k st) s b h = Leased-keep k _ s.tools (λ u. refl) (λ u. refl) h

  Leased-run :
      (ops : List Op) (s : Store)
      → All (Between until id) ops
      → Leased s.tools
      → Leased (run ops s).tools
  unfolding run
  Leased-run [] s bs h = h
  Leased-run (op ∷ ops) s (b, bs) h = Leased-run ops (step op s) bs (Leased-step op s b h)

-- No tool is claimed twice within a lease: what one claim returned, a later claim does not return
-- before the lease has run out, whatever calls of the methods that write come between, in any order:
-- claims before the lease runs out, completions of other tools, registrations and updates under
-- other new ids, and with any arguments all the rest. A completed verification of the tool itself is
-- left out, since it gives the lease back.
pub claim_exclusive :
    (now : ℕ) (s : Store) (limit lease_ms now' limit' lease_ms' : ℕ) (id : String) (ops : List Op)
    → now' < now + lease_ms
    → All (Between (now + lease_ms) id) ops
    → In id (claim_tools_for_verification now s limit lease_ms).1
    → In id
        (claim_tools_for_verification now'
          (run ops (claim_tools_for_verification now s limit lease_ms).0)
          limit'
          lease_ms').1
    → ⊥
claim_exclusive now s limit lease_ms now' limit' lease_ms' id ops soon between first again =
    let until = now + lease_ms in
    let (s₁, ids) = claim_tools_for_verification now s limit lease_ms in
    let held : Leased until id s₁.tools = λ t i e.
      In-map-leased until ids t s.tools (rw (claim-tools now s limit lease_ms) at i)
        (rw e (includes_of_In id ids first)) in
    let s₂ = run ops s₁ in
    let (t, i, e, due) = claim_sound now' s₂ limit' lease_ms' id again in
    not_due_of_lease now' until t soon (Leased-run until id ops s₁ between held t i e) due

-- ===== src/Store/Steps.antt =====
-- Every run of the catalog's methods, from the empty catalog, keeps it valid.
use directory.Common.{
  ℕ, ◌+◌, ◌≡◌, refl, sym, ap, subst, String, Bool, true, false, some, List, [], ◌∷◌, map, All,
  Bool-cases, Option-cases, inl, inr, text_eq, Text, ◌==◌,
}
use directory.Types.{ToolStatus}
use directory.Types.Records.{
  MemoryTool, ProviderMetadata, VerificationCheckRecord, InvocationEvent, TrustProfile,
  RegisterToolRequest, EnsureToolOptions,
}
use directory.Slug.{slugify}
use directory.Store.{
  Store, empty, update_tool, update_provider, provider_of_slug, tool_of_id, record_invocation,
}
use directory.Store.Register.{Ids, register_tool, ensure_tool}
use directory.Store.Register.Laws.{register_tool-IsValid, ensure_tool-IsValid}
use directory.Store.Providers.{
  mark_verified, mark_tools, set_provider_verified, set_provider_metadata, set_tool_status,
}
use directory.Store.Queue.{
  lease_all, candidates, claim_tools_for_verification, complete_tool, complete_verification_attempt,
}
use directory.Store.Evidence.{insert_verification_check, upsert_trust_profile}
use directory.Store.Invariant.{
  Distinct, IsValid, IsToolValid, provider_slugs, update_tool-IsValid, update_provider-IsValid,
}

-- The methods of `CatalogStore` that write to the catalog.
pub data Op : Type 0 where
  register : Ids → ℕ → RegisterToolRequest → Op
  ensure : Ids → ℕ → RegisterToolRequest → EnsureToolOptions → Op
  claim : (now limit lease_ms : ℕ) → Op
  complete : ℕ → String → Bool → Op
  insert_check : VerificationCheckRecord → Op
  upsert_trust : ℕ → String → TrustProfile → Op
  invocation : InvocationEvent → Op
  verify_provider : Text → Bool → (ProviderMetadata → ProviderMetadata) → Op
  provider_metadata : Text → ProviderMetadata → Op
  tool_status : ℕ → String → ToolStatus → Op

unfoldable pub step : Op → Store → Store
step (register ids now input) s = (register_tool ids now input s).0
step (ensure ids now input options) s = (ensure_tool ids now input options s).0
step (claim now limit lease_ms) s = (claim_tools_for_verification now s limit lease_ms).0
step (complete now id success) s = (complete_verification_attempt now s id success).0
step (insert_check c) s = insert_verification_check s c
step (upsert_trust now id p) s = upsert_trust_profile now s id p
step (invocation e) s = record_invocation s e
step (verify_provider slug v patch) s = (set_provider_verified s slug v patch).0
step (provider_metadata slug m) s = (set_provider_metadata s slug m).0
step (tool_status now id st) s = set_tool_status now s id st

unfoldable pub run : List Op → Store → Store
unfolding step
run [] s = s
run (op ∷ ops) s = run ops (step op s)

pub lease_all-IsValid :
    (until : ℕ) (l : List MemoryTool) (s : Store) → IsValid s → IsValid (lease_all until l s)
unfolding lease_all
lease_all-IsValid until [] s v = v
lease_all-IsValid until (t ∷ l) s v =
    lease_all-IsValid until l
      (update_tool t.id (λ u. record u { verify_lease_until = some until }) s)
      (update_tool-IsValid t.id (λ u. record u { verify_lease_until = some until }) s (λ u. refl)
        (λ u w. record { slug = w.slug; remote = w.remote; provider = w.provider }) v)

complete_tool-slug : (now : ℕ) (b : Bool) (t : MemoryTool) → (complete_tool now b t).slug ≡ t.slug
unfolding complete_tool
complete_tool-slug now true t = refl
complete_tool-slug now false t = refl

complete_tool-IsValid :
    (now : ℕ) (b : Bool) (l : List Text) (t : MemoryTool)
    → IsToolValid l t
    → IsToolValid l (complete_tool now b t)
unfolding complete_tool
complete_tool-IsValid now true l t w = record {
  slug = w.slug;
  remote = w.remote;
  provider = w.provider;
}
complete_tool-IsValid now false l t w = record {
  slug = w.slug;
  remote = w.remote;
  provider = w.provider;
}

pub complete-IsValid :
    (now : ℕ) (s : Store) (id : String) (b : Bool)
    → IsValid s
    → IsValid (complete_verification_attempt now s id b).0
unfolding complete_verification_attempt
complete-IsValid now s id b v = elim (Option-cases (tool_of_id id s)) [
  | inl e ↦ rw (e, complete_verification_attempt) v
  | inr (t, e) ↦
      rw (e, complete_verification_attempt)
        (update_tool-IsValid id (complete_tool now b) s (complete_tool-slug now b)
          (complete_tool-IsValid now b (provider_slugs s)) v)
]

pub upsert_trust-IsValid :
    (now : ℕ) (s : Store) (id : String) (p : TrustProfile)
    → IsValid s
    → IsValid (upsert_trust_profile now s id p)
unfolding upsert_trust_profile
upsert_trust-IsValid now s id p v =
    update_tool-IsValid id (λ t. record t { trust = some p; updated_at = now }) s (λ t. refl)
      (λ t w. record { slug = w.slug; remote = w.remote; provider = w.provider }) v

pub set_tool_status-IsValid :
    (now : ℕ) (s : Store) (id : String) (st : ToolStatus)
    → IsValid s
    → IsValid (set_tool_status now s id st)
unfolding set_tool_status
set_tool_status-IsValid now s id st v =
    update_tool-IsValid id (λ t. record t { status = st; updated_at = now }) s (λ t. refl)
      (λ t w. record { slug = w.slug; remote = w.remote; provider = w.provider }) v

pub insert_check-IsValid :
    (s : Store) (c : VerificationCheckRecord) → IsValid s → IsValid (insert_verification_check s c)
unfolding insert_verification_check
insert_check-IsValid s c v = record {
  tools_distinct = v.tools_distinct;
  providers_distinct = v.providers_distinct;
  tools = v.tools;
}

record_invocation-IsValid :
    (s : Store) (e : InvocationEvent) → IsValid s → IsValid (record_invocation s e)
unfolding record_invocation
record_invocation-IsValid s e v = record {
  tools_distinct = v.tools_distinct;
  providers_distinct = v.providers_distinct;
  tools = v.tools;
}

mark_tools-slugs :
    (slug : Text) (v : Bool) (l : List MemoryTool)
    → map (λ (t : MemoryTool). t.slug) (mark_tools slug v l) ≡ map (λ (t : MemoryTool). t.slug) l
unfolding mark_tools
mark_tools-slugs slug v [] = refl
mark_tools-slugs slug v (t ∷ l) = elim (Bool-cases (t.provider.slug == slug)) [
  | inl e ↦ rw e (ap (λ r. t.slug ∷ r) (mark_tools-slugs slug v l))
  | inr e ↦ rw e (ap (λ r. t.slug ∷ r) (mark_tools-slugs slug v l))
]

mark_tools-IsValid :
    (slug : Text) (v : Bool) (k : List Text) (l : List MemoryTool)
    → All (IsToolValid k) l
    → All (IsToolValid k) (mark_tools slug v l)
unfolding mark_tools
mark_tools-IsValid slug v k [] h = tt
mark_tools-IsValid slug v k (t ∷ l) (h, hs) = elim (Bool-cases (t.provider.slug == slug)) [
  | inl e ↦ rw e (
    record { slug = h.slug; remote = h.remote; provider = h.provider },
    mark_tools-IsValid slug v k l hs,
  )
  | inr e ↦ rw e (h, mark_tools-IsValid slug v k l hs)
]

set_provider_verified-IsValid :
    (s : Store) (slug : Text) (b : Bool) (patch : ProviderMetadata → ProviderMetadata)
    → IsValid s
    → IsValid (set_provider_verified s slug b patch).0
unfolding set_provider_verified
set_provider_verified-IsValid s slug b patch v =
    elim (Option-cases (provider_of_slug (slugify slug) s)) [
      | inl e ↦ rw (e, set_provider_verified) v
      | inr (p, e) ↦
          let w = update_provider-IsValid p.slug (mark_verified b patch) s (λ q. refl) v in
          let s' = update_provider p.slug (mark_verified b patch) s in
          rw (e, set_provider_verified)
            (record {
              tools_distinct =
                  subst Distinct (sym (mark_tools-slugs p.slug b s.tools)) v.tools_distinct;
              providers_distinct = w.providers_distinct;
              tools = mark_tools-IsValid p.slug b (provider_slugs s') s.tools w.tools;
            })
    ]

set_provider_metadata-IsValid :
    (s : Store) (slug : Text) (m : ProviderMetadata)
    → IsValid s
    → IsValid (set_provider_metadata s slug m).0
unfolding set_provider_metadata
set_provider_metadata-IsValid s slug m v = elim (Option-cases (provider_of_slug (slugify slug) s)) [
  | inl e ↦ rw (e, set_provider_metadata) v
  | inr (p, e) ↦
      rw (e, set_provider_metadata)
        (update_provider-IsValid p.slug (λ q. record q { metadata = m }) s (λ q. refl) v)
]

pub step-IsValid : (op : Op) (s : Store) → IsValid s → IsValid (step op s)
unfolding step claim_tools_for_verification
step-IsValid (register ids now input) s v = register_tool-IsValid ids now input s v
step-IsValid (ensure ids now input options) s v = ensure_tool-IsValid ids input options s now v
step-IsValid (claim now limit lease_ms) s v =
    lease_all-IsValid (now + lease_ms) (candidates now s limit) s v
step-IsValid (complete now id success) s v = complete-IsValid now s id success v
step-IsValid (insert_check c) s v = insert_check-IsValid s c v
step-IsValid (upsert_trust now id p) s v = upsert_trust-IsValid now s id p v
step-IsValid (invocation e) s v = record_invocation-IsValid s e v
step-IsValid (verify_provider slug b patch) s v = set_provider_verified-IsValid s slug b patch v
step-IsValid (provider_metadata slug m) s v = set_provider_metadata-IsValid s slug m v
step-IsValid (tool_status now id st) s v = set_tool_status-IsValid now s id st v

run_of_IsValid : (ops : List Op) (s : Store) → IsValid s → IsValid (run ops s)
unfolding run
run_of_IsValid [] s v = v
run_of_IsValid (op ∷ ops) s v = run_of_IsValid ops (step op s) (step-IsValid op s v)

-- After any calls of the methods that write, in any order and with any arguments, from the empty
-- catalog: no two tools and no two providers share a slug, every tool's slug is a slug that lookups
-- by name can find, no tool has the stdio transport, and every tool's provider is stored.
pub run-IsValid : (ops : List Op) → IsValid (run ops empty)
run-IsValid ops =
    run_of_IsValid ops empty (record { tools_distinct = tt; providers_distinct = tt; tools = tt })

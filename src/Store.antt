-- ===== src/Store.antt =====
-- The in-memory catalog, src/domain/memory-store.ts: its state, and the lookups by key.
-- The two maps `tools` and `byId` hold the same objects, so the model has one list, in the order of
-- insertion, found by slug or by id; ids come from `randomUUID` and are taken to differ. The
-- evaluations are in Receipts.
pub mod Maps
pub mod Register
pub mod Providers
pub mod Queue
pub mod Evidence
pub mod Invariant
pub mod Steps
pub mod Leases
use directory.Common.{
  ℕ, ◌+◌, ◌*◌, ◌/◌, ◌++◌, nat_eq, String, Bool, false, ◌&&◌, Option, none, some, List, [], ◌∷◌, leb,
  if◌then◌else◌, StrictEq, ◌==◌, string_eq, text_eq, Text, length, filter,
}
use mathlib.Core.Option
use directory.Slug.{slugify}
use directory.Types.Records.{
  MemoryTool, ProviderRecord, VerificationCheckRecord, InvocationEvent, Usage,
}

pub record Store : Type 0 where
  pub providers : List ProviderRecord
  pub tools : List MemoryTool
  pub checks : List VerificationCheckRecord
  pub invocations : List InvocationEvent

abbrev pub empty : Store
empty = record { providers = []; tools = []; checks = []; invocations = [] }

pub data StoreError : Type 0 where
  already_registered stdio_not_accepted : StoreError

-- A method that may throw. What it wrote before stays written.
pub data Outcome {ℓ} (A : Type ℓ) : Type ℓ where
  ok : A → Outcome A
  throws : StoreError → Outcome A

-- `map.get(key)` on the objects of a map, and a write to the object with that key (one at most).
module _ {ℓ κ} {A : Type ℓ} {K : Type κ} ⦃e : StrictEq K⦄ (key : A → K) where
  unfoldable pub get : K → List A → Option A
  get k [] = none
  get k (a ∷ l) = if key a == k then some a else get k l

  unfoldable pub update : K → (A → A) → List A → List A
  update k f [] = []
  update k f (a ∷ l) = (if key a == k then f a else a) ∷ update k f l

abbrev pub tool_of_slug : Text → Store → Option MemoryTool
tool_of_slug slug s = get (λ (t : MemoryTool). t.slug) slug s.tools

abbrev pub tool_of_id : String → Store → Option MemoryTool
tool_of_id id s = get (λ (t : MemoryTool). t.id) id s.tools

abbrev pub update_tool : String → (MemoryTool → MemoryTool) → Store → Store
update_tool id f s = record s { tools = update (λ (t : MemoryTool). t.id) id f s.tools }

abbrev pub provider_of_slug : Text → Store → Option ProviderRecord
provider_of_slug slug s = get (λ (p : ProviderRecord). p.slug) slug s.providers

abbrev pub update_provider : Text → (ProviderRecord → ProviderRecord) → Store → Store
update_provider slug f s = record s {
  providers = update (λ (p : ProviderRecord). p.slug) slug f s.providers;
}

abbrev pub week_ms : ℕ
week_ms = 7 * 24 * 60 * 60 * 1000

-- `row.tool_id === toolId`
abbrev is_for : String → Option String → Bool
is_for tool_id none = false
is_for tool_id (some id) = id == tool_id

pub record UsageStats : Type 0 where
  pub invocations : ℕ
  pub successes : ℕ

-- The window starts at `now - since_ms`.
unfoldable pub usage_stats : ℕ → Store → String → ℕ → UsageStats
usage_stats now s tool_id since_ms =
    let rows =
      filter
        (λ (r : InvocationEvent). is_for tool_id r.tool_id && leb now (r.created_at + since_ms))
        s.invocations in
    record {
      invocations = length rows;
      successes = length (filter (λ (r : InvocationEvent). r.success) rows);
    }

-- A ratio of two counts as `toFixed(4)` leaves it, in ten-thousandths, halves rounded up.
abbrev pub to_fixed4 : ℕ → ℕ → ℕ
to_fixed4 p q = (p * 20000 + q) / (2 * q)

unfoldable pub with_usage : ℕ → Store → MemoryTool → MemoryTool
unfolding usage_stats
with_usage now s tool =
    let stats = usage_stats now s tool.id week_ms in
    record tool {
      usage = record {
        invocations_7d = stats.invocations;
        success_rate_7d =
            if stats.invocations == 0
            then none
            else some (to_fixed4 stats.successes stats.invocations);
      };
    }

unfoldable pub get_tool_by_slug : ℕ → Store → Text → Option MemoryTool
get_tool_by_slug now s slug = Option.map (with_usage now s) (tool_of_slug (slugify slug) s)

unfoldable pub get_tool_by_id : ℕ → Store → String → Option MemoryTool
get_tool_by_id now s id = Option.map (with_usage now s) (tool_of_id id s)

unfoldable pub record_invocation : Store → InvocationEvent → Store
record_invocation s event = record s { invocations = s.invocations ++ event ∷ [] }

-- The lookup slugifies its argument; the keys of the map are not slugified where a request gives
-- the slug.
unfoldable pub get_provider_by_slug : Store → Text → Option ProviderRecord
get_provider_by_slug s slug = provider_of_slug (slugify slug) s

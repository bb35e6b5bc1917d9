-- ===== src/Store/Queue.antt =====
-- The verification queue of src/domain/memory-store.ts: claiming tools under a lease, and what
-- finishing an attempt writes.
pub mod Laws
pub mod Order
use directory.Common.{
  ℕ, zero, suc, ◌+◌, ◌*◌, ◌^◌, min, String, Bool, true, false, not, ◌&&◌, ◌||◌, Option, none, some,
  List, [], ◌∷◌, map, ltb, leb, if◌then◌else◌, ◌==◌, nat_eq, or_else, filter, take,
}
use directory.Common.Sort.{sort_by}
use directory.Types.{ToolStatus, status_eq}
use directory.Types.Records.{MemoryTool}
use directory.Store.{Store, tool_of_id, update_tool}

abbrev pub base_backoff_ms : ℕ
base_backoff_ms = 5 * 60000

abbrev pub max_backoff_ms : ℕ
max_backoff_ms = 24 * 60 * 60000

unfoldable pub next_verify_backoff_ms : ℕ → ℕ
next_verify_backoff_ms fail_count = min max_backoff_ms (base_backoff_ms * 2 ^ (min fail_count 8))

-- `at == null || at <= now`
abbrev pub is_past : ℕ → Option ℕ → Bool
is_past now none = true
is_past now (some at) = leb at now

unfoldable pub is_due : ℕ → MemoryTool → Bool
is_due now tool =
    (tool.status == ToolStatus.pending
      || tool.status == ToolStatus.active
      || tool.status == ToolStatus.degraded
      || tool.status == ToolStatus.suspended)
    && is_past now tool.verify_lease_until
    && is_past now tool.next_verify_at

-- The comparison of the sort: does `a` stay in front of `b`?
unfoldable pub comes_first : MemoryTool → MemoryTool → Bool
comes_first a b =
    let a_next = or_else a.next_verify_at 0 in
    let b_next = or_else b.next_verify_at 0 in
    if not (a_next == b_next)
    then ltb a_next b_next
    else leb (or_else a.last_verified_at 0) (or_else b.last_verified_at 0)

unfoldable pub candidates : ℕ → Store → ℕ → List MemoryTool
unfolding is_due comes_first sort_by
candidates now s limit = take limit (sort_by comes_first (filter (is_due now) s.tools))

unfoldable pub lease_all : ℕ → List MemoryTool → Store → Store
lease_all until [] s = s
lease_all until (t ∷ l) s =
    lease_all until l (update_tool t.id (λ u. record u { verify_lease_until = some until }) s)

unfoldable pub claim_tools_for_verification : ℕ → Store → ℕ → ℕ → Store × List String
unfolding candidates lease_all
claim_tools_for_verification now s limit lease_ms =
    let l = candidates now s limit in
    (lease_all (now + lease_ms) l s, map (λ (t : MemoryTool). t.id) l)

unfoldable pub list_tool_ids_for_verification : ℕ → Store → ℕ → Store × List String
unfolding claim_tools_for_verification
list_tool_ids_for_verification now s limit = claim_tools_for_verification now s limit 60000

pub record Schedule : Type 0 where
  pub fail_count : ℕ
  pub success_streak : ℕ

unfoldable pub complete_tool : ℕ → Bool → MemoryTool → MemoryTool
unfolding next_verify_backoff_ms
complete_tool now success tool =
    if success
    then record tool {
      last_verified_at = some now;
      verify_lease_until = none;
      verify_fail_count = 0;
      verify_success_streak = tool.verify_success_streak + 1;
      next_verify_at = some (now + 30 * 60000);
    }
    else record tool {
      last_verified_at = some now;
      verify_lease_until = none;
      verify_fail_count = tool.verify_fail_count + 1;
      verify_success_streak = 0;
      next_verify_at = some (now + next_verify_backoff_ms (tool.verify_fail_count + 1));
    }

unfoldable pub complete_verification_attempt : ℕ → Store → String → Bool → Store × Schedule
unfolding complete_tool
complete_verification_attempt now s tool_id success = elim (tool_of_id tool_id s) [
  | none ↦ (s, record { fail_count = 0; success_streak = 0 })
  | some tool ↦ (
    update_tool tool_id (complete_tool now success) s,
    record {
      fail_count = (complete_tool now success tool).verify_fail_count;
      success_streak = (complete_tool now success tool).verify_success_streak;
    },
  )
]

-- ===== src/Verification/Refinement.antt =====
-- `verifyTool` on the store refines one abstract attempt on the tool's status and counters.
use directory.Common.{
  ℕ, ◌+◌, ◌≡◌, refl, sym, ap, ◌∙◌, Bool, true, false, not, ◌&&◌, String, Option, none, some, List,
  [], ◌∷◌, arith, ◌==◌, Bool-cases, Option-cases, inl, inr, string_eq,
}
use mathlib.Core.Option
use directory.Types.{ToolStatus, status_eq, status_beq_iff}
use directory.Types.Records.{MemoryTool, ProbeMethod}
use directory.Lifecycle.{next_lifecycle_status}
use directory.Lifecycle.Laws.{Health, Attempt, attempt}
use directory.Store.{Store, get, tool_of_id, update_tool, get_tool_by_id, with_usage}
use directory.Store.Maps.{get-update_self}
use directory.Store.Providers.{set_tool_status}
use directory.Store.Queue.{complete_tool, complete_verification_attempt}
use directory.Store.Evidence.{
  endpoint_of, get_endpoint_for_tool, insert_verification_check, upsert_trust_profile,
}
use directory.Trust.{refresh_trust_for_tool}
use directory.Verification.{
  CheckResult, Answers, meets_activation_criteria, is_security_isolation_failure,
}
use directory.Verification.Run.{checks_of, insert_all, settle, verify_tool}

abbrev pub health_of : MemoryTool → Health
health_of t = record {
  status = t.status;
  fail_count = t.verify_fail_count;
  success_streak = t.verify_success_streak;
}

abbrev found : String → Store → Option Health
found id s = Option.map health_of (tool_of_id id s)

insert_all-tools :
    (fresh : ℕ → String) (i now : ℕ) (id eid : String) (l : List CheckResult) (s : Store)
    → (insert_all fresh i now id eid l s).tools ≡ s.tools
unfolding insert_all insert_verification_check
insert_all-tools fresh i now id eid [] s = refl
insert_all-tools fresh i now id eid (r ∷ l) s = insert_all-tools fresh (i + 1) now id eid l _

tool_of_id-update_tool :
    (id : String) (f : MemoryTool → MemoryTool) (s : Store) (t : MemoryTool)
    → ((a : MemoryTool) → (f a).id ≡ a.id)
    → tool_of_id id s ≡ some t
    → tool_of_id id (update_tool id f s) ≡ some (f t)
tool_of_id-update_tool id f s t keep h =
    get-update_self (λ (a : MemoryTool). a.id) id f s.tools keep ∙ ap (Option.map f) h

complete-tool :
    (now : ℕ) (s : Store) (id : String) (b : Bool) (t : MemoryTool)
    → tool_of_id id s ≡ some t
    → (tool_of_id id (complete_verification_attempt now s id b).0 ≡ some (complete_tool now b t))
      × ((complete_verification_attempt now s id b).1.fail_count
          ≡ (complete_tool now b t).verify_fail_count)
      × ((complete_verification_attempt now s id b).1.success_streak
          ≡ (complete_tool now b t).verify_success_streak)
unfolding complete_verification_attempt
complete-tool now s id b t h =
    rw (h, complete_verification_attempt)
      (
        tool_of_id-update_tool id (complete_tool now b) s t
            (λ a. unfold complete_tool in ground arith) h,
        refl,
        refl,
      )

set_tool_status-tool :
    (now : ℕ) (s : Store) (id : String) (st : ToolStatus) (t : MemoryTool)
    → tool_of_id id s ≡ some t
    → found id (set_tool_status now s id st) ≡ some (record (health_of t) { status = st })
unfolding set_tool_status
set_tool_status-tool now s id st t h =
    ap (Option.map health_of) (
      tool_of_id-update_tool id (λ u. record u { status = st; updated_at = now }) s t (λ a. refl) h)

attempt_lem :
    (now : ℕ) (t : MemoryTool) (admitted sec : Bool)
    → attempt (health_of t) (record { admitted = admitted; security_fail = sec }) ≡ record {
      status =
          next_lifecycle_status t.status
            (admitted && not sec)
            sec
            (complete_tool now (admitted && not sec) t).verify_fail_count
            (complete_tool now (admitted && not sec) t).verify_success_streak;
      fail_count = (complete_tool now (admitted && not sec) t).verify_fail_count;
      success_streak = (complete_tool now (admitted && not sec) t).verify_success_streak;
    }
unfolding attempt complete_tool
attempt_lem now t true true = refl
attempt_lem now t true false = refl
attempt_lem now t false _ = refl

complete_tool-status :
    (now : ℕ) (b : Bool) (t : MemoryTool) → (complete_tool now b t).status ≡ t.status
unfolding complete_tool
complete_tool-status now b t = ground arith

settle-health :
    (now : ℕ) (s : Store) (id : String) (t u : MemoryTool) (admitted sec : Bool)
    → tool_of_id id s ≡ some t
    → u.status ≡ t.status
    → found id (settle now s id (some u) admitted sec)
      ≡ some (attempt (health_of t) (record { admitted = admitted; security_fail = sec }))
unfolding settle
settle-health now s id t u admitted sec h same =
    let b = admitted && not sec in
    let s' = (complete_verification_attempt now s id b).0 in
    let (c, f, k) = complete-tool now s id b t h in
    let next : ToolStatus =
      next_lifecycle_status t.status b sec (complete_tool now b t).verify_fail_count
        (complete_tool now b t).verify_success_streak in
    rw (same, f, k)
      (elim (Bool-cases (next == t.status)) [
        | inl e ↦ rw e (ap (Option.map health_of) c ∙ ap some (same_health e))
        | inr e ↦ rw e (
            set_tool_status-tool now s' id next _ c
            ∙ ap some (sym (attempt_lem now t admitted sec)))
      ])
  where
    same_health :
        (next_lifecycle_status t.status
              (admitted && not sec)
              sec
              (complete_tool now (admitted && not sec) t).verify_fail_count
              (complete_tool now (admitted && not sec) t).verify_success_streak
            == t.status)
          ≡ true
        → health_of (complete_tool now (admitted && not sec) t)
          ≡ attempt (health_of t) (record { admitted = admitted; security_fail = sec })
    same_health e =
        rw (attempt_lem now t admitted sec, (status_beq_iff _ _).0 e)
          (ap
            (λ (v : ToolStatus). record {
              status = v;
              fail_count = (complete_tool now (admitted && not sec) t).verify_fail_count;
              success_streak = (complete_tool now (admitted && not sec) t).verify_success_streak;
            })
            (complete_tool-status now (admitted && not sec) t))

map-health :
    (f : MemoryTool → MemoryTool) (o : Option MemoryTool)
    → ((a : MemoryTool) → health_of (f a) ≡ health_of a)
    → Option.map health_of (Option.map f o) ≡ Option.map health_of o
map-health f none keep = refl
map-health f (some a) keep = ap some (keep a)

refresh-health :
    (log10 : ℕ → ℕ) (now : ℕ) (s : Store) (id : String)
    → found id (refresh_trust_for_tool log10 now s id).0 ≡ found id s
unfolding refresh_trust_for_tool upsert_trust_profile
refresh-health log10 now s id = elim (Option-cases (get_tool_by_id now s id)) [
  | inl e ↦ rw (e, refresh_trust_for_tool) refl
  | inr (t, e) ↦
      rw (e, refresh_trust_for_tool)
        (ap (Option.map health_of)
            (get-update_self (λ (a : MemoryTool). a.id) id _ s.tools (λ a. refl))
          ∙ map-health _ (tool_of_id id s) (λ a. refl))
]

module _ (log10 : ℕ → ℕ) (net : String → Option ProbeMethod → Answers) (fresh : ℕ → String) where
  -- The attempt that a run of the checks on a stored tool amounts to.
  unfoldable pub attempt_of : MemoryTool → Attempt
  attempt_of tool =
      let results = checks_of log10 net fresh (some tool) (endpoint_of tool) in
      record {
        admitted = meets_activation_criteria tool.provider.verified tool.transport results;
        security_fail = is_security_isolation_failure results;
      }

  -- Verifying a stored tool makes one lifecycle attempt on its status and counters, with what its
  -- checks found; nothing else that `verifyTool` does touches them.
  pub verify_tool-attempt :
      (now : ℕ) (s : Store) (id : String) (t : MemoryTool)
      → tool_of_id id s ≡ some t
      → Option.map health_of (tool_of_id id (verify_tool log10 net fresh now s id).0)
        ≡ some (attempt (health_of t) (attempt_of t))
  unfolding verify_tool get_tool_by_id get_endpoint_for_tool attempt_of checks_of with_usage
  verify_tool-attempt now s id t h =
      let u = with_usage now s t in
      let g : get_tool_by_id now s id ≡ some u = ap (Option.map (with_usage now s)) h in
      let results = checks_of log10 net fresh (some t) (endpoint_of t) in
      let admitted = meets_activation_criteria t.provider.verified t.transport results in
      let isolated = is_security_isolation_failure results in
      let s₁ = insert_all fresh 0 now id t.endpoint_id results s in
      let kept : tool_of_id id s₁ ≡ some t =
        ap (get (λ (a : MemoryTool). a.id) id)
          (insert_all-tools fresh 0 now id t.endpoint_id results s)
        ∙ h in
      rw (h, verify_tool)
        (rw g (
          refresh-health log10 now (settle now s₁ id (some u) admitted isolated) id
          ∙ settle-health now s₁ id t u admitted isolated kept refl))

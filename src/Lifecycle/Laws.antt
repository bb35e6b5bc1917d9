-- ===== src/Lifecycle/Laws.antt =====
-- How the status moves over attempts: the characterisation of activation, and whole runs.
use directory.Common.{
  ℕ, zero, suc, ◌+◌, ◌≤◌, ◌<◌, ◌≡◌, ◌↔◌, ◌⊎◌, Bool, true, false, not, ◌&&◌, List, [], ◌∷◌, All,
  arith, ltb, if◌then◌else◌,
}
use directory.Types.{ToolStatus}
use directory.Lifecycle.{next_lifecycle_status}

-- What the lifecycle looks at: the status and the two counters of a tool.
pub record Health : Type 0 where
  pub status : ToolStatus
  pub fail_count : ℕ
  pub success_streak : ℕ

-- The result of running the checks once.
pub record Attempt : Type 0 where
  pub admitted : Bool
  pub security_fail : Bool

abbrev pub is_success : Attempt → Bool
is_success a = a.admitted && not a.security_fail

-- One attempt: the counters first, then the status from the new counters.
unfoldable pub attempt : Health → Attempt → Health
unfolding next_lifecycle_status
attempt h a =
    let fails : ℕ = if is_success a then 0 else h.fail_count + 1 in
    let streak : ℕ = if is_success a then h.success_streak + 1 else 0 in
    record {
      status = next_lifecycle_status h.status (is_success a) a.security_fail fails streak;
      fail_count = fails;
      success_streak = streak;
    }

unfoldable pub attempts : Health → List Attempt → Health
attempts h [] = h
attempts h (a ∷ rest) = attempts (attempt h a) rest

-- The next status is "active" exactly when no security check failed and either the attempt was
-- admitted and the tool was pending, active or degraded, or suspended with a streak of two, or the
-- attempt was not admitted but the tool was active with fewer than two failures.
pub next_lifecycle_status-eq-active_iff :
    (s : ToolStatus) (admitted security_fail : Bool) (f k : ℕ)
    → (next_lifecycle_status s admitted security_fail f k ≡ ToolStatus.active) ↔ (
        (security_fail ≡ false)
        × ((admitted ≡ true)
              × ((s ≡ ToolStatus.pending)
                  ⊎ (s ≡ ToolStatus.active)
                  ⊎ (s ≡ ToolStatus.degraded)
                  ⊎ ((s ≡ ToolStatus.suspended) × (2 ≤ k)))
            ⊎ (admitted ≡ false) × (s ≡ ToolStatus.active) × (f < 2)))
unfolding next_lifecycle_status
next_lifecycle_status-eq-active_iff s true sec f k = ground arith
next_lifecycle_status-eq-active_iff s false sec f k = ground arith

abbrev pub failure : Attempt
failure = record { admitted = false; security_fail = false }

abbrev pub success : Attempt
success = record { admitted = true; security_fail = false }

abbrev pub repeat : ℕ → Attempt → List Attempt
repeat zero a = []
repeat (suc n) a = a ∷ repeat n a

abbrev status_after : ℕ → ToolStatus
status_after f =
    if ltb f 2
    then ToolStatus.active
    else if ltb f 4
    then ToolStatus.degraded
    else ToolStatus.suspended

failure_step :
    (f : ℕ) (h : Health)
    → h.status ≡ status_after f
    → h.fail_count ≡ f
    → ((attempt h failure).status ≡ status_after (f + 1)) × ((attempt h failure).fail_count ≡ f + 1)
unfolding attempt
failure_step f h p q = rw (p, q) (ground arith)

run_failures :
    (n f : ℕ) (h : Health)
    → h.status ≡ status_after f
    → h.fail_count ≡ f
    → ((attempts h (repeat n failure)).status ≡ status_after (f + n))
      × ((attempts h (repeat n failure)).fail_count ≡ f + n)
unfolding attempts
run_failures zero f h p q = let e : f + 0 ≡ f = omega arith in rw e (p, q)
run_failures (suc n) f h p q =
    let (p', q') = failure_step f h p q in
    let e : f + suc n ≡ f + 1 + n = omega arith in
    rw e (run_failures n (f + 1) (attempt h failure) p' q')

-- From an active tool with no failure counted, n attempts that fail without a security failure
-- count n failures, and leave the tool active for n < 2, degraded for n = 2 and n = 3, and
-- suspended from n = 4 on.
pub attempts-failures :
    (n : ℕ) (h : Health)
    → h.status ≡ ToolStatus.active
    → h.fail_count ≡ 0
    → ((attempts h (repeat n failure)).fail_count ≡ n)
      × ((attempts h (repeat n failure)).status ≡ (
          if ltb n 2
          then ToolStatus.active
          else if ltb n 4
          then ToolStatus.degraded
          else ToolStatus.suspended))
attempts-failures n h p q =
    let (s, c) = run_failures n 0 h (rw p) q in
    let e : 0 + n ≡ n = omega arith in (rw e at c, rw e at s)

-- Whatever happened before, two successful attempts in a row make a suspended tool active, and one
-- makes it active only if its streak had already begun.
pub attempts-recovery :
    (h : Health)
    → h.status ≡ ToolStatus.suspended
    → ((attempts h (repeat 2 success)).status ≡ ToolStatus.active)
      × (((attempt h success).status ≡ ToolStatus.active) ↔ (1 ≤ h.success_streak))
unfolding attempts attempt
attempts-recovery h p = rw p (ground arith)

deprecated_step :
    (h : Health) (a : Attempt)
    → h.status ≡ ToolStatus.deprecated
    → a.security_fail ≡ false
    → (attempt h a).status ≡ ToolStatus.deprecated
unfolding attempt
deprecated_step h a p q = rw (p, q) (ground arith)

-- A deprecated tool stays deprecated over any attempts among which no security check fails.
pub attempts-deprecated :
    (h : Health) (l : List Attempt)
    → h.status ≡ ToolStatus.deprecated
    → All (λ a. a.security_fail ≡ false) l
    → (attempts h l).status ≡ ToolStatus.deprecated
unfolding attempts
attempts-deprecated h [] p q = p
attempts-deprecated h (a ∷ rest) p (q, qs) =
    attempts-deprecated (attempt h a) rest (deprecated_step h a p q) qs

-- The two counters are never both positive, after any attempts.
pub attempts-counters :
    (h : Health) (l : List Attempt)
    → (h.fail_count ≡ 0) ⊎ (h.success_streak ≡ 0)
    → ((attempts h l).fail_count ≡ 0) ⊎ ((attempts h l).success_streak ≡ 0)
unfolding attempts
attempts-counters h [] p = p
attempts-counters h (a ∷ rest) p =
    attempts-counters (attempt h a) rest (unfold attempt in ground arith)

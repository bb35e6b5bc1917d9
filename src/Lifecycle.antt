-- ===== src/Lifecycle.antt =====
-- src/domain/lifecycle.ts: the status of a catalog tool after a verification attempt.
pub mod Laws
use directory.Common.{ℕ, Bool, ◌&&◌, ◌||◌, leb, if◌then◌else◌, ◌==◌}
use directory.Types.{ToolStatus, status_eq}

abbrev pub degrade_after_failures : ℕ
degrade_after_failures = 2

abbrev pub suspend_after_failures : ℕ
suspend_after_failures = 4

abbrev pub recover_after_successes : ℕ
recover_after_successes = 2

-- `fail_count` and `success_streak` already count the attempt.
unfoldable pub next_lifecycle_status : ToolStatus → Bool → Bool → ℕ → ℕ → ToolStatus
next_lifecycle_status current admitted security_fail fail_count success_streak =
    if security_fail
    then ToolStatus.suspended
    else if admitted
    then (if current == ToolStatus.suspended
        then (if leb recover_after_successes success_streak
            then ToolStatus.active
            else ToolStatus.suspended)
        else if current == ToolStatus.pending
            || current == ToolStatus.degraded
            || current == ToolStatus.active
        then ToolStatus.active
        else current)
    else if current == ToolStatus.pending || current == ToolStatus.deprecated
    then current
    else if leb suspend_after_failures fail_count
    then ToolStatus.suspended
    else if current == ToolStatus.active && leb degrade_after_failures fail_count
    then ToolStatus.degraded
    else if current == ToolStatus.degraded
    then ToolStatus.degraded
    else if current == ToolStatus.suspended
    then ToolStatus.suspended
    else current

unfoldable pub is_discoverable_status : ToolStatus → Bool
is_discoverable_status status = status == ToolStatus.active || status == ToolStatus.degraded

-- ===== src/Progress/Global.antt =====
-- legacy_progress.go: progressGlobalRuntime, the limits on keys and waiters over all sites. Limits
-- are Go ints; one that is not positive is given as 0, with which the code does the same.
mod Examples
pub mod Limits
use emby_panel.Prelude.{ℕ, ◌+◌, ◌-◌, ◌==◌, Bool, true, false, ◌||◌, leb, ltb, if◌then◌else◌}

pub record ProgressGlobalRuntime : Type 0 where
  pub active_keys : ℕ
  pub waiters : ℕ
  pub max_active_keys : ℕ
  pub max_waiters : ℕ

unfoldable pub new_progress_global_runtime : ℕ → ℕ → ProgressGlobalRuntime
new_progress_global_runtime max_active_keys max_waiters = record {
  active_keys = 0;
  waiters = 0;
  max_active_keys = max_active_keys;
  max_waiters = max_waiters;
}

unfoldable pub reserve_key : ProgressGlobalRuntime → ProgressGlobalRuntime × Bool
reserve_key r =
    if r.max_active_keys == 0 || leb r.max_active_keys r.active_keys
    then (r, false)
    else (record r { active_keys = r.active_keys + 1 }, true)

unfoldable pub release_key : ProgressGlobalRuntime → ProgressGlobalRuntime
release_key r = if ltb 0 r.active_keys then record r { active_keys = r.active_keys - 1 } else r

unfoldable pub reserve_waiter : ProgressGlobalRuntime → ProgressGlobalRuntime × Bool
reserve_waiter r =
    if r.max_waiters == 0 || leb r.max_waiters r.waiters
    then (r, false)
    else (record r { waiters = r.waiters + 1 }, true)

unfoldable pub release_waiter : ProgressGlobalRuntime → ProgressGlobalRuntime
release_waiter r = if ltb 0 r.waiters then record r { waiters = r.waiters - 1 } else r

-- ===== src/Progress/Global/Examples.antt =====
-- Two sites that want the one key there is.
use emby_panel.Prelude.{◌+◌, ◌≤◌, ◌≡◌, refl, if◌then◌else◌}
use emby_panel.Progress.Global.{new_progress_global_runtime, reserve_key}
use emby_panel.Progress.Global.Limits.{Held, reserves_key, here, next, progress_limits_kept}

abbrev start : Held
start = record { runtime = new_progress_global_runtime 1 4; keys = 0; waiting = 0 }

abbrev one_more_key : Held → Held
one_more_key h =
    let (r, got) = reserve_key h.runtime in
    record { runtime = r; keys = if got then h.keys + 1 else h.keys; waiting = h.waiting }

abbrev twice : Held
twice = one_more_key (one_more_key start)

progress_limits_kept_example :
    (twice.runtime.active_keys ≡ twice.keys)
    × (twice.runtime.waiters ≡ twice.waiting)
    × (twice.keys ≤ 1)
    × (twice.waiting ≤ 4)
progress_limits_kept_example =
    progress_limits_kept 1 4 twice (next (next here (reserves_key refl)) (reserves_key refl))

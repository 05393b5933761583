-- ===== src/Progress/Coalescer/Handler/Examples.antt =====
-- An update and the end of a playback arrive together; the first is enqueued.
use emby_panel.Prelude.{◌≡◌, true, false, some, [], ◌∷◌}
use emby_panel.Progress.Global.{ProgressGlobalRuntime}
use emby_panel.Progress.Coalescer.Entry.{default_progress_coalescer_config}
use emby_panel.Progress.Coalescer.Handler.{Report, starting}
use emby_panel.Progress.Coalescer.Handler.Admissions.{
  Site, SiteReach, here, next, comes, moves, new_site, step_at, count_admitted,
  admissions_are_handlers,
}

abbrev limits : ProgressGlobalRuntime
limits = record { active_keys = 0; waiters = 0; max_active_keys = 4096; max_waiters = 1024 }

abbrev update_report : Report
update_report = record { is_stopped = false; key = some "k"; request = 7 }

abbrev stop_report : Report
stop_report = record { is_stopped = true; key = some "k"; request = 8 }

abbrev both_came : Site
both_came = record (new_site limits default_progress_coalescer_config) {
  handlers = (stop_report, starting) ∷ (update_report, starting) ∷ [];
}

abbrev one_admitted : Site
one_admitted = step_at 0 1 false both_came.coalescer both_came.handlers

abbrev both_admitted : Site
both_admitted = step_at 1 2 false one_admitted.coalescer one_admitted.handlers

abbrev one_enqueued : Site
one_enqueued = step_at 1 3 false both_admitted.coalescer both_admitted.handlers

one_enqueued_reached : SiteReach (new_site limits default_progress_coalescer_config) one_enqueued
one_enqueued_reached =
    next
      (next (next (next (next here (comes update_report)) (comes stop_report)) (moves 0 1 false))
        (moves 1 2 false))
      (moves 1 3 false)

admissions_are_handlers_example :
    one_enqueued.coalescer.admissions ≡ count_admitted one_enqueued.handlers
admissions_are_handlers_example =
    admissions_are_handlers limits default_progress_coalescer_config one_enqueued_reached

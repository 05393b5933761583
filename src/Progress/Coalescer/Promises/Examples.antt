-- ===== src/Progress/Coalescer/Promises/Examples.antt =====
-- A site that plays one title: an update, and then the end of the playback while it is queued.
use emby_panel.Prelude.{◌+◌, ◌≤◌, ◌<◌, ◌≡◌, ◌⊎◌, ◌&&◌, refl, true, false, none, some, [], ◌∷◌}
use emby_panel.Prelude.Maps.{lookup, size, AllValues, insert}
use emby_panel.Progress.Global.{ProgressGlobalRuntime, reserve_key, reserve_waiter}
use emby_panel.Progress.Coalescer.Entry.{
  Config, Batch, Work, batch_work, Entry, default_progress_coalescer_config, is_some, has_active,
  release_waiter_locked,
}
use emby_panel.Progress.Coalescer.Calls.{
  new_progress_coalescer, enqueue_update, enqueue_barrier, mark_batch_ready,
}
use emby_panel.Progress.Coalescer.Completion.{begin_drain, finish_dispatch, close_coalescer}
use emby_panel.Progress.Coalescer.Queue.{all_ready}
use emby_panel.Progress.Coalescer.History.{
  World, Reach, here, next, calls, updates, bars, fires, answers, begins_drain, after, new_world,
  waiters_of,
}
use emby_panel.Progress.Coalescer.Promises.{
  IsWithin, WaitsAlone, any_active, coalescer_counts_kept, queued_work_moves, drain_never_stuck,
  drained_close_releases,
}

abbrev limits : ProgressGlobalRuntime
limits = record { active_keys = 0; waiters = 0; max_active_keys = 4096; max_waiters = 1024 }

abbrev config : Config
config = default_progress_coalescer_config

abbrev updated : World
updated = record {
  coalescer = after (updates "k" 7 0) (new_progress_coalescer limits config);
  other_keys = 0;
  other_waiters = 0;
}

updated_reached : Reach (new_world limits config) updated
updated_reached = next here (calls (updates "k" 7 0))

abbrev stopped : World
stopped = record updated { coalescer = after (bars "k" 5) updated.coalescer }

stopped_reached : Reach (new_world limits config) stopped
stopped_reached = next updated_reached (calls (bars "k" 5))

coalescer_counts_kept_example :
    (stopped.coalescer.global.active_keys ≡ size stopped.coalescer.entries + 0)
    × (stopped.coalescer.global.waiters ≡ waiters_of stopped.coalescer + 0)
    × (size stopped.coalescer.entries ≤ stopped.coalescer.config.max_site_keys)
    × AllValues (IsWithin stopped.coalescer.config) stopped.coalescer.entries
coalescer_counts_kept_example = coalescer_counts_kept limits config stopped_reached

abbrev waiting_work : Work
waiting_work = batch_work (record {
  id = 1;
  request = 7;
  waiters = 1 ∷ [];
  first_arrival = 0;
  last_arrival = 0;
  ready = false;
  timer = some 1000000000;
  timer_generation = 1;
})

abbrev waiting_entry : Entry
waiting_entry = record {
  id = 0;
  queue = waiting_work ∷ [];
  active_batch = none;
  active_barrier = none;
  waiters = 1;
  last_activity = 0;
}

waiting_found : lookup "k" updated.coalescer.entries ≡ some waiting_entry
unfolding lookup after enqueue_update new_progress_coalescer reserve_key reserve_waiter insert
waiting_found = refl

queued_work_moves_example :
    (is_some waiting_entry.active_batch && is_some waiting_entry.active_barrier ≡ false)
    × ((has_active waiting_entry ≡ true) ⊎ WaitsAlone updated.coalescer.config waiting_work [])
queued_work_moves_example =
    queued_work_moves limits config "k" waiting_entry waiting_work [] updated_reached waiting_found
      refl

abbrev draining_world : World
draining_world = record stopped { coalescer = after begins_drain stopped.coalescer }

draining_reached : Reach (new_world limits config) draining_world
draining_reached = next stopped_reached (calls begins_drain)

drain_never_stuck_example :
    (0 < draining_world.coalescer.admissions)
    ⊎ ((draining_world.coalescer.admissions ≡ 0)
        × AllValues (λ e. all_ready e.queue ≡ true) draining_world.coalescer.entries
        × (any_active draining_world.coalescer.entries ≡ true))
unfolding lookup after enqueue_update enqueue_barrier new_progress_coalescer reserve_key
    reserve_waiter insert begin_drain
drain_never_stuck_example = drain_never_stuck limits config draining_reached refl

abbrev sent_batch : Batch
sent_batch = record {
  id = 1;
  request = 7;
  waiters = 1 ∷ [];
  first_arrival = 0;
  last_arrival = 0;
  ready = true;
  timer = none;
  timer_generation = 1;
}

abbrev answered : World
answered = record updated {
  coalescer =
      after (answers "k" 0 sent_batch (record { response = 200; error = none }) 1000000009)
        (after (fires "k" 0 1 1) updated.coalescer);
}

abbrev drained_world : World
drained_world = record answered { coalescer = after begins_drain answered.coalescer }

drained_reached : Reach (new_world limits config) drained_world
drained_reached =
    next
      (next (next updated_reached (calls (fires "k" 0 1 1)))
        (calls (answers "k" 0 sent_batch (record { response = 200; error = none }) 1000000009)))
      (calls begins_drain)

drained_close_releases_example :
    ((close_coalescer drained_world.coalescer).global.active_keys ≡ 0)
    × ((close_coalescer drained_world.coalescer).global.waiters ≡ 0)
unfolding lookup after enqueue_update enqueue_barrier new_progress_coalescer reserve_key
    reserve_waiter insert begin_drain mark_batch_ready finish_dispatch release_waiter_locked
drained_close_releases_example = drained_close_releases limits config drained_reached refl

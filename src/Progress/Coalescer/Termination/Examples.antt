-- ===== src/Progress/Coalescer/Termination/Examples.antt =====
-- A playback that ends while its last update is queued, and then the site is drained: the update
-- is answered, and the barrier of the end is released.
use emby_panel.Prelude.{true, none, some, [], ◌∷◌}
use emby_panel.Progress.Global.{ProgressGlobalRuntime}
use emby_panel.Progress.Coalescer.Entry.{
  Config, Batch, barrier_work, Entry, default_progress_coalescer_config,
}
use emby_panel.Progress.Coalescer.Calls.{Coalescer, new_progress_coalescer}
use emby_panel.Progress.Coalescer.Completion.{finish_dispatch}
use emby_panel.Progress.Coalescer.History.{World, updates, bars, begins_drain, after}

abbrev limits : ProgressGlobalRuntime
limits = record { active_keys = 0; waiters = 0; max_active_keys = 4096; max_waiters = 1024 }

abbrev config : Config
config = default_progress_coalescer_config

abbrev draining_world : World
draining_world = record {
  coalescer =
      after begins_drain
        (after (bars "k" 5) (after (updates "k" 7 0) (new_progress_coalescer limits config)));
  other_keys = 0;
  other_waiters = 0;
}

abbrev sent_batch : Batch
sent_batch = record {
  id = 1;
  request = 7;
  waiters = 1 ∷ [];
  first_arrival = 0;
  last_arrival = 0;
  ready = true;
  timer = none;
  timer_generation = 2;
}

abbrev busy_entry : Entry
busy_entry = record {
  id = 0;
  queue = barrier_work 2 ∷ [];
  active_batch = some sent_batch;
  active_barrier = none;
  waiters = 2;
  last_activity = 5;
}

abbrev answered : Coalescer
answered =
    finish_dispatch draining_world.coalescer "k" 0 sent_batch
      (record { response = 200; error = none }) 9

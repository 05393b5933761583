-- ===== src/Progress/Coalescer/Delivery/Examples.antt =====
-- Two updates of one playback a second apart share a batch.
use emby_panel.Prelude.{◌≡◌, refl, true, none, some, [], ◌∷◌}
use emby_panel.Prelude.Maps.{lookup, insert}
use emby_panel.Progress.Global.{ProgressGlobalRuntime, reserve_key, reserve_waiter}
use emby_panel.Progress.Coalescer.Entry.{
  Batch, Entry, delete_waiter, default_progress_coalescer_config,
}
use emby_panel.Progress.Coalescer.Calls.{
  Coalescer, Outcome, new_progress_coalescer, enqueue_update, mark_batch_ready, entry_at,
}
use emby_panel.Progress.Coalescer.Completion.{finish_dispatch, resolve_canceled_waiter}
use emby_panel.Progress.Coalescer.Delivery.{
  IsCarried, answer_reaches_waiters, enqueue_update-IsCarried,
}

abbrev limits : ProgressGlobalRuntime
limits = record { active_keys = 0; waiters = 0; max_active_keys = 4096; max_waiters = 1024 }

abbrev fresh : Coalescer
fresh = new_progress_coalescer limits default_progress_coalescer_config

abbrev updated : Coalescer
updated = (enqueue_update fresh "k" 7 0).0

update_accepted : (enqueue_update updated "k" 8 900000000).1 ≡ some (0, 2)
unfolding enqueue_update new_progress_coalescer lookup reserve_key reserve_waiter insert
update_accepted = refl

enqueue_update-IsCarried_example :
    (e : Entry) × (lookup "k" (enqueue_update updated "k" 8 900000000).0.entries ≡ some e)
    × (e.id ≡ 0)
    × IsCarried 8 2 e
enqueue_update-IsCarried_example =
    enqueue_update-IsCarried updated "k" 8 900000000 (0, 2) update_accepted

abbrev sent : Coalescer
sent = mark_batch_ready (enqueue_update updated "k" 8 900000000).0 "k" 0 1 2

abbrev sent_batch : Batch
sent_batch = record {
  id = 1;
  request = 8;
  waiters = 2 ∷ 1 ∷ [];
  first_arrival = 0;
  last_arrival = 900000000;
  ready = true;
  timer = none;
  timer_generation = 2;
}

abbrev sent_entry : Entry
sent_entry = record {
  id = 0;
  queue = [];
  active_batch = some sent_batch;
  active_barrier = none;
  waiters = 2;
  last_activity = 900000000;
}

sent_found : entry_at sent "k" 0 ≡ some sent_entry
unfolding entry_at lookup mark_batch_ready enqueue_update new_progress_coalescer reserve_key
    reserve_waiter insert
sent_found = refl

abbrev answer : Outcome
answer = record { response = 200; error = none }

answer_reaches_waiters_example :
    (resolve_canceled_waiter (finish_dispatch sent "k" 0 sent_batch answer 5) "k" 0 1 6).1
    ≡ some answer
unfolding delete_waiter
answer_reaches_waiters_example =
    answer_reaches_waiters sent "k" 0 sent_entry sent_batch answer 1 5 6 sent_found refl refl

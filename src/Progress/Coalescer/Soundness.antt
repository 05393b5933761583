-- ===== src/Progress/Coalescer/Soundness.antt =====
-- The entry of a key is sound, whatever is done to it.
use emby_panel.Prelude.{
  ℕ, suc, ◌+◌, ◌-◌, ◌≤◌, ◌≡◌, true, false, ◌&&◌, ◌||◌, Option, Option-cases, inl, inr, none, some,
  List, [], ◌∷◌, ◌++◌, length, arith,
}
use emby_panel.Progress.Coalescer.Entry.{
  Config, Batch, Work, barrier_work, Entry, is_some, is_empty, has_active, add_update, force_work,
  force_queued_batches, start_work, advance_entry, delete_waiter,
}
use emby_panel.Progress.Coalescer.Leaving.{
  forget_in_batch, forget_active, forget_queued, forget_waiter,
}
use emby_panel.Progress.Coalescer.Queue.{
  is_scheduled, all_ready, waits_for_timer, queued, all_ready-force_work, queued-force_work,
  scheduled_when_ready, queued-add_update, is_scheduled-add_update, all_ready-append_barrier,
  queued-append_barrier,
}
use emby_panel.Progress.Coalescer.Shorter.{Follows, forget_queued-Follows, delete_waiter-length}

abbrev pub waiting_batch : Option Batch → ℕ
waiting_batch none = 0
waiting_batch (some b) = length b.waiters

abbrev pub waiting_barrier : Option ℕ → ℕ
waiting_barrier none = 0
waiting_barrier (some k) = 1

-- The counter of an entry is `extra` more than its waiters and barriers, and within its limit; a
-- batch and a barrier are not under way at once, and what is queued is scheduled.
pub record IsCounted (config : Config) (extra : ℕ) (e : Entry) : Type 0 where
  pub counted :
      e.waiters
      ≡ extra + waiting_batch e.active_batch + waiting_barrier e.active_barrier + queued e.queue
  pub within : e.waiters ≤ config.max_waiters_per_key
  pub exclusive : is_some e.active_batch && is_some e.active_barrier ≡ false
  pub scheduled : is_scheduled config e.queue ≡ true

-- Nothing is counted that is not there, and the head of the queue waits only for what is under
-- way or for its own timer.
pub record IsSound (config : Config) (e : Entry) : Type 0 where
  pub books : IsCounted config 0 e
  pub moving : has_active e || waits_for_timer e.queue ≡ true

pub advance_entry-IsSound :
    (config : Config) (e : Entry) → IsCounted config 0 e → IsSound config (advance_entry e)
unfolding advance_entry start_work has_active is_scheduled queued
advance_entry-IsSound config e h = ground (arith, h.counted, h.within, h.exclusive, h.scheduled)

pub advance_entry-all_ready :
    (e : Entry) → all_ready e.queue ≡ true → all_ready (advance_entry e).queue ≡ true
unfolding advance_entry start_work has_active all_ready
advance_entry-all_ready e h = ground arith

pub advance_entry-waiters : (e : Entry) → (advance_entry e).waiters ≡ e.waiters
unfolding advance_entry start_work has_active
advance_entry-waiters e = ground arith

pub force_queued_batches-IsCounted :
    (config : Config) (extra : ℕ) (e : Entry)
    → IsCounted config extra e
    → IsCounted config extra (force_queued_batches e)
unfolding force_queued_batches
force_queued_batches-IsCounted config extra e h = record {
  counted = omega (arith, h.counted, queued-force_work e.queue);
  within = h.within;
  exclusive = h.exclusive;
  scheduled = scheduled_when_ready config (force_work e.queue) (all_ready-force_work e.queue);
}

module _ (config : Config) (e : Entry) where
  pub add_update-IsCounted :
      (now n request : ℕ)
      → IsCounted config 1 e
      → IsCounted config 0
          (record e { queue = add_update config now n request e.queue; last_activity = now })
  add_update-IsCounted now n request h = record {
    counted = omega (arith, h.counted, queued-add_update config now n request e.queue);
    within = h.within;
    exclusive = h.exclusive;
    scheduled = is_scheduled-add_update config now n request e.queue h.scheduled;
  }

  pub append_barrier-IsCounted :
      (now n : ℕ)
      → IsCounted config 1 e
      → IsCounted config 0
          (record e { queue = force_work e.queue ++ (barrier_work n ∷ []); last_activity = now })
  append_barrier-IsCounted now n h =
      let q = force_work e.queue in
      record {
        counted = omega (arith, h.counted, queued-force_work e.queue, queued-append_barrier n q);
        within = h.within;
        exclusive = h.exclusive;
        scheduled =
            scheduled_when_ready config (q ++ (barrier_work n ∷ []))
              (all_ready-append_barrier n q (all_ready-force_work e.queue));
      }

  pub Follows-IsCounted :
      {gone : ℕ} {after : List Work}
      → Follows config gone e.queue after
      → IsCounted config 0 e
      → IsCounted config gone (record e { queue = after })
  Follows-IsCounted f h = record {
    counted = omega (arith, h.counted, f.waiters);
    within = h.within;
    exclusive = h.exclusive;
    scheduled = f.scheduled h.scheduled;
  }

  -- The entry without the barrier or the batch that was under way.
  pub end_barrier-IsCounted :
      {k : ℕ}
      → e.active_barrier ≡ some k
      → IsCounted config 0 e
      → IsCounted config 1 (record e { active_barrier = none })
  end_barrier-IsCounted h v = ground (arith, v.counted, v.within, v.exclusive, v.scheduled)

  pub end_batch-IsCounted :
      {b : Batch} (now : ℕ)
      → e.active_batch ≡ some b
      → IsCounted config 0 e
      → IsCounted config (length b.waiters) (record e { active_batch = none; last_activity = now })
  end_batch-IsCounted now h v = ground (arith, v.counted, v.within, v.exclusive, v.scheduled)

  -- One is counted less.
  pub less-IsCounted :
      {extra : ℕ}
      → IsCounted config (suc extra) e
      → IsCounted config extra (record e { waiters = e.waiters - 1 })
  less-IsCounted h = record {
    counted = omega (arith, h.counted);
    within = omega (arith, h.within);
    exclusive = h.exclusive;
    scheduled = h.scheduled;
  }

-- An entry without one of its waiters, which is still counted; its work is what it was.
pub record Loses (config : Config) (e f : Entry) : Type 0 where
  pub books : IsCounted config 1 f
  pub active : has_active f ≡ has_active e
  pub empty : is_empty f.queue ≡ is_empty e.queue
  pub head : waits_for_timer f.queue ≡ waits_for_timer e.queue
  pub forced : all_ready e.queue ≡ true → all_ready f.queue ≡ true
  pub waiters : f.waiters ≡ e.waiters

forget_active-waiting_batch :
    (n : ℕ) (active : Option Batch) {b : Batch}
    → forget_active n active ≡ some b
    → (waiting_batch active ≡ suc (length b.waiters)) × (is_some active ≡ true)
unfolding forget_active forget_in_batch
forget_active-waiting_batch n none h = ground arith
forget_active-waiting_batch n (some a) h = elim (Option-cases (delete_waiter n a.waiters)) [
  | inl missing ↦ ground arith
  | inr (left, e) ↦ ground (arith, delete_waiter-length n a.waiters e)
]

pub forget_waiter-Loses :
    (config : Config) (e : Entry) (n : ℕ) {f : Entry}
    → forget_waiter n e ≡ some f
    → IsCounted config 0 e
    → Loses config e f
unfolding forget_waiter forget_active forget_in_batch has_active
forget_waiter-Loses config e n h v = elim (Option-cases (forget_active n e.active_batch)) [
  | inl idle ↦ elim (Option-cases (forget_queued n e.queue)) [
    | inl missing ↦ ground arith
    | inr (left, found) ↦
        let (f, same, head) = forget_queued-Follows config n e.queue found in
        ground
          (arith, f.waiters, f.scheduled, f.forced, v.counted, v.within, v.exclusive, v.scheduled)
  ]
  | inr (b, found) ↦
      let (shorter, active) = forget_active-waiting_batch n e.active_batch found in
      ground (arith, shorter, v.counted, v.within, v.exclusive, v.scheduled)
]

-- ===== src/Progress/Coalescer/Queue.antt =====
-- The queue of one key is sound: what it waits for comes, and its waiters are counted.
use emby_panel.Prelude.{
  ℕ, ◌==◌, min, suc, ◌+◌, ◌≡◌, refl, Bool, true, false, not, ◌&&◌, ◌||◌, none, some, List, [], ◌∷◌,
  ◌++◌, length, arith, if◌then◌else◌,
}
use emby_panel.Progress.Coalescer.Entry.{
  Config, Batch, Work, batch_work, barrier_work, is_empty, add_update, new_batch, join_batch,
  schedule_batch, force_work, force_batch,
}

abbrev pub is_ready : Work → Bool
is_ready (batch_work b) = b.ready
is_ready (barrier_work k) = true

-- A queued batch is ready, or has a timer for the end of the debounce window of its last update,
-- or for its first update and the longest delay if that is sooner.
unfoldable pub will_be_ready : Config → Work → Bool
will_be_ready config (barrier_work k) = true
will_be_ready config (batch_work b) = b.ready || (elim b.timer [
  | none ↦ false
  | some deadline ↦
      deadline
      == min (b.last_arrival + config.debounce) (b.first_arrival + config.max_dispatch_delay)
])

-- Only the last batch of a queue waits for its timer.
unfoldable pub is_scheduled : Config → List Work → Bool
unfolding will_be_ready
is_scheduled config [] = true
is_scheduled config (w ∷ rest) =
    (if is_empty rest then will_be_ready config w else is_ready w) && is_scheduled config rest

unfoldable pub all_ready : List Work → Bool
all_ready [] = true
all_ready (w ∷ rest) = is_ready w && all_ready rest

-- The queue is empty or its head waits for its timer.
abbrev pub waits_for_timer : List Work → Bool
waits_for_timer [] = true
waits_for_timer (w ∷ rest) = not (is_ready w)

-- The waiters of a piece of work, and of the queue.
abbrev pub waiting_work : Work → ℕ
waiting_work (batch_work b) = length b.waiters
waiting_work (barrier_work k) = 1

unfoldable pub queued : List Work → ℕ
queued [] = 0
queued (w ∷ rest) = waiting_work w + queued rest

pub schedule_batch-waiters :
    (config : Config) (now : ℕ) (b : Batch) → (schedule_batch config now b).waiters ≡ b.waiters
unfolding schedule_batch
schedule_batch-waiters config now b = ground arith

pub schedule_batch-timely :
    (config : Config) (now : ℕ) (b : Batch)
    → b.last_arrival ≡ now
    → will_be_ready config (batch_work (schedule_batch config now b)) ≡ true
unfolding schedule_batch will_be_ready
schedule_batch-timely config now b h = ground arith

pub scheduled_when_ready :
    (config : Config) (queue : List Work)
    → all_ready queue ≡ true
    → is_scheduled config queue ≡ true
unfolding all_ready is_scheduled will_be_ready
scheduled_when_ready config [] h = refl
scheduled_when_ready config (barrier_work k ∷ rest) h =
    ground (arith, scheduled_when_ready config rest)
scheduled_when_ready config (batch_work b ∷ rest) h =
    ground (arith, scheduled_when_ready config rest)

pub is_scheduled-tail :
    (config : Config) (w : Work) (rest : List Work)
    → is_scheduled config (w ∷ rest) ≡ true
    → is_scheduled config rest ≡ true
unfolding is_scheduled
is_scheduled-tail config w rest h = ground arith

module _ (config : Config) (now n request : ℕ) where
  pub queued-add_update :
      (queue : List Work) → queued (add_update config now n request queue) ≡ suc (queued queue)
  unfolding add_update queued
  queued-add_update [] = rw (schedule_batch-waiters) (unfold new_batch in refl)
  queued-add_update (barrier_work k ∷ []) = rw (schedule_batch-waiters) (unfold new_batch in refl)
  queued-add_update (batch_work b ∷ []) =
      rw (schedule_batch-waiters) (unfold join_batch in omega arith)
  queued-add_update (w ∷ v ∷ rest) = omega (arith, queued-add_update (v ∷ rest))

  add_update-is_empty :
      (queue : List Work) → is_empty (add_update config now n request queue) ≡ false
  unfolding add_update
  add_update-is_empty [] = refl
  add_update-is_empty (barrier_work k ∷ []) = refl
  add_update-is_empty (batch_work b ∷ []) = refl
  add_update-is_empty (w ∷ v ∷ rest) = refl

  pub is_scheduled-add_update :
      (queue : List Work)
      → is_scheduled config queue ≡ true
      → is_scheduled config (add_update config now n request queue) ≡ true
  unfolding add_update is_scheduled
  is_scheduled-add_update [] h =
      rw (schedule_batch-timely config now (new_batch now n request) (unfold new_batch in refl))
        refl
  is_scheduled-add_update (barrier_work k ∷ []) h =
      rw (schedule_batch-timely config now (new_batch now n request) (unfold new_batch in refl))
        refl
  is_scheduled-add_update (batch_work b ∷ []) h =
      rw (schedule_batch-timely config now (join_batch now n request b) (unfold join_batch in refl))
        refl
  is_scheduled-add_update (w ∷ v ∷ rest) h =
      ground (arith, is_scheduled-add_update (v ∷ rest), add_update-is_empty (v ∷ rest))

pub all_ready-force_work : (queue : List Work) → all_ready (force_work queue) ≡ true
unfolding all_ready force_work force_batch
all_ready-force_work [] = refl
all_ready-force_work (barrier_work k ∷ rest) = all_ready-force_work rest
all_ready-force_work (batch_work b ∷ rest) = all_ready-force_work rest

pub queued-force_work : (queue : List Work) → queued (force_work queue) ≡ queued queue
unfolding queued force_work force_batch
queued-force_work [] = refl
queued-force_work (barrier_work k ∷ rest) = omega (arith, queued-force_work rest)
queued-force_work (batch_work b ∷ rest) = omega (arith, queued-force_work rest)

pub all_ready-append_barrier :
    (n : ℕ) (queue : List Work)
    → all_ready queue ≡ true
    → all_ready (queue ++ (barrier_work n ∷ [])) ≡ true
unfolding all_ready
all_ready-append_barrier n [] h = refl
all_ready-append_barrier n (w ∷ rest) h = ground (arith, all_ready-append_barrier n rest)

pub queued-append_barrier :
    (n : ℕ) (queue : List Work) → queued (queue ++ (barrier_work n ∷ [])) ≡ suc (queued queue)
unfolding queued
queued-append_barrier n [] = refl
queued-append_barrier n (w ∷ rest) = omega (arith, queued-append_barrier n rest)

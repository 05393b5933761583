-- ===== src/Progress/Coalescer/Entry.antt =====
-- legacy_progress.go: the queue of one key, of batches of updates and of barriers, and what the
-- coalescer does to it under its lock. An id stands for an address, an instant is a number of
-- nanoseconds, and a duration that is not positive is given as 0, with which the code does the
-- same. The waiters of a batch are those that are still active.
use emby_panel.Prelude.{
  ℕ, ◌+◌, ◌-◌, min, Bool, true, false, not, ◌&&◌, ◌||◌, ◌==◌, leb, ltb, Option, none, some, List,
  [], ◌∷◌, if◌then◌else◌,
}
use emby_panel.Progress.Global.{ProgressGlobalRuntime, reserve_waiter, release_waiter}

pub record Config : Type 0 where
  pub debounce : ℕ
  pub max_dispatch_delay : ℕ
  pub idle_expiry : ℕ
  pub cleanup_interval : ℕ
  pub max_site_keys : ℕ
  pub max_waiters_per_key : ℕ

abbrev pub default_progress_coalescer_config : Config
default_progress_coalescer_config = record {
  debounce = 1000000000;
  max_dispatch_delay = 5000000000;
  idle_expiry = 300000000000;
  cleanup_interval = 60000000000;
  max_site_keys = 1024;
  max_waiters_per_key = 16;
}

pub record Batch : Type 0 where
  pub id : ℕ
  pub request : ℕ
  pub waiters : List ℕ
  pub first_arrival : ℕ
  pub last_arrival : ℕ
  pub ready : Bool
  pub timer : Option ℕ  -- when it fires
  pub timer_generation : ℕ

pub data Work : Type 0 where
  batch_work : Batch → Work
  barrier_work : ℕ → Work

pub record Entry : Type 0 where
  pub id : ℕ
  pub queue : List Work
  pub active_batch : Option Batch
  pub active_barrier : Option ℕ
  pub waiters : ℕ
  pub last_activity : ℕ

abbrev pub is_some {ℓ} : {A : Type ℓ} → Option A → Bool
is_some none = false
is_some (some a) = true

abbrev pub is_empty {ℓ} : {A : Type ℓ} → List A → Bool
is_empty [] = true
is_empty (x ∷ xs) = false

unfoldable pub has_active : Entry → Bool
has_active e = is_some e.active_batch || is_some e.active_barrier

-- Nothing is queued and nothing is under way.
unfoldable pub is_idle : Entry → Bool
unfolding has_active
is_idle e = not (has_active e) && is_empty e.queue

unfoldable pub reserve_waiter_locked :
    Config → ProgressGlobalRuntime → Entry → ProgressGlobalRuntime × Entry × Bool
reserve_waiter_locked config g e =
    if config.max_waiters_per_key == 0 || leb config.max_waiters_per_key e.waiters
    then (g, e, false)
    else (let (h, got) = reserve_waiter g in
        (h, if got then record e { waiters = e.waiters + 1 } else e, got))

unfoldable pub release_waiter_locked : ProgressGlobalRuntime → Entry → ProgressGlobalRuntime × Entry
release_waiter_locked g e =
    if ltb 0 e.waiters then (release_waiter g, record e { waiters = e.waiters - 1 }) else (g, e)

-- A new timer is set for the end of the debounce window, or earlier so that no batch waits
-- longer than `max_dispatch_delay` after its first update.
unfoldable pub schedule_batch : Config → ℕ → Batch → Batch
schedule_batch config now b =
    let deadline = min (now + config.debounce) (b.first_arrival + config.max_dispatch_delay) in
    if b.ready
    then b
    else (if leb deadline now
        then record b { ready = true; timer = none }
        else record b { timer = some deadline; timer_generation = b.timer_generation + 1 })

unfoldable pub new_batch : ℕ → ℕ → ℕ → Batch
new_batch now n request = record {
  id = n;
  request = request;
  waiters = n ∷ [];
  first_arrival = now;
  last_arrival = now;
  ready = false;
  timer = none;
  timer_generation = 0;
}

unfoldable pub join_batch : ℕ → ℕ → ℕ → Batch → Batch
join_batch now n request b = record b {
  request = request;
  last_arrival = now;
  waiters = n ∷ b.waiters;
}

-- An update joins the last batch of the queue when nothing is queued after it.
module _ (config : Config) (now n request : ℕ) where
  unfoldable pub add_update : List Work → List Work
  unfolding new_batch join_batch schedule_batch
  add_update [] = batch_work (schedule_batch config now (new_batch now n request)) ∷ []
  add_update (barrier_work k ∷ []) =
      barrier_work k ∷ batch_work (schedule_batch config now (new_batch now n request)) ∷ []
  add_update (batch_work b ∷ []) =
      batch_work (schedule_batch config now (join_batch now n request b)) ∷ []
  add_update (w ∷ v ∷ rest) = w ∷ add_update (v ∷ rest)

-- The request of the batch that an update joins; it is released.
unfoldable pub joined_request : List Work → List ℕ
joined_request [] = []
joined_request (barrier_work k ∷ []) = []
joined_request (batch_work b ∷ []) = b.request ∷ []
joined_request (w ∷ v ∷ rest) = joined_request (v ∷ rest)

unfoldable pub force_batch : Batch → Batch
force_batch b = record b { ready = true; timer = none; timer_generation = b.timer_generation + 1 }

unfoldable pub force_work : List Work → List Work
unfolding force_batch
force_work [] = []
force_work (batch_work b ∷ rest) = batch_work (force_batch b) ∷ force_work rest
force_work (barrier_work k ∷ rest) = barrier_work k ∷ force_work rest

unfoldable pub force_queued_batches : Entry → Entry
unfolding force_work
force_queued_batches e = record e { queue = force_work e.queue }

-- The head of the queue is taken out and started.
unfoldable pub start_work : Entry → List Work → Entry
start_work e [] = e
start_work e (batch_work b ∷ rest) =
    if b.ready then record e { queue = rest; active_batch = some b } else e
start_work e (barrier_work k ∷ rest) = record e { queue = rest; active_barrier = some k }

unfoldable pub advance_entry : Entry → Entry
unfolding has_active start_work
advance_entry e = if has_active e then e else start_work e e.queue

-- The timer of a queued batch fires; none when the batch is not queued, is ready already, or has
-- had its timer stopped or set again.
unfoldable pub mark_ready : ℕ → ℕ → List Work → Option (List Work)
mark_ready n generation [] = none
mark_ready n generation (batch_work b ∷ rest) =
    if b.id == n
    then (if b.timer_generation == generation && not b.ready
        then some (batch_work (record b { ready = true; timer = none }) ∷ rest)
        else none)
    else (elim (mark_ready n generation rest) [
      | none ↦ none
      | some queue ↦ some (batch_work b ∷ queue)
    ])
mark_ready n generation (barrier_work k ∷ rest) = elim (mark_ready n generation rest) [
  | none ↦ none
  | some queue ↦ some (barrier_work k ∷ queue)
]

-- delete(batch.waiters, waiter), none when the waiter is not there.
unfoldable pub delete_waiter : ℕ → List ℕ → Option (List ℕ)
delete_waiter n [] = none
delete_waiter n (k ∷ rest) =
    if k == n
    then some rest
    else (elim (delete_waiter n rest) [ none ↦ none | some waiters ↦ some (k ∷ waiters) ])

-- ===== src/Progress/Coalescer/Leaving.antt =====
-- legacy_progress.go: how waiters and barriers leave the entry of a key.
use emby_panel.Prelude.{ℕ, ◌==◌, Option, none, some, List, [], ◌∷◌, if◌then◌else◌}
use emby_panel.Progress.Global.{ProgressGlobalRuntime}
use emby_panel.Progress.Coalescer.Entry.{
  Batch, Work, batch_work, barrier_work, Entry, delete_waiter, release_waiter_locked,
}

-- The batch without a waiter, none when the waiter is not in it.
unfoldable pub forget_in_batch : ℕ → Batch → Option Batch
forget_in_batch n b = elim (delete_waiter n b.waiters) [
  | none ↦ none
  | some waiters ↦ some (record b { waiters = waiters })
]

unfoldable pub forget_queued : ℕ → List Work → Option (List Work)
forget_queued n [] = none
forget_queued n (barrier_work k ∷ rest) = elim (forget_queued n rest) [
  | none ↦ none
  | some queue ↦ some (barrier_work k ∷ queue)
]
forget_queued n (batch_work b ∷ rest) = elim (forget_in_batch n b) [
  | some c ↦ some (batch_work c ∷ rest)
  | none ↦ elim (forget_queued n rest) [ none ↦ none | some queue ↦ some (batch_work b ∷ queue) ]
]

unfoldable pub forget_active : ℕ → Option Batch → Option Batch
forget_active n none = none
forget_active n (some b) = forget_in_batch n b

-- The entry without a waiter, none when the waiter is in no batch of it, so is not active.
unfoldable pub forget_waiter : ℕ → Entry → Option Entry
forget_waiter n e = elim (forget_active n e.active_batch) [
  | some b ↦ some (record e { active_batch = some b })
  | none ↦ elim (forget_queued n e.queue) [
    | none ↦ none
    | some queue ↦ some (record e { queue = queue })
  ]
]

-- removeBarrierLocked; none for its false.
unfoldable pub remove_barrier : ℕ → List Work → Option (List Work)
remove_barrier n [] = none
remove_barrier n (barrier_work k ∷ rest) =
    if k == n
    then some rest
    else (elim (remove_barrier n rest) [ none ↦ none | some queue ↦ some (barrier_work k ∷ queue) ])
remove_barrier n (batch_work b ∷ rest) = elim (remove_barrier n rest) [
  | none ↦ none
  | some queue ↦ some (batch_work b ∷ queue)
]

-- The loop of dispatchBatch over the waiters of its batch.
unfoldable pub release_each : List ℕ → ProgressGlobalRuntime → Entry → ProgressGlobalRuntime × Entry
release_each [] g e = (g, e)
release_each (n ∷ rest) g e = let (h, f) = release_waiter_locked g e in release_each rest h f
